-- ===== src/Util.antt =====
-- xdm/util.c: environments. The null pointer for an environment is none. All allocations succeed.
pub mod Env
use xdm.Base.{
  ℕ, suc, ◌+◌, Bool, true, false, ◌&&◌, List, [], ◌∷◌, ◌++◌, ◌==◌, ltb, if◌then◌else◌, Option, none,
  some, Bytes, begins, length, drop,
}

abbrev pub make_env : Bytes → Bytes → Bytes
make_env name value = name ++ b'=' ∷ value

abbrev pub is_equals : Bytes → Bool
is_equals [] = false
is_equals (c ∷ s) = c == b'='

-- `strlen (e) > l && !strncmp (e, name, l) && e[l] == '='`
abbrev pub is_entry : Bytes → Bytes → Bool
is_entry name e =
    ltb (length name) (length e) && (begins e name && is_equals (drop (length name) e))

abbrev pub get_from : List Bytes → Bytes → Option Bytes
get_from [] name = none
get_from (e ∷ es) name =
    let rest = get_from es name in
    if is_entry name e then some (drop (suc (length name)) e) else rest

unfoldable pub get_env : Option (List Bytes) → Bytes → Option Bytes
get_env none name = none
get_env (some es) name = get_from es name

-- The first entry of the name is replaced, or a new one put at the end.
abbrev pub set_in : List Bytes → Bytes → Bytes → List Bytes
set_in [] name value = make_env name value ∷ []
set_in (e ∷ es) name value =
    let rest = set_in es name value in
    if is_entry name e then make_env name value ∷ es else e ∷ rest

unfoldable pub set_env : Option (List Bytes) → Bytes → Bytes → Option (List Bytes)
set_env none name value = some (make_env name value ∷ [])
set_env (some es) name value = some (set_in es name value)
