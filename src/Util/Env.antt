-- ===== src/Util/Env.antt =====
-- A variable that is set is read back, and the others stay.
use xdm.Base.{
  ℕ, suc, true, false, ◌&&◌, List, [], ◌∷◌, ◌==◌, Option, none, some, Bytes, begins, equal,
  equal_refl, equal_iff, length, drop, All, ◌≡◌, inl, inr, refl, sym, ap, ◌∙◌, arith, Bool-cases,
  and_true, ==_iff, ◌≢◌,
}
use xdm.Util.{make_env, is_entry, get_from, get_env, set_in, set_env}

-- A name of a variable has no `=`.
abbrev pub IsName : Bytes → Type 0
IsName name = All (λ c. (c == b'=') ≡ false) name

is_entry-cons : (x c : ℕ) (m s : Bytes) → is_entry (x ∷ m) (c ∷ s) ≡ (c == x && is_entry m s)
unfolding begins
is_entry-cons x c m s = ground arith

is_entry-make_env :
    (m n value : Bytes) → IsName m → IsName n → is_entry m (make_env n value) ≡ equal n m
unfolding begins equal
is_entry-make_env [] [] value h k = ground arith
is_entry-make_env [] (c ∷ n) value h (k, ks) = ground arith
is_entry-make_env (x ∷ m) [] value (h, hs) k = ground arith
is_entry-make_env (x ∷ m) (c ∷ n) value (h, hs) (k, ks) =
    is_entry-cons x c m (make_env n value)
    ∙ ap (λ b. c == x && b) (is_entry-make_env m n value hs ks)

drop-make_env : (n value : Bytes) → drop (suc (length n)) (make_env n value) ≡ value
drop-make_env [] value = refl
drop-make_env (c ∷ n) value = drop-make_env n value

get_from-set_in :
    (es : List Bytes) (n value : Bytes) → IsName n → get_from (set_in es n value) n ≡ some value
get_from-set_in [] n value h =
    rw (is_entry-make_env n n value h h, equal_refl n, drop-make_env n value) refl
get_from-set_in (e ∷ es) n value h = elim (Bool-cases (is_entry n e)) [
  | inl y ↦ rw (y, is_entry-make_env n n value h h, equal_refl n, drop-make_env n value) refl
  | inr no_entry ↦ rw (no_entry, no_entry) (get_from-set_in es n value h)
]

cons_eq : {c x : ℕ} {s t : Bytes} → c ≡ x → s ≡ t → c ∷ s ≡ x ∷ t
cons_eq p q = cc

is_entry-eq : (n e : Bytes) → is_entry n e ≡ true → (value : Bytes) × (e ≡ make_env n value)
unfolding begins
is_entry-eq [] [] h = ground arith
is_entry-eq (x ∷ n) [] h = ground arith
is_entry-eq [] (c ∷ s) h = (s, ground arith)
is_entry-eq (x ∷ n) (c ∷ s) h =
    let (same, inner) = and_true (c == x) (is_entry n s) (sym (is_entry-cons x c n s) ∙ h) in
    let (value, e) = is_entry-eq n s inner in (value, cons_eq ((==_iff c x).0 same) e)

other_entry :
    (m n e : Bytes)
    → IsName m
    → IsName n
    → equal n m ≡ false
    → is_entry n e ≡ true
    → is_entry m e ≡ false
other_entry m n e h k ne y =
    let (value, q) = is_entry-eq n e y in rw q (is_entry-make_env m n value h k ∙ ne)

get_from-set_in_other :
    (es : List Bytes) (n m value : Bytes)
    → IsName n
    → IsName m
    → equal n m ≡ false
    → get_from (set_in es n value) m ≡ get_from es m
get_from-set_in_other [] n m value k h ne = rw (is_entry-make_env m n value h k, ne) refl
get_from-set_in_other (e ∷ es) n m value k h ne = elim (Bool-cases (is_entry n e)) [
  | inl y ↦ rw (y, is_entry-make_env m n value h k, ne, other_entry m n e h k ne y) refl
  | inr no_entry ↦ rw (no_entry, get_from-set_in_other es n m value k h ne) refl
]

not_equal : (n m : Bytes) → n ≢ m → equal n m ≡ false
not_equal n m ne = elim (Bool-cases (equal n m)) [
  | inl y ↦ absurd (ne ((equal_iff n m).0 y))
  | inr f ↦ f
]

-- getEnv gives back what setEnv stored under the name, and what it gave before under every other name,
-- for names without `=`.
pub set_env-get_env :
    (env : Option (List Bytes)) (name value : Bytes)
    → IsName name
    → (get_env (set_env env name value) name ≡ some value)
      × ((other : Bytes)
          → IsName other
          → name ≢ other
          → get_env (set_env env name value) other ≡ get_env env other)
unfolding set_env get_env
set_env-get_env none name value h = (
  get_from-set_in [] name value h,
  λ other k ne. get_from-set_in_other [] name other value h k (not_equal name other ne),
)
set_env-get_env (some es) name value h = (
  get_from-set_in es name value h,
  λ other k ne. get_from-set_in_other es name other value h k (not_equal name other ne),
)
