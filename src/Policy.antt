-- ===== src/Policy.antt =====
-- xdm/policy.c: the choices of the manager among what a display offers, for a build with XDM's own
-- authentication.
pub mod Choice
pub mod Willing
use xdm.Base.{
  ℕ, ◌+◌, Bool, true, false, ◌&&◌, ◌||◌, List, [], ◌∷◌, ◌==◌, if◌then◌else◌, Option, none, some,
  Bytes, codes, equal, length, any, find?, get_elem?,
}
use xdm.Base.Result.{Result, ok, fault, out_of_bounds, ◌>>=◌}
use xdm.Netaddr.{family_internet, family_internet6, family_local}
use xdm.Wire.{Opcode, request}
use xdm.Access.Database.{DisplayEntry, acceptable_display_address}

-- A row of `auth`: the authentication and the authorization that goes with it.
abbrev pub XdmAuth : Type 0
XdmAuth = Bytes × Bytes

abbrev pub auth : List XdmAuth
auth = (codes "XDM-AUTHENTICATION-1", codes "XDM-AUTHORIZATION-1") ∷ ([], []) ∷ []

-- The first name of the display's that is in the table, or no authentication.
unfoldable pub choose_authentication : List Bytes → Bytes
choose_authentication [] = []
choose_authentication (name ∷ names) =
    let rest = choose_authentication names in
    if any (λ (row : XdmAuth). equal name row.0) auth then name else rest

-- The place of the first name that passes, from `i` on.
abbrev pub index_from : (Bytes → Bool) → ℕ → List Bytes → Option ℕ
index_from test i [] = none
index_from test i (name ∷ names) =
    let rest = index_from test (i + 1) names in if test name then some i else rest

abbrev pub first_of : Option ℕ → Option ℕ → Option ℕ
first_of (some i) other = some i
first_of none other = other

abbrev pub partner : Option XdmAuth → List Bytes → Option ℕ
partner none names = none
partner (some row) names = index_from (λ name. equal name row.1) 0 names

-- `valid` is ValidAuthorization of xdm/auth.c; none is -1.
unfoldable pub select_authorization_type_index : (Bytes → Bool) → Bytes → List Bytes → Option ℕ
select_authorization_type_index valid authentication_name names =
    first_of (partner (find? (λ (row : XdmAuth). equal authentication_name row.0) auth) names)
      (index_from valid 0 names)

-- The text of the refusal, none to accept.
unfoldable pub accept_client : Bool → List DisplayEntry → Bytes → Bytes → ℕ → Result (Option Bytes)
accept_client has_file database client_name client t =
    acceptable_display_address has_file database client_name client t request >>= λ yes_it_is.
    ok (if yes_it_is then none else some (codes "Display not authorized to connect"))

-- A connection: its place in the request, its type, its address.
abbrev pub Connection : Type 0
Connection = ℕ × ℕ × Bytes

abbrev pub is_usable : ℕ → Bool
is_usable t = t == family_local || (t == family_internet || t == family_internet6)

abbrev pub address_at : List Bytes → ℕ → Result Bytes
address_at addresses i = elim (get_elem? addresses i) [ none ↦ fault out_of_bounds | some a ↦ ok a ]

abbrev pub Next : Type 0
Next = Option Connection → Result (Option Connection)

abbrev pub keep : Next → Option Connection → Connection → Result (Option Connection)
keep next none c = next (some c)
keep next (some b) c = next (some b)

abbrev pub same_or_first :
    Next → Bytes → Option Connection → ℕ → ℕ → Bytes → Result (Option Connection)
same_or_first next addr chosen i t a =
    if equal addr a then ok (some (i, t, a)) else keep next chosen (i, t, a)

abbrev pub first_if_none :
    Next → List Bytes → ℕ → ℕ → Option Connection → Result (Option Connection)
first_if_none next addresses i t (some c) = next (some c)
first_if_none next addresses i t none = address_at addresses i >>= λ a. next (some (i, t, a))

-- The loop, at `i` with the tentative choice so far; `connectionAddresses->data[i]` is read only for a
-- type that the switch names, and only if the comparison of the types or the choice asks for it.
unfoldable pub select_loop :
    Bytes → ℕ → List Bytes → ℕ → List ℕ → Option Connection → Result (Option Connection)
select_loop addr family addresses i [] chosen = ok chosen
select_loop addr family addresses i (t ∷ types) chosen =
    let next = select_loop addr family addresses (i + 1) types in
    if is_usable t
    then (if family == t
        then (address_at addresses i >>= same_or_first next addr chosen i t)
        else first_if_none next addresses i t chosen)
    else next chosen

abbrev pub or_own : Bool → Bytes → ℕ → ℕ → Option Connection → Result (Option Connection)
or_own own addr family n (some c) = ok (some c)
or_own own addr family n none = ok (if own then some (n, family, addr) else none)

-- `is_local` is isLocalAddress of the request's own address, which is taken when nothing else is usable.
unfoldable pub select_connection_type_index :
    (Bytes → ℕ → Bool) → Bytes → ℕ → List ℕ → List Bytes → Result (Option Connection)
select_connection_type_index is_local addr family types addresses =
    select_loop addr family addresses 0 types none
    >>= or_own (is_local addr family) addr family (length types)
