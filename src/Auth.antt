-- ===== src/Auth.antt =====
-- xdm/auth.c: the authorization protocols, and the user's authority file as SetUserAuthorization and
-- RemoveUserAuthorization rewrite it. The interfaces and the host's name are given; the locks, the
-- temporary files and the directories are left out, and all allocations succeed.
pub mod Written
pub mod Covers
pub mod Rewrite
use xdm.Base.{
  ℕ, ◌+◌, ◌%◌, ◌^◌, Bool, true, false, not, ◌&&◌, ◌||◌, List, [], ◌∷◌, ◌++◌, ◌==◌, ltb,
  if◌then◌else◌, Option, none, some, Bytes, codes, equal, length, any,
}
use xdm.Base.Result.{Result, ok, fault, null_pointer, ◌>>=◌}
use xdm.Netaddr.{SockAddr, Netaddr, convert_addr, family_internet, family_internet6, family_local}

-- `Xauth`, an entry of an authority file.
pub record Entry : Type 0 where
  pub family : ℕ
  pub address : Bytes
  pub number : Bytes
  pub name : Bytes
  pub data_bytes : Bytes

-- The protocols of a build with XDM's own authentication, without Kerberos and secure RPC.
abbrev pub auth_protocols : List Bytes
auth_protocols = codes "MIT-MAGIC-COOKIE-1" ∷ codes "XDM-AUTHORIZATION-1" ∷ []

-- Whether findProtocol finds the name.
unfoldable pub valid_authorization : Bytes → Bool
valid_authorization name = any (λ p. equal p name) auth_protocols

-- The file that is written, and `addrs`, with `doWrite`.
pub record Rewriting : Type 0 where
  pub written : List Entry
  pub addrs : List Entry
  pub do_write : Bool

-- checkEntry compares all but the data.
abbrev pub same_entry : Entry → Entry → Bool
same_entry e a =
    a.family == e.family
    && (equal a.address e.address && (equal a.number e.number && equal a.name e.name))

abbrev pub check_entry : Entry → List Entry → Bool
check_entry e addrs = any (same_entry e) addrs

abbrev pub write_auth : Entry → Rewriting → Rewriting
write_auth e f = if f.do_write then record f { written = f.written ++ e ∷ [] } else f

abbrev pub save_entry : Entry → Rewriting → Rewriting
save_entry e f = record f { addrs = e ∷ f.addrs }

-- A family and an address to write an entry for.
abbrev pub Place : Type 0
Place = ℕ × Bytes

abbrev pub place_entry : Entry → Place → Entry
place_entry e p = record e { family = p.0 % 2 ^ 16; address = p.1 }

abbrev pub write_addr : Entry → Place → Rewriting → Rewriting
write_addr e p f = save_entry (place_entry e p) (write_auth (place_entry e p) f)

abbrev pub is_loopback : Bytes → Bool
is_loopback a = equal a (0 ∷ 0 ∷ 0 ∷ 0 ∷ 0 ∷ 0 ∷ 0 ∷ 0 ∷ 0 ∷ 0 ∷ 0 ∷ 0 ∷ 0 ∷ 0 ∷ 0 ∷ 1 ∷ [])

abbrev pub starts_127 : Bytes → Bool
starts_127 [] = false
starts_127 (c ∷ cs) = c == 127

-- What DefineSelf skips: other families, the loopback addresses, and IPv6 for XDM-AUTHORIZATION-1.
abbrev pub is_skipped : Bytes → ℕ → Bytes → Bool
is_skipped name t a =
    t == family_local
    || ((t == family_internet && (length a == 4 && starts_127 a))
        || (t == family_internet6 && (is_loopback a || equal name (codes "XDM-AUTHORIZATION-1"))))

abbrev pub interface_place : Bytes → Option ℕ × Bytes → List Place → List Place
interface_place name (none, a) rest = rest
interface_place name (some t, a) rest = if is_skipped name t a then rest else (t, a) ∷ rest

-- DefineSelf and DefineLocal.
unfoldable pub local_places : List SockAddr → Bytes → Bytes → List Place
local_places [] host name = (family_local, host) ∷ []
local_places (i ∷ is) host name = interface_place name (convert_addr i) (local_places is host name)

-- The display: whether it is local, its name and its peer; and the machine.
pub record Owner : Type 0 where
  pub is_local : Bool
  pub display_name : Bytes
  pub peer : Option Netaddr
  pub interfaces : List SockAddr
  pub hostname : Bytes

abbrev pub remote_place : Owner → Entry → Option ℕ × Bytes → Result (List Place)
remote_place o e (none, a) = fault null_pointer
remote_place o e (some t, a) =
    if t == family_local then ok (local_places o.interfaces o.hostname e.name) else ok ((t, a) ∷ [])

abbrev pub peer_places : Owner → Entry → Option Netaddr → Result (List Place)
peer_places o e none = ok []
peer_places o e (some peer) =
    let remote = remote_place o e (convert_addr peer.sa) in if ltb peer.len 2 then ok [] else remote

-- Where writeLocalAuth or writeRemoteAuth writes entries for.
unfoldable pub places : Owner → Entry → Result (List Place)
places o e =
    let remote = peer_places o e o.peer in
    if o.is_local then ok (local_places o.interfaces o.hostname e.name) else remote

-- Behind the last colon, up to the first dot: `strrchr` and `strchr`.
abbrev pub up_to_dot : Bytes → Bytes
up_to_dot [] = []
up_to_dot (c ∷ cs) = if c == b'.' then [] else c ∷ up_to_dot cs

abbrev pub behind_colon : Bytes → Option Bytes
behind_colon [] = none
behind_colon (c ∷ cs) = elim (behind_colon cs) [
  | some s ↦ some s
  | none ↦ if c == b':' then some cs else none
]

-- setAuthNumber; without a colon the number stays.
unfoldable pub set_auth_number : Bytes → Entry → Entry
set_auth_number name e = elim (behind_colon name) [
  | none ↦ e
  | some s ↦ record e { number = up_to_dot s }
]

unfoldable pub write_places : Entry → List Place → Rewriting → Rewriting
write_places e [] f = f
write_places e (p ∷ ps) f = write_places e ps (write_addr e p f)

unfoldable pub write_display_auth : Owner → Entry → Rewriting → Result Rewriting
write_display_auth o e f =
    places o e >>= λ ps. ok (write_places (set_auth_number o.display_name e) ps f)

unfoldable pub write_each : Owner → List Entry → Rewriting → Result Rewriting
write_each o [] f = ok f
write_each o (e ∷ es) f = write_display_auth o e f >>= write_each o es

abbrev pub is_cookie : Entry → Bool
is_cookie e = equal e.name (codes "MIT-MAGIC-COOKIE-1")

-- The first magic cookie, and the authorizations without it.
abbrev pub first_cookie : List Entry → List Entry
first_cookie [] = []
first_cookie (e ∷ es) = if is_cookie e then e ∷ [] else first_cookie es

abbrev pub other_auths : List Entry → List Entry
other_auths [] = []
other_auths (e ∷ es) = if is_cookie e then es else e ∷ other_auths es

-- Kerberos data is not written.
abbrev pub without_kerberos : Entry → Entry
without_kerberos e =
    if equal e.name (codes "MIT-KERBEROS-5") then record e { data_bytes = [] } else e

abbrev pub hide_kerberos : List Entry → List Entry
hide_kerberos [] = []
hide_kerberos (e ∷ es) = without_kerberos e ∷ hide_kerberos es

-- The entries of the old file that are not replaced.
unfoldable pub copy_old : List Entry → Rewriting → Rewriting
copy_old [] f = f
copy_old (e ∷ es) f = copy_old es (if check_entry e f.addrs then f else write_auth e f)

-- SetUserAuthorization's new file.
unfoldable pub set_user_authorization : Owner → List Entry → List Entry → Result (List Entry)
set_user_authorization o auths old = do
  f ← write_each o (first_cookie auths) (record { written = []; addrs = []; do_write = true })
  g ← write_each o (hide_kerberos (other_auths auths)) f
  ok ((copy_old old g).written)

-- RemoveUserAuthorization's new file.
unfoldable pub remove_user_authorization : Owner → List Entry → List Entry → Result (List Entry)
remove_user_authorization o auths old = do
  f ← write_each o auths (record { written = []; addrs = []; do_write = false })
  ok ((copy_old old (record f { do_write = true })).written)
