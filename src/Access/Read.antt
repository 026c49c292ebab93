-- ===== src/Access/Read.antt =====
-- xdm/access.c: ReadHostEntry, ReadDisplayEntry and ReadAccessDatabase. getaddrinfo is an argument: the
-- first address that it gives for a name. All allocations succeed; hop counts, which only the sending
-- of a query uses, are left out. A loop goes on for as many rounds as there are characters left, and one more.
pub mod Ends
pub mod Spelling
pub mod RoundTrip
use xdm.Base.{
  ℕ, zero, suc, ◌+◌, Bool, true, false, ◌||◌, List, [], ◌∷◌, ◌==◌, if◌then◌else◌, Option, none,
  some, Bytes, codes, equal, length, any,
}
use xdm.Base.Result.{Result, ok, fault, no_return, ◌>>=◌}
use xdm.Netaddr.{SockAddr, inet, inet6, family_internet, family_internet6}
use xdm.Access.Words.{File, read_word}
use xdm.Access.Database.{
  HostEntry, host_alias, host_address, host_broadcast, host_chooser, host_nobroadcast, host_anyaddr,
  DisplayKind, display_alias, display_pattern, display_address, display_listen, DisplayEntry,
  read_hosts,
}

abbrev pub Resolver : Type 0
Resolver = Bytes → Option SockAddr

-- The address and the type of the connection; none for a family that the switch does not name.
abbrev pub internet_address : Option SockAddr → Option (Bytes × ℕ)
internet_address (some (inet port a)) = some (a, family_internet)
internet_address (some (inet6 port a scope)) = some (a, family_internet6)
internet_address _ = none

abbrev pub starts_with : ℕ → Bytes → Bool
starts_with x [] = false
starts_with x (c ∷ cs) = c == x

-- What stands before the last slash, behind which the hop count is.
abbrev pub before_hops : Bytes → Bytes
before_hops [] = []
before_hops (c ∷ cs) =
    let rest = before_hops cs in
    if any (λ x. x == b'/') cs then c ∷ rest else if c == b'/' then [] else c ∷ cs

abbrev pub address_entry : Option (Bytes × ℕ) → Option HostEntry
address_entry none = none
address_entry (some (a, t)) = some (host_address a)

-- None for a host that is not found.
unfoldable pub host_entry_of : Resolver → Bytes → Option HostEntry
host_entry_of resolve word =
    let found = address_entry (internet_address (resolve (before_hops word))) in
    if starts_with b'%' word
    then some (host_alias word)
    else if equal word (codes "CHOOSER")
    then some host_chooser
    else if equal word (codes "BROADCAST")
    then some host_broadcast
    else if equal word (codes "NOBROADCAST")
    then some host_nobroadcast
    else if equal word (codes "*")
    then some host_anyaddr
    else found

abbrev pub or_again :
    {A : Type 0} → (File → Result (Option A × File)) → File → Option A → Result (Option A × File)
or_again again f none = again f
or_again again f (some x) = ok (some x, f)

-- `goto tryagain` for a host that is not found.
unfoldable pub host_loop : Resolver → ℕ → File → Result (Option HostEntry × File)
host_loop resolve zero f = fault no_return
host_loop resolve (suc fuel) f =
    let (word, f') = read_word true f in
    elim word [
      | none ↦ ok (none, f')
      | some w ↦ or_again (host_loop resolve fuel) f' (host_entry_of resolve w)
    ]

unfoldable pub read_host_entry : Resolver → File → Result (Option HostEntry × File)
read_host_entry resolve f = host_loop resolve (suc (length f.chars)) f

abbrev pub and_more :
    (File → Result (List HostEntry × File))
    → File
    → Option HostEntry
    → Result (List HostEntry × File)
and_more again f none = ok ([], f)
and_more again f (some h) = again f >>= λ r. ok (h ∷ r.0, r.1)

-- The hosts of the line.
unfoldable pub hosts_loop : Resolver → ℕ → File → Result (List HostEntry × File)
hosts_loop resolve zero f = fault no_return
hosts_loop resolve (suc fuel) f =
    read_host_entry resolve f >>= λ r. and_more (hosts_loop resolve fuel) r.1 r.0

abbrev pub has_glob_characters : Bytes → Bool
has_glob_characters [] = false
has_glob_characters (c ∷ cs) = (c == b'?' || c == b'*') || has_glob_characters cs

abbrev pub address_kind : Option (Bytes × ℕ) → Option DisplayKind
address_kind none = none
address_kind (some (a, t)) = some (display_address a t)

abbrev pub pattern_or_address : Resolver → Bytes → Option DisplayKind
pattern_or_address resolve word =
    if has_glob_characters word
    then some (display_pattern word)
    else address_kind (internet_address (resolve word))

abbrev pub with_negation : Bool → Option DisplayKind → Option (DisplayKind × Bool)
with_negation negated none = none
with_negation negated (some k) = some (k, negated)

abbrev pub negatable : Resolver → Bytes → Option (DisplayKind × Bool)
negatable resolve [] = with_negation false (pattern_or_address resolve [])
negatable resolve (c ∷ cs) =
    if c == b'!'
    then with_negation true (pattern_or_address resolve cs)
    else with_negation false (pattern_or_address resolve (c ∷ cs))

-- None for a display that is not found.
unfoldable pub display_kind_of : Resolver → Bytes → Option (DisplayKind × Bool)
display_kind_of resolve word =
    if starts_with b'%' word
    then some (display_alias word, false)
    else if equal word (codes "LISTEN")
    then some (display_listen, false)
    else negatable resolve word

abbrev pub with_hosts : DisplayKind × Bool → List HostEntry × File → Option DisplayEntry × File
with_hosts (k, negated) (hosts, f) = (some (read_hosts k negated hosts), f)

-- A display that is not found is passed over, but not what stands behind it on its line.
unfoldable pub display_loop : Resolver → ℕ → File → Result (Option DisplayEntry × File)
display_loop resolve zero f = fault no_return
display_loop resolve (suc fuel) f =
    let (word, f') = read_word false f in
    elim word [
      | none ↦ ok (none, f')
      | some w ↦ elim (display_kind_of resolve w) [
        | none ↦ display_loop resolve fuel f'
        | some k ↦ hosts_loop resolve (suc (length f'.chars)) f' >>= λ r. ok (with_hosts k r)
      ]
    ]

unfoldable pub read_display_entry : Resolver → File → Result (Option DisplayEntry × File)
read_display_entry resolve f = display_loop resolve (suc (length f.chars)) f

unfoldable pub database_loop : Resolver → ℕ → File → Result (List DisplayEntry)
database_loop resolve zero f = fault no_return
database_loop resolve (suc fuel) f = do
  (d, f') ← read_display_entry resolve f
  elim d [ none ↦ ok [] | some x ↦ database_loop resolve fuel f' >>= λ ds. ok (x ∷ ds) ]

-- The whole file; `nextIsEOF` is off, as every reading of the hosts of a line leaves it.
unfoldable pub read_access_database : Resolver → Bytes → Result (List DisplayEntry)
read_access_database resolve text =
    database_loop resolve (suc (length text)) (record { chars = text; next_is_eof = false })
