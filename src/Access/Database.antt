-- ===== src/Access/Database.antt =====
-- xdm/access.c: the entries of the access file, and who may be managed and which hosts are offered.
-- The address of a name, the interfaces of the machine and the earlier choices of choose.c are
-- arguments; the callbacks' calls are listed.
pub mod First
pub mod Hosts
pub mod Ends
use xdm.Base.{
  ℕ, zero, suc, ◌+◌, Bool, true, false, not, ◌&&◌, ◌||◌, List, [], ◌∷◌, ◌++◌, ◌==◌, if◌then◌else◌,
  Option, none, some, Bytes, codes, equal, length, any,
}
use xdm.Base.Result.{Result, ok, ◌>>=◌}
use xdm.Netaddr.{family_internet, family_internet6, family_local, family_local_host, family_wild}
use xdm.Wire.{Opcode, indirect_query, broadcast_query}
use xdm.Access.Pattern.{pattern_match}

-- `HostEntry`, as ReadHostEntry delivers it.
pub data HostEntry : Type 0 where
  host_alias : Bytes → HostEntry
  host_address : Bytes → HostEntry
  host_broadcast host_chooser host_nobroadcast host_anyaddr : HostEntry

pub data DisplayKind : Type 0 where
  display_alias : Bytes → DisplayKind
  display_pattern : Bytes → DisplayKind
  display_address : Bytes → ℕ → DisplayKind
  display_listen : DisplayKind

pub record DisplayEntry : Type 0 where
  pub kind : DisplayKind
  pub not_allowed : Bool
  pub not_broadcast : Bool
  pub chooser : Bool
  pub hosts : List HostEntry

-- The hosts of a line, the later ones first gathered: CHOOSER and NOBROADCAST only set their flags,
-- and the wildcard is kept for LISTEN.
abbrev pub is_listen : DisplayKind → Bool
is_listen display_listen = true
is_listen _ = false

abbrev pub gather : HostEntry → DisplayEntry → DisplayEntry
gather host_chooser d = record d { chooser = true }
gather host_nobroadcast d = record d { not_broadcast = true }
gather host_anyaddr d = if is_listen d.kind then record d { hosts = host_anyaddr ∷ d.hosts } else d
gather h d = record d { hosts = h ∷ d.hosts }

unfoldable pub read_hosts : DisplayKind → Bool → List HostEntry → DisplayEntry
read_hosts kind not_allowed [] = record {
  kind = kind;
  not_allowed = not_allowed;
  not_broadcast = false;
  chooser = false;
  hosts = [];
}
read_hosts kind not_allowed (h ∷ hs) = gather h (read_hosts kind not_allowed hs)

abbrev pub loopback : Bytes
loopback = 127 ∷ 0 ∷ 0 ∷ 1 ∷ []

abbrev pub loopback6 : Bytes
loopback6 = 0 ∷ 0 ∷ 0 ∷ 0 ∷ 0 ∷ 0 ∷ 0 ∷ 0 ∷ 0 ∷ 0 ∷ 0 ∷ 0 ∷ 0 ∷ 0 ∷ 0 ∷ 1 ∷ []

-- `interfaces` lists the IPv4 and IPv6 addresses of getifaddrs, none when it fails.
abbrev pub is_internet_local : List Bytes → Bytes → Bool
is_internet_local interfaces address =
    if length address == 4
    then equal address loopback || any (λ i. equal i address) interfaces
    else if length address == 16
    then equal address loopback6 || any (λ i. equal i address) interfaces
    else false

unfoldable pub is_local_address : List Bytes → Bytes → ℕ → Bool
is_local_address interfaces address connection_type =
    if connection_type == family_local
      || (connection_type == family_local_host || connection_type == family_wild)
    then true
    else if connection_type == family_internet || connection_type == family_internet6
    then is_internet_local interfaces address
    else false

-- Whether the local host is among the hosts, and the addresses that the callback was given.
abbrev pub Found : Type 0
Found = Bool × List Bytes

abbrev pub also : Found → Result Found → Result Found
also (b, calls) r = r >>= λ (b', calls'). ok (b || b', calls ++ calls')

abbrev pub broadcast_string : Bytes
broadcast_string = codes "BROADCAST"

abbrev pub max_depth : ℕ
max_depth = 32

module _ (is_local : Bytes → Bool) (broadcast : Bool) where
  abbrev pub host_found : Bytes → Found
  host_found address = if is_local address then (true, []) else (false, address ∷ [])

  -- `alias` is indirectAlias at the next depth.
  unfoldable pub scan_hostlist : (Bytes → Result Found) → List HostEntry → Result Found
  scan_hostlist alias [] = ok (false, [])
  scan_hostlist alias (host_alias name ∷ hs) = do
    found ← alias name
    also found (scan_hostlist alias hs)
  scan_hostlist alias (host_address address ∷ hs) =
      also (host_found address) (scan_hostlist alias hs)
  scan_hostlist alias (host_broadcast ∷ hs) =
      also (false, if broadcast then broadcast_string ∷ [] else []) (scan_hostlist alias hs)
  scan_hostlist alias (_ ∷ hs) = scan_hostlist alias hs

  abbrev pub alias_matches : Bytes → DisplayKind → Result Bool
  alias_matches name (display_alias own) = pattern_match name own
  alias_matches name _ = ok false

  abbrev pub when : Bool → Result Found → Result Found
  when true r = r
  when false r = ok (false, [])

  unfoldable pub walk_aliases : (Bytes → Result Found) → Bytes → List DisplayEntry → Result Found
  walk_aliases alias name [] = ok (false, [])
  walk_aliases alias name (d ∷ ds) = do
    yes_it_is ← alias_matches name d.kind
    found ← when yes_it_is (scan_hostlist alias d.hosts)
    also found (walk_aliases alias name ds)

  -- `left` is MAX_DEPTH less the depth.
  unfoldable pub indirect_alias : ℕ → List DisplayEntry → Bytes → Result Found
  indirect_alias zero database name = ok (false, [])
  indirect_alias (suc left) database name =
      walk_aliases (indirect_alias left database) name database

-- The entry's own test on the client; `client_name` is NetworkAddressToHostname of it, "" if null.
abbrev pub applies : Bytes → Bytes → ℕ → DisplayKind → Result Bool
applies client_name client connection_type (display_alias name) = ok false
applies client_name client connection_type display_listen = ok false
applies client_name client connection_type (display_pattern pattern) =
    pattern_match client_name pattern
applies client_name client connection_type (display_address address t) =
    ok (t == connection_type && equal address client)

abbrev pub no_hosts : DisplayEntry → Bool
no_hosts d = elim d.hosts [ [] ↦ true | h ∷ hs ↦ false ]

abbrev pub if_applies :
    Option DisplayEntry → Result (Option DisplayEntry) → Bool → Result (Option DisplayEntry)
if_applies d rest true = ok d
if_applies d rest false = rest

-- AcceptableDisplayAddress looks whether an entry is wanted, one without hosts, before it matches.
unfoldable pub first_entry :
    (DisplayEntry → Bool) → Bytes → Bytes → ℕ → List DisplayEntry → Result (Option DisplayEntry)
first_entry wanted client_name client t [] = ok none
first_entry wanted client_name client t (d ∷ ds) =
    let rest = first_entry wanted client_name client t ds in
    if wanted d then (applies client_name client t d.kind >>= if_applies (some d) rest) else rest

abbrev pub has_hosts : DisplayEntry → Bool
has_hosts d = not (no_hosts d)

-- The other loops match an entry before they look whether it has hosts.
unfoldable pub first_hosted : Bytes → Bytes → ℕ → List DisplayEntry → Result (Option DisplayEntry)
first_hosted client_name client t [] = ok none
first_hosted client_name client t (d ∷ ds) =
    let rest = first_hosted client_name client t ds in
    applies client_name client t d.kind >>= λ b. if_applies (some d) rest (b && has_hosts d)

abbrev pub is_indirect_query : Opcode → Bool
is_indirect_query indirect_query = true
is_indirect_query _ = false

abbrev pub is_broadcast_query : Opcode → Bool
is_broadcast_query broadcast_query = true
is_broadcast_query _ = false

abbrev pub may_query : Opcode → Option DisplayEntry → Bool
may_query type none = false
may_query type (some d) =
    not d.not_allowed && (if is_broadcast_query type then not d.not_broadcast else true)

-- `has_file` is `*accessFile`.
unfoldable pub acceptable_display_address :
    Bool → List DisplayEntry → Bytes → Bytes → ℕ → Opcode → Result Bool
acceptable_display_address has_file database client_name client t type =
    let found = first_entry no_hosts client_name client t database in
    if not has_file || is_indirect_query type
    then ok true
    else (found >>= λ d. ok (may_query type d))

-- `choice` is IndirectChoice for this client.
abbrev pub chooser_wanted : Option Bytes → Option DisplayEntry → Bool
chooser_wanted choice none = false
chooser_wanted choice (some d) =
    not d.not_allowed && (d.chooser && elim choice [ none ↦ true | some c ↦ false ])

unfoldable pub use_chooser : Option Bytes → List DisplayEntry → Bytes → Bytes → ℕ → Result Bool
use_chooser choice database client_name client t =
    first_hosted client_name client t database >>= λ d. ok (chooser_wanted choice d)

module _ (is_local : Bytes → Bool) where
  -- A client that has chosen is offered its choice.
  abbrev pub offer_choice : Option Bytes → Found
  offer_choice none = (true, [])
  offer_choice (some c) = host_found is_local true c

  abbrev pub offer : Option Bytes → List DisplayEntry → Option DisplayEntry → Result Found
  offer choice database none = ok (false, [])
  offer choice database (some d) =
      let listed =
        scan_hostlist is_local false (indirect_alias is_local false max_depth database) d.hosts in
      if d.not_allowed
      then ok (false, [])
      else if d.chooser
      then ok (offer_choice choice)
      else listed

  unfoldable pub for_each_matching_indirect_host :
      Option Bytes → List DisplayEntry → Bytes → Bytes → ℕ → Result Found
  for_each_matching_indirect_host choice database client_name client t =
      first_hosted client_name client t database >>= offer choice database

  -- The local host, if it is among the hosts, is offered last, by its address `own`.
  abbrev pub local_last : Bytes → Found → Result (List Bytes)
  local_last own (b, calls) = ok (if b then calls ++ own ∷ [] else calls)

  abbrev pub offer_all : Bytes → List DisplayEntry → Option DisplayEntry → Result (List Bytes)
  offer_all own database none = ok []
  offer_all own database (some d) =
      let listed =
        scan_hostlist is_local true (indirect_alias is_local true max_depth database) d.hosts in
      if d.not_allowed then ok [] else if d.chooser then (listed >>= local_last own) else ok []

  unfoldable pub for_each_chooser_host :
      Bytes → List DisplayEntry → Bytes → Bytes → ℕ → Result (List Bytes)
  for_each_chooser_host own database client_name client t =
      first_hosted client_name client t database >>= offer_all own database

-- The addresses that the listen and the multicast callback are given, in order; none for the null
-- pointer. `default_mcast` is the default multicast group, if the build has one.
abbrev pub Listened : Type 0
Listened = List (Bool × Option HostEntry)

abbrev pub mcast_hosts : List HostEntry → Listened
mcast_hosts [] = []
mcast_hosts (h ∷ hs) = (true, some h) ∷ mcast_hosts hs

abbrev pub listen_hosts : List HostEntry → Listened
listen_hosts [] = []
listen_hosts (h ∷ hs) = (false, some h) ∷ mcast_hosts hs

abbrev pub listen_entries : List DisplayEntry → Listened
listen_entries [] = []
listen_entries (d ∷ ds) =
    if is_listen d.kind then listen_hosts d.hosts ++ listen_entries ds else listen_entries ds

unfoldable pub for_each_listen_addr : Option Bytes → List DisplayEntry → Listened
for_each_listen_addr default_mcast database =
    if any (λ d. is_listen d.kind) database
    then listen_entries database
    else (false, none)
      ∷ elim default_mcast [ none ↦ [] | some a ↦ (true, some (host_address a)) ∷ [] ]
