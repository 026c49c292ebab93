-- ===== src/Tests/Queries.antt =====
-- xdm/access.c, xdm/policy.c, xdm/protodpy.c and xdm/choose.c on concrete requests.
use xdm.Base.{
  find?, ℕ, ◌+◌, ◌≤◌, Bool, true, false, ◌&&◌, List, [], ◌∷◌, ◌==◌, Option, none, some, Bytes,
  codes, equal, length, All, ◌≡◌, ◌⊎◌, ◌↔◌, refl, arith,
}
use xdm.Base.Result.{ok}
use xdm.Netaddr.{Netaddr, inet, address_equal}
use xdm.Netaddr.Laws.{IsSameAddress, address_equal_iff}
use xdm.Wire.{query}
use xdm.Access.Pattern.{pattern_match, Glob, is_plain}
use xdm.Access.Pattern.Meaning.{pattern_match-Glob}
use xdm.Access.Database.{
  host_alias, host_address, DisplayEntry, display_alias, display_pattern, Found, no_hosts,
  acceptable_display_address, first_entry, first_hosted, for_each_matching_indirect_host,
  scan_hostlist, walk_aliases, indirect_alias,
}
use xdm.Access.Database.First.{IsFirst, acceptable_display_address-IsFirst}
use xdm.Access.Database.Hosts.{for_each_matching_indirect_host-All}
use xdm.Access.Database.Ends.{for_each_matching_indirect_host-Ends}
use xdm.Policy.{Connection, select_connection_type_index}
use xdm.Policy.Choice.{IsOffered, select_connection_type_index-IsOffered}
use xdm.Protodpy.{
  ProtoDisplay, Protos, is_proto, find_proto_display, timeout_proto_displays, new_proto_display,
}
use xdm.Protodpy.Timeout.{
  requested, fresh, timeout_proto_displays-fresh, new_proto_display-find_proto_display,
}
use xdm.Choose.{
  Client, is_client, is_indirect_client, remember_indirect_client, indirect_choice,
  register_indirect_choice, format_bytes,
}
use xdm.Choose.Clients.{
  IsClientSet, remember_indirect_client_lem, register_indirect_choice-indirect_choice,
}
use xdm.Choose.Hex.{read_hex, format_bytes-read_hex}

plain : is_plain false (codes "*.example.?rg") ≡ true
unfolding is_plain
plain = refl

star_plain : is_plain false (codes "*") ≡ true
unfolding is_plain
star_plain = refl

all_plain : is_plain false (codes "%all") ≡ true
unfolding is_plain
all_plain = refl

pattern_match-Glob_example :
    (b : Bool) × (pattern_match (codes "Host.example.ORG") (codes "*.example.?rg") ≡ ok b)
    × ((b ≡ true) ↔ Glob false (codes "*.example.?rg") (codes "Host.example.ORG"))
pattern_match-Glob_example =
    pattern_match-Glob (codes "Host.example.ORG") (codes "*.example.?rg") plain

-- `a**` does not match `a`.
two_stars : pattern_match (codes "a") (codes "a**") ≡ ok false
unfolding pattern_match
two_stars = refl

abbrev any_display : DisplayEntry
any_display = record {
  kind = display_pattern (codes "*");
  not_allowed = false;
  not_broadcast = true;
  chooser = false;
  hosts = [];
}

abbrev aliased : DisplayEntry
aliased = record {
  kind = display_pattern (codes "*");
  not_allowed = false;
  not_broadcast = false;
  chooser = false;
  hosts = host_alias (codes "%all") ∷ host_address (10 ∷ 0 ∷ 0 ∷ 1 ∷ []) ∷ [];
}

-- An alias that names itself.
abbrev circle : DisplayEntry
circle = record {
  kind = display_alias (codes "%all");
  not_allowed = false;
  not_broadcast = false;
  chooser = false;
  hosts = host_alias (codes "%all") ∷ host_address (10 ∷ 0 ∷ 0 ∷ 2 ∷ []) ∷ [];
}

admitted : acceptable_display_address true (any_display ∷ []) (codes "x") [] 0 query ≡ ok true
unfolding acceptable_display_address first_entry pattern_match
admitted = refl

abbrev no_local : Bytes → Bool
no_local a = false

acceptable_display_address-IsFirst_example :
    (e : DisplayEntry) × IsFirst (codes "x") [] 0 no_hosts (any_display ∷ []) e
    × (e.not_allowed ≡ false)
    × ((false ≡ false) ⊎ (e.not_broadcast ≡ false))
acceptable_display_address-IsFirst_example =
    acceptable_display_address-IsFirst (codes "x") [] 0 (any_display ∷ []) query refl admitted

forwarded :
    for_each_matching_indirect_host no_local none (aliased ∷ []) (codes "x") [] 0
    ≡ ok (false, (10 ∷ 0 ∷ 0 ∷ 1 ∷ []) ∷ [])
unfolding for_each_matching_indirect_host first_hosted pattern_match scan_hostlist indirect_alias
    walk_aliases
forwarded = refl

for_each_matching_indirect_host-All_example :
    All (λ (a : Bytes). length a ≡ 4) ((10 ∷ 0 ∷ 0 ∷ 1 ∷ []) ∷ [])
for_each_matching_indirect_host-All_example =
    for_each_matching_indirect_host-All (λ (a : Bytes). length a ≡ 4) no_local none (aliased ∷ [])
      (codes "x") [] 0 false ((10 ∷ 0 ∷ 0 ∷ 1 ∷ []) ∷ []) ((tt, (refl, tt)), tt) tt forwarded

for_each_matching_indirect_host-Ends_example :
    (found : Found) × (for_each_matching_indirect_host no_local none
        (aliased ∷ circle ∷ [])
        (codes "x")
        []
        0
      ≡ ok found)
for_each_matching_indirect_host-Ends_example =
    for_each_matching_indirect_host-Ends no_local none (aliased ∷ circle ∷ []) (codes "x") [] 0
      (star_plain, (all_plain, tt))

abbrev offered_addresses : List Bytes
offered_addresses = (10 ∷ 0 ∷ 0 ∷ 9 ∷ []) ∷ (10 ∷ 0 ∷ 0 ∷ 8 ∷ []) ∷ []

select_connection_type_index-IsOffered_example :
    (r : Option Connection) × (select_connection_type_index
        (λ a t. false)
        (10 ∷ 0 ∷ 0 ∷ 8 ∷ [])
        0
        (0 ∷ 0 ∷ [])
        offered_addresses
      ≡ ok r)
    × ((c : Connection)
        → r ≡ some c
        → IsOffered (0 ∷ 0 ∷ []) offered_addresses c
          ⊎ ((c ≡ (2, 0, 10 ∷ 0 ∷ 0 ∷ 8 ∷ [])) × (false ≡ true)))
select_connection_type_index-IsOffered_example =
    select_connection_type_index-IsOffered (λ a t. false) (10 ∷ 0 ∷ 0 ∷ 8 ∷ []) 0 (0 ∷ 0 ∷ [])
      offered_addresses (omega arith)

abbrev home : Netaddr
home = record { sa = inet (0 ∷ 177 ∷ []) (10 ∷ 0 ∷ 0 ∷ 8 ∷ []); len = 16 }

abbrev proto_at : ℕ → ℕ → ProtoDisplay
proto_at a date = record {
  addr = a;
  address = home;
  date = date;
  display_number = a;
  connection_type = 0;
  connection_address = 10 ∷ 0 ∷ 0 ∷ 8 ∷ [];
  session_id = 5;
  file_authorization = none;
}

abbrev two_protos : Protos
two_protos = record { proto_displays = proto_at 2 100 ∷ proto_at 1 9000 ∷ []; next_addr = 3 }

timeout_proto_displays-fresh_example :
    (timeout_proto_displays 10000 two_protos).proto_displays ≡ proto_at 1 9000 ∷ []
timeout_proto_displays-fresh_example =
    timeout_proto_displays-fresh 10000 two_protos (omega arith) (omega arith) ((refl, tt), (tt, tt))

new_proto_display-find_proto_display_example :
    (find_proto_display home 4 (
        timeout_proto_displays 10700
          (new_proto_display true 10000 home 4 1 (9 ∷ []) 77 two_protos).1)
      ≡ some (requested 3 10000 home 4 1 (9 ∷ []) 77))
    × ((other : Netaddr)
        → (m : ℕ) → ((4 == m) && address_equal other home) ≡ false
        → find_proto_display other m (
            timeout_proto_displays 10700
              (new_proto_display true 10000 home 4 1 (9 ∷ []) 77 two_protos).1)
          ≡ find? (is_proto other m) (fresh 10700 two_protos.proto_displays))
new_proto_display-find_proto_display_example =
    new_proto_display-find_proto_display 10000 10700 home 4 1 (9 ∷ []) 77 two_protos (omega arith)
      (omega arith) (omega arith) (omega arith) ((refl, tt), (tt, tt))
      (omega arith, (omega arith, tt))

address_equal_iff_example : (address_equal home home ≡ true) ↔ IsSameAddress home home
address_equal_iff_example = address_equal_iff home home

abbrev two_clients : List Client
two_clients = ((1 ∷ []), 0) ∷ ((2 ∷ []), 0) ∷ []

remember_indirect_client_lem_example :
    IsClientSet (remember_indirect_client true (3 ∷ []) 0 two_clients).1
    × ((remember_indirect_client true (3 ∷ []) 0 two_clients).0
        ≡ is_indirect_client (3 ∷ []) 0 (remember_indirect_client true (3 ∷ []) 0 two_clients).1)
    × ((b : Bytes)
        → (u : ℕ) → is_client b u ((3 ∷ []), 0) ≡ false
        → is_indirect_client b u (remember_indirect_client true (3 ∷ []) 0 two_clients).1
          ≡ is_indirect_client b u two_clients)
unfolding equal
remember_indirect_client_lem_example =
    remember_indirect_client_lem true (3 ∷ []) 0 two_clients (refl, (refl, tt))

register_indirect_choice-indirect_choice_example :
    (indirect_choice 70 15 (1 ∷ []) 0 (register_indirect_choice 60 (1 ∷ []) 0 (9 ∷ []) [])).0
    ≡ some (9 ∷ [])
register_indirect_choice-indirect_choice_example =
    register_indirect_choice-indirect_choice 60 70 15 (1 ∷ []) 0 (9 ∷ []) [] (omega arith)

format_bytes-read_hex_example :
    (out : Bytes) × (format_bytes (10 ∷ 255 ∷ []) 5 ≡ some out)
    × (length out + 1 ≤ 5)
    × (read_hex out ≡ (10 ∷ 255 ∷ []))
format_bytes-read_hex_example =
    format_bytes-read_hex (10 ∷ 255 ∷ []) 5 (omega arith, (omega arith, tt)) (omega arith)
