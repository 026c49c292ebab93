-- ===== src/Access/Database/Ends.antt =====
-- The search of the access file comes to an end, whatever its aliases name.
use xdm.Base.{
  ◌&&◌, ℕ, zero, suc, Bool, true, false, List, [], ◌∷◌, if◌then◌else◌, Option, none, some, Bytes,
  All, ◌≡◌, refl, Bool-cases, inl, inr,
}
use xdm.Base.Result.{Result, ok, ◌>>=◌}
use xdm.Access.Pattern.{is_plain}
use xdm.Access.Pattern.Meaning.{pattern_match-Glob}
use xdm.Access.Database.{
  HostEntry, host_alias, host_address, host_broadcast, host_chooser, host_nobroadcast, host_anyaddr,
  DisplayEntry, DisplayKind, display_alias, display_pattern, display_address, display_listen, Found,
  also, broadcast_string, host_found, scan_hostlist, alias_matches, when, walk_aliases,
  indirect_alias, max_depth, offer, first_hosted, has_hosts, for_each_matching_indirect_host,
  applies, if_applies,
}

-- The patterns of the entry are read within their bounds.
abbrev pub IsReadable : DisplayKind → Type 0
IsReadable (display_alias name) = is_plain false name ≡ true
IsReadable (display_pattern pattern) = is_plain false pattern ≡ true
IsReadable _ = Unit

abbrev pub AreReadable : List DisplayEntry → Type 0
AreReadable database = All (λ (d : DisplayEntry). IsReadable d.kind) database

abbrev pub Ends : {A : Type 0} → Result A → Type 0
Ends {A} r = (a : A) × (r ≡ ok a)

>>=-Ends :
    {A B : Type 0} (m : Result A) (f : A → Result B)
    → Ends m
    → ((a : A) → Ends (f a))
    → Ends (m >>= f)
>>=-Ends m f (a, e) g = rw e (g a)

also-Ends : (f : Found) (r : Result Found) → Ends r → Ends (also f r)
also-Ends (b, cs) r e = >>=-Ends r _ e (λ f. (_, refl))

module _ (is_local : Bytes → Bool) (broadcast : Bool) where
  scan_hostlist-Ends :
      (alias : Bytes → Result Found)
      → ((name : Bytes) → Ends (alias name))
      → (hs : List HostEntry) → Ends (scan_hostlist is_local broadcast alias hs)
  unfolding scan_hostlist
  scan_hostlist-Ends alias g [] = (_, refl)
  scan_hostlist-Ends alias g (host_alias name ∷ hs) =
      >>=-Ends (alias name) _ (g name) (λ f. also-Ends f _ (scan_hostlist-Ends alias g hs))
  scan_hostlist-Ends alias g (host_address a ∷ hs) =
      also-Ends (host_found is_local broadcast a) _ (scan_hostlist-Ends alias g hs)
  scan_hostlist-Ends alias g (host_broadcast ∷ hs) =
      also-Ends (false, if broadcast then broadcast_string ∷ [] else []) _
        (scan_hostlist-Ends alias g hs)
  scan_hostlist-Ends alias g (host_chooser ∷ hs) = scan_hostlist-Ends alias g hs
  scan_hostlist-Ends alias g (host_nobroadcast ∷ hs) = scan_hostlist-Ends alias g hs
  scan_hostlist-Ends alias g (host_anyaddr ∷ hs) = scan_hostlist-Ends alias g hs

  alias_matches-Ends :
      (name : Bytes) (k : DisplayKind)
      → IsReadable k
      → Ends (alias_matches is_local broadcast name k)
  alias_matches-Ends name (display_alias own) r =
      let (b, e, io) = pattern_match-Glob name own r in (b, e)
  alias_matches-Ends name (display_pattern p) r = (_, refl)
  alias_matches-Ends name (display_address a t) r = (_, refl)
  alias_matches-Ends name display_listen r = (_, refl)

  when-Ends : (b : Bool) (r : Result Found) → Ends r → Ends (when is_local broadcast b r)
  when-Ends true r e = e
  when-Ends false r e = (_, refl)

  walk_aliases-Ends :
      (alias : Bytes → Result Found) (name : Bytes)
      → ((n : Bytes) → Ends (alias n))
      → (ds : List DisplayEntry) → AreReadable ds
      → Ends (walk_aliases is_local broadcast alias name ds)
  unfolding walk_aliases
  walk_aliases-Ends alias name g [] r = (_, refl)
  walk_aliases-Ends alias name g (d ∷ ds) r =
      >>=-Ends (alias_matches is_local broadcast name d.kind) _ (alias_matches-Ends name d.kind r.0)
        (λ b.
          >>=-Ends (when is_local broadcast b (scan_hostlist is_local broadcast alias d.hosts)) _
            (when-Ends b _ (scan_hostlist-Ends alias g d.hosts))
            (λ f. also-Ends f _ (walk_aliases-Ends alias name g ds r.1)))

  indirect_alias-Ends :
      (left : ℕ) (database : List DisplayEntry)
      → AreReadable database
      → (name : Bytes) → Ends (indirect_alias is_local broadcast left database name)
  unfolding indirect_alias
  indirect_alias-Ends zero database r name = (_, refl)
  indirect_alias-Ends (suc left) database r name =
      walk_aliases-Ends (indirect_alias is_local broadcast left database) name
        (indirect_alias-Ends left database r) database r

applies-Ends :
    (client_name client : Bytes) (t : ℕ) (k : DisplayKind)
    → IsReadable k
    → Ends (applies client_name client t k)
applies-Ends client_name client t (display_alias own) r = (_, refl)
applies-Ends client_name client t (display_pattern p) r =
    let (b, e, io) = pattern_match-Glob client_name p r in (b, e)
applies-Ends client_name client t (display_address a t') r = (_, refl)
applies-Ends client_name client t display_listen r = (_, refl)

if_applies-Ends :
    (d : Option DisplayEntry) (r : Result (Option DisplayEntry)) (b : Bool)
    → Ends r
    → Ends (if_applies d r b)
if_applies-Ends d r true e = (_, refl)
if_applies-Ends d r false e = e

first_hosted-Ends :
    (client_name client : Bytes) (t : ℕ) (ds : List DisplayEntry)
    → AreReadable ds
    → Ends (first_hosted client_name client t ds)
unfolding first_hosted
first_hosted-Ends client_name client t [] r = (_, refl)
first_hosted-Ends client_name client t (d ∷ ds) r =
    >>=-Ends (applies client_name client t d.kind) _ (applies-Ends client_name client t d.kind r.0)
      (λ b.
        if_applies-Ends (some d) _ (b && has_hosts d)
          (first_hosted-Ends client_name client t ds r.1))

-- However the aliases of the access file name each other, in circles even, the hosts for an indirect
-- query are found in finite time and without a read outside a pattern, when no pattern has `*` before
-- `*` or ends in `\`.
pub for_each_matching_indirect_host-Ends :
    (is_local : Bytes → Bool) (choice : Option Bytes) (database : List DisplayEntry)
    (client_name client : Bytes) (t : ℕ)
    → AreReadable database
    → (found : Found) × (for_each_matching_indirect_host is_local choice database client_name client
          t
        ≡ ok found)
unfolding for_each_matching_indirect_host
for_each_matching_indirect_host-Ends is_local choice database client_name client t r =
    >>=-Ends (first_hosted client_name client t database) (offer is_local choice database)
      (first_hosted-Ends client_name client t database r) by_entry
  where
    by_entry : (d : Option DisplayEntry) → Ends (offer is_local choice database d)
    by_entry none = (_, refl)
    by_entry (some d) = elim (Bool-cases d.not_allowed) [
      | inl y ↦ rw y (_, refl)
      | inr n ↦ elim (Bool-cases d.chooser) [
        | inl c ↦ rw (n, c) (_, refl)
        | inr m ↦
            rw (n, m)
              (scan_hostlist-Ends is_local false (indirect_alias is_local false max_depth database)
                (indirect_alias-Ends is_local false max_depth database r) d.hosts)
      ]
    ]
