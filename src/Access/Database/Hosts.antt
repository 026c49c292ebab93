-- ===== src/Access/Database/Hosts.antt =====
-- What hosts the access file offers, and that its aliases are followed to an end.
use xdm.Base.{
  ◌&&◌, none_ne, some_eq, ℕ, zero, suc, Bool, true, false, ◌||◌, List, [], ◌∷◌, ◌++◌, if◌then◌else◌,
  Option, none, some, Bytes, All, ◌≡◌, inl, inr, refl, arith, Bool-cases,
}
use xdm.Base.Result.{Result, ok, ◌>>=◌, >>=-eq-ok, ok_eq}
use mathlib.Core.Path.{subst}
use xdm.Access.Database.{
  HostEntry, host_alias, host_address, host_broadcast, host_chooser, host_nobroadcast, host_anyaddr,
  DisplayEntry, Found, also, broadcast_string, host_found, scan_hostlist, alias_matches, when,
  walk_aliases, indirect_alias, max_depth, offer_choice, offer, first_hosted, has_hosts, applies,
  if_applies, for_each_matching_indirect_host,
}

-- Every address among the hosts has the property.
abbrev pub IsHost : (Bytes → Type 0) → HostEntry → Type 0
IsHost P (host_address a) = P a
IsHost P _ = Unit

abbrev pub AreHosts : (Bytes → Type 0) → List DisplayEntry → Type 0
AreHosts P database = All (λ (d : DisplayEntry). All (IsHost P) d.hosts) database

-- The callback's calls, if the search ends, all have the property.
abbrev Gives : (Bytes → Type 0) → Result Found → Type 0
Gives P r = (b : Bool) → (calls : List Bytes) → r ≡ ok (b, calls) → All P calls

All-append : (P : Bytes → Type 0) (xs ys : List Bytes) → All P xs → All P ys → All P (xs ++ ys)
All-append P [] ys p q = q
All-append P (x ∷ xs) ys p q = (p.0, All-append P xs ys p.1 q)

module _ (P : Bytes → Type 0) where
  ok-Gives : (f : Found) → All P f.1 → Gives P (ok f)
  ok-Gives f p b calls e = subst (λ (g : Found). All P g.1) (ok_eq e) p

  also-Gives : (f : Found) (r : Result Found) → All P f.1 → Gives P r → Gives P (also f r)
  also-Gives (b, cs) r p g b' calls e =
      let (f', e1, e2) = >>=-eq-ok r (λ (f' : Found). ok (b || f'.0, cs ++ f'.1)) e in
      subst (λ (h : Found). All P h.1) (ok_eq e2) (All-append P cs f'.1 p (g f'.0 f'.1 e1))

  bind-Gives :
      {A : Type 0} (m : Result A) (f : A → Result Found)
      → ((a : A) → m ≡ ok a → Gives P (f a))
      → Gives P (m >>= f)
  bind-Gives m f g b calls e = let (a, e1, e2) = >>=-eq-ok m f e in g a e1 b calls e2

  module _ (is_local : Bytes → Bool) (broadcast : Bool) where
    host_found-All : (a : Bytes) → P a → All P (host_found is_local broadcast a).1
    host_found-All a p = elim (Bool-cases (is_local a)) [ inl y ↦ rw y tt | inr n ↦ rw n (p, tt) ]

    scan_hostlist-Gives :
        (alias : Bytes → Result Found)
        → (broadcast ≡ true → P broadcast_string)
        → ((name : Bytes) → Gives P (alias name))
        → (hs : List HostEntry) → All (IsHost P) hs
        → Gives P (scan_hostlist is_local broadcast alias hs)
    unfolding scan_hostlist
    scan_hostlist-Gives alias pb g [] h = ok-Gives (false, []) tt
    scan_hostlist-Gives alias pb g (host_alias name ∷ hs) h =
        bind-Gives (alias name) _
          (λ f e. also-Gives f _ (g name f.0 f.1 e) (scan_hostlist-Gives alias pb g hs h.1))
    scan_hostlist-Gives alias pb g (host_address a ∷ hs) h =
        also-Gives (host_found is_local broadcast a) _ (host_found-All a h.0)
          (scan_hostlist-Gives alias pb g hs h.1)
    scan_hostlist-Gives alias pb g (host_broadcast ∷ hs) h =
        also-Gives (false, if broadcast then broadcast_string ∷ [] else []) _ (told broadcast pb)
          (scan_hostlist-Gives alias pb g hs h.1)
      where
        told :
            (b : Bool)
            → (b ≡ true → P broadcast_string)
            → All P (if b then broadcast_string ∷ [] else [])
        told true p = (p refl, tt)
        told false p = tt
    scan_hostlist-Gives alias pb g (host_chooser ∷ hs) h = scan_hostlist-Gives alias pb g hs h.1
    scan_hostlist-Gives alias pb g (host_nobroadcast ∷ hs) h = scan_hostlist-Gives alias pb g hs h.1
    scan_hostlist-Gives alias pb g (host_anyaddr ∷ hs) h = scan_hostlist-Gives alias pb g hs h.1

    when-Gives : (b : Bool) (r : Result Found) → Gives P r → Gives P (when is_local broadcast b r)
    when-Gives true r g = g
    when-Gives false r g = ok-Gives (false, []) tt

    walk_aliases-Gives :
        (alias : Bytes → Result Found) (name : Bytes)
        → (broadcast ≡ true → P broadcast_string)
        → ((n : Bytes) → Gives P (alias n))
        → (ds : List DisplayEntry) → AreHosts P ds
        → Gives P (walk_aliases is_local broadcast alias name ds)
    unfolding walk_aliases
    walk_aliases-Gives alias name pb g [] h = ok-Gives (false, []) tt
    walk_aliases-Gives alias name pb g (d ∷ ds) h =
        bind-Gives (alias_matches is_local broadcast name d.kind) _ (λ b e.
          bind-Gives (when is_local broadcast b (scan_hostlist is_local broadcast alias d.hosts)) _
            (λ f e'.
              also-Gives f _
                (when-Gives b _ (scan_hostlist-Gives alias pb g d.hosts h.0) f.0 f.1 e')
                (walk_aliases-Gives alias name pb g ds h.1)))

    indirect_alias-Gives :
        (left : ℕ) (database : List DisplayEntry)
        → (broadcast ≡ true → P broadcast_string)
        → AreHosts P database
        → (name : Bytes) → Gives P (indirect_alias is_local broadcast left database name)
    unfolding indirect_alias
    indirect_alias-Gives zero database pb h name = ok-Gives (false, []) tt
    indirect_alias-Gives (suc left) database pb h name =
        walk_aliases-Gives (indirect_alias is_local broadcast left database) name pb
          (indirect_alias-Gives left database pb h) database h

if-Gives :
    (P : Bytes → Type 0) (x : Bool) {r s : Result Found}
    → Gives P r
    → Gives P s
    → Gives P (if x then r else s)
if-Gives P true p q = p
if-Gives P false p q = q

true_ne : false ≡ true → ⊥
true_ne q = ground arith

-- The entry that is found is a member of the database.
first_hosted-All :
    (Q : DisplayEntry → Type 0) (client_name client : Bytes) (t : ℕ) (ds : List DisplayEntry)
    {d : DisplayEntry}
    → All Q ds
    → first_hosted client_name client t ds ≡ ok (some d)
    → Q d
unfolding first_hosted
first_hosted-All Q client_name client t [] h e = absurd (none_ne (ok_eq e))
first_hosted-All Q client_name client t (x ∷ ds) {d} (q, h) e =
    let (b, e1, e2) =
      >>=-eq-ok (applies client_name client t x.kind)
        (λ b. if_applies (some x) (first_hosted client_name client t ds) (b && has_hosts x)) e in
    by_test (b && has_hosts x) e2 (λ e3. first_hosted-All Q client_name client t ds h e3)
  where
    by_test :
        (b : Bool)
        → if_applies (some x) (first_hosted client_name client t ds) b ≡ ok (some d)
        → (first_hosted client_name client t ds ≡ ok (some d) → Q d)
        → Q d
    by_test true e2 ih = subst Q (some_eq (ok_eq e2)) q
    by_test false e2 ih = ih e2

-- The property holds of what the client has chosen.
abbrev pub IsChoice : (Bytes → Type 0) → Option Bytes → Type 0
IsChoice P none = Unit
IsChoice P (some c) = P c

-- Whatever property the hosts of the access file and the client's earlier choice have, every host that
-- an indirect query is forwarded to has it: no other address, and no broadcast, is ever offered.
pub for_each_matching_indirect_host-All :
    (P : Bytes → Type 0) (is_local : Bytes → Bool) (choice : Option Bytes)
    (database : List DisplayEntry) (client_name client : Bytes) (t : ℕ) (b : Bool)
    (calls : List Bytes)
    → AreHosts P database
    → IsChoice P choice
    → for_each_matching_indirect_host is_local choice database client_name client t ≡ ok (b, calls)
    → All P calls
unfolding for_each_matching_indirect_host
for_each_matching_indirect_host-All P is_local choice database client_name client t b calls h c e =
    bind-Gives P (first_hosted client_name client t database) (offer is_local choice database)
      (λ d e1. by_entry d e1) b calls e
  where
    by_choice : (o : Option Bytes) → IsChoice P o → All P (offer_choice is_local o).1
    by_choice none p = tt
    by_choice (some x) p = host_found-All P is_local true x p

    by_entry :
        (d : Option DisplayEntry)
        → first_hosted client_name client t database ≡ ok d
        → Gives P (offer is_local choice database d)
    by_entry none e1 = ok-Gives P (false, []) tt
    by_entry (some d) e1 = if-Gives P d.not_allowed (ok-Gives P (false, []) tt) (
        if-Gives P d.chooser (ok-Gives P (offer_choice is_local choice) (by_choice choice c)) (
          scan_hostlist-Gives P is_local false (indirect_alias is_local false max_depth database)
            (λ q. absurd (true_ne q))
            (indirect_alias-Gives P is_local false max_depth database (λ q. absurd (true_ne q)) h)
            d.hosts
            (first_hosted-All (λ x. All (IsHost P) x.hosts) client_name client t database h e1)))
