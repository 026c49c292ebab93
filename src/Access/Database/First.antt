-- ===== src/Access/Database/First.antt =====
-- Which entry of the access file decides on a client.
use mathlib.Core.Path.{subst}
use xdm.Base.{
  ℕ, Bool, true, false, not, ◌&&◌, List, [], ◌∷◌, ◌++◌, if◌then◌else◌, Option, none, some, Bytes,
  All, ◌≡◌, ◌⊎◌, inl, inr, refl, ap, arith, Bool-cases, some_eq, none_ne,
}
use xdm.Base.Result.{ok, ok_eq, >>=-eq-ok}
use xdm.Wire.{Opcode}
use xdm.Access.Database.{
  DisplayEntry, applies, first_entry, if_applies, no_hosts, may_query, is_indirect_query,
  is_broadcast_query, acceptable_display_address,
}

allowed : (a b c : Bool) → (not a && (if b then not c else true)) ≡ true → (b ≡ false) ⊎ (c ≡ false)
allowed a true true h = ground arith
allowed a true false h = inr refl
allowed a false c h = inl refl

-- A client, with the name that NetworkAddressToHostname gives it.
module _ (client_name client : Bytes) (t : ℕ) where
  -- The loop goes on behind this entry.
  abbrev pub IsPassed : (DisplayEntry → Bool) → DisplayEntry → Type 0
  IsPassed wanted d = (wanted d ≡ false) ⊎ (applies client_name client t d.kind ≡ ok false)

  -- The entry is the first of the database that is wanted and applies.
  pub record IsFirst (wanted : DisplayEntry → Bool) (database : List DisplayEntry)
      (e : DisplayEntry) : Type 0 where
    pub before : List DisplayEntry
    pub after : List DisplayEntry
    pub split : database ≡ before ++ e ∷ after
    pub passed : All (IsPassed wanted) before
    pub is_wanted : wanted e ≡ true
    pub applying : applies client_name client t e.kind ≡ ok true

  later :
      (wanted : DisplayEntry → Bool) (d : DisplayEntry) {ds : List DisplayEntry} {e : DisplayEntry}
      → IsPassed wanted d
      → IsFirst wanted ds e
      → IsFirst wanted (d ∷ ds) e
  later wanted d p f = record {
    before = d ∷ f.before;
    after = f.after;
    split = ap (λ x. d ∷ x) f.split;
    passed = (p, f.passed);
    is_wanted = f.is_wanted;
    applying = f.applying;
  }

  pub first_entry-IsFirst :
      (wanted : DisplayEntry → Bool) (ds : List DisplayEntry) {e : DisplayEntry}
      → first_entry wanted client_name client t ds ≡ ok (some e)
      → IsFirst wanted ds e
  unfolding first_entry
  first_entry-IsFirst wanted [] q = absurd (none_ne (ok_eq q))
  first_entry-IsFirst wanted (d ∷ ds) {e} q = elim (Bool-cases (wanted d)) [
    | inl y ↦
        let (b, e1, e2) =
          >>=-eq-ok (applies client_name client t d.kind)
            (if_applies (some d) (first_entry wanted client_name client t ds)) (rw y at q) in
        by_test y b e1 e2 (λ q'. first_entry-IsFirst wanted ds q')
    | inr n ↦ later wanted d (inl n) (first_entry-IsFirst wanted ds (rw n at q))
  ]
    where
      by_test :
          wanted d ≡ true
          → (b : Bool) → applies client_name client t d.kind ≡ ok b
          → if_applies (some d) (first_entry wanted client_name client t ds) b ≡ ok (some e)
          → (first_entry wanted client_name client t ds ≡ ok (some e) → IsFirst wanted ds e)
          → IsFirst wanted (d ∷ ds) e
      by_test y true e1 e2 ih = subst (IsFirst wanted (d ∷ ds)) (some_eq (ok_eq e2)) (record {
        before = [];
        after = ds;
        split = refl;
        passed = tt;
        is_wanted = y;
        applying = e1;
      })
      by_test y false e1 e2 ih = later wanted d (inr e1) (ih e2)

  pub IsFirst-first_entry :
      (wanted : DisplayEntry → Bool) (before after : List DisplayEntry) (e : DisplayEntry)
      → All (IsPassed wanted) before
      → wanted e ≡ true
      → applies client_name client t e.kind ≡ ok true
      → first_entry wanted client_name client t (before ++ e ∷ after) ≡ ok (some e)
  unfolding first_entry
  IsFirst-first_entry wanted [] after e p w h = rw (w, h) refl
  IsFirst-first_entry wanted (d ∷ before) after e (inl n, p) w h =
      rw n (IsFirst-first_entry wanted before after e p w h)
  IsFirst-first_entry wanted (d ∷ before) after e (inr f, p) w h = elim (Bool-cases (wanted d)) [
    | inl y ↦ rw (y, f) (IsFirst-first_entry wanted before after e p w h)
    | inr n ↦ rw n (IsFirst-first_entry wanted before after e p w h)
  ]

  -- A client that is admitted by a query other than an indirect one, while there is an access file, owes
  -- it to the first entry without hosts that applies to it, which is not negated and, for a broadcast
  -- query, not marked NOBROADCAST.
  pub acceptable_display_address-IsFirst :
      (database : List DisplayEntry) (type : Opcode)
      → is_indirect_query type ≡ false
      → acceptable_display_address true database client_name client t type ≡ ok true
      → (e : DisplayEntry) × IsFirst no_hosts database e
        × (e.not_allowed ≡ false)
        × ((is_broadcast_query type ≡ false) ⊎ (e.not_broadcast ≡ false))
  unfolding acceptable_display_address
  acceptable_display_address-IsFirst database type n q =
      let (d, e1, e2) =
        >>=-eq-ok (first_entry no_hosts client_name client t database) (λ d. ok (may_query type d))
          (rw n at q) in
      by_entry d e1 (ok_eq e2)
    where
      by_entry :
          (d : Option DisplayEntry)
          → first_entry no_hosts client_name client t database ≡ ok d
          → may_query type d ≡ true
          → (e : DisplayEntry) × IsFirst no_hosts database e
            × (e.not_allowed ≡ false)
            × ((is_broadcast_query type ≡ false) ⊎ (e.not_broadcast ≡ false))
      by_entry none e1 e2 = ground arith
      by_entry (some e) e1 e2 =
          (e, first_entry-IsFirst no_hosts database e1, ground arith, allowed _ _ _ e2)
