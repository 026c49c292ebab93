-- ===== src/Auth/Covers.antt =====
-- The order in which SetUserAuthorization writes does not matter to what is compared.
use mathlib.Core.List.{append-nil}
use xdm.Base.{
  Bool, ◌||◌, List, [], ◌∷◌, ◌++◌, Bytes, codes, equal, ◌≡◌, refl, sym, ap, ◌∙◌, arith, Bool-cases,
  Option-cases, inl, inr,
}
use xdm.Base.Result.{ok, ok_eq}
use xdm.Auth.{
  Entry, same_entry, check_entry, place_entry, Place, Owner, places, behind_colon, set_auth_number,
  is_cookie, first_cookie, other_auths, without_kerberos, hide_kerberos,
}
use xdm.Auth.Written.{entries_at, entries_of, entries_of-cons, entries_of-parts}

-- Whether an entry has its place in a list only depends on what stands in it.
pub check_entry-append :
    (x : Entry) (a b : List Entry) → check_entry x (a ++ b) ≡ (check_entry x a || check_entry x b)
check_entry-append x [] b = refl
check_entry-append x (e ∷ a) b = ground (arith, check_entry-append x a b)

-- Hiding the data of Kerberos changes no place and nothing that is compared.
without_kerberos-places : (o : Owner) (e : Entry) → places o (without_kerberos e) ≡ places o e
unfolding places
without_kerberos-places o e = elim (Bool-cases (equal e.name (codes "MIT-KERBEROS-5"))) [
  | inl y ↦ rw y refl
  | inr n ↦ rw n refl
]

set_auth_number-same :
    (name : Bytes) (e x : Entry) (p : Place)
    → same_entry x (place_entry (set_auth_number name (record e { data_bytes = [] })) p)
      ≡ same_entry x (place_entry (set_auth_number name e) p)
unfolding set_auth_number
set_auth_number-same name e x p = elim (Option-cases (behind_colon name)) [
  | inl n ↦ rw (n, set_auth_number) refl
  | inr (s, q) ↦ rw (q, set_auth_number) refl
]

entries_at-same :
    (name : Bytes) (e x : Entry) (ps : List Place)
    → check_entry x (entries_at (set_auth_number name (record e { data_bytes = [] })) ps)
      ≡ check_entry x (entries_at (set_auth_number name e) ps)
entries_at-same name e x [] = refl
entries_at-same name e x (p ∷ ps) =
    rw (set_auth_number-same name e x p, entries_at-same name e x ps) refl

without_kerberos-check_entry :
    (name : Bytes) (e x : Entry) (ps : List Place)
    → check_entry x (entries_at (set_auth_number name (without_kerberos e)) ps)
      ≡ check_entry x (entries_at (set_auth_number name e) ps)
without_kerberos-check_entry name e x ps =
    elim (Bool-cases (equal e.name (codes "MIT-KERBEROS-5"))) [
      | inl y ↦ rw y (entries_at-same name e x ps)
      | inr n ↦ rw n refl
    ]

-- The entries of the authorizations as SetUserAuthorization orders them name the same places.
pub record Covers (o : Owner) (es : List Entry) (covered : Entry → Bool) : Type 0 where
  pub entries : List Entry
  pub found : entries_of o es ≡ ok entries
  pub same : (x : Entry) → check_entry x entries ≡ covered x

module _ (o : Owner) where
  -- One authorization more in front.
  Covers-cons :
      (e : Entry) (es : List Entry) (ps : List Place) (covered : Entry → Bool)
      → places o e ≡ ok ps
      → Covers o es covered
      → Covers o
          (e ∷ es)
          (λ x. check_entry x (entries_at (set_auth_number o.display_name e) ps) || covered x)
  Covers-cons e es ps covered p c = record {
    entries = entries_at (set_auth_number o.display_name e) ps ++ c.entries;
    found = entries_of-cons o e es ps c.entries p c.found;
    same = λ x.
        check_entry-append x (entries_at (set_auth_number o.display_name e) ps) c.entries
        ∙ ap (λ b. check_entry x (entries_at (set_auth_number o.display_name e) ps) || b)
            (c.same x);
  }

  Covers-ext :
      (es : List Entry) (f g : Entry → Bool)
      → ((x : Entry) → f x ≡ g x)
      → Covers o es f
      → Covers o es g
  Covers-ext es f g h c = record {
    entries = c.entries;
    found = c.found;
    same = λ x. c.same x ∙ h x;
  }

  hide_kerberos-Covers :
      (es ms : List Entry)
      → entries_of o (hide_kerberos es) ≡ ok ms
      → Covers o es (λ x. check_entry x ms)
  hide_kerberos-Covers [] ms q = record { entries = ms; found = q; same = λ x. refl }
  hide_kerberos-Covers (e ∷ es) ms q =
      let (ps, rest, p, r, m) = entries_of-parts o (without_kerberos e) (hide_kerberos es) ms q in
      let hidden = entries_at (set_auth_number o.display_name (without_kerberos e)) ps in
      Covers-ext (e ∷ es) _ (λ x. check_entry x ms)
        (λ x.
          ap (λ b. b || check_entry x rest)
            (sym (without_kerberos-check_entry o.display_name e x ps))
          ∙ (sym (check_entry-append x hidden rest) ∙ ap (check_entry x) (sym m)))
        (Covers-cons e es ps (λ x. check_entry x rest) (sym (without_kerberos-places o e) ∙ p)
          (hide_kerberos-Covers es rest r))

  or_swap : (a b c : Bool) → (b || (a || c)) ≡ (a || (b || c))
  or_swap a b c = ground arith

  pub cookie_first-Covers :
      (auths a b : List Entry)
      → entries_of o (first_cookie auths) ≡ ok a
      → entries_of o (hide_kerberos (other_auths auths)) ≡ ok b
      → Covers o auths (λ x. check_entry x a || check_entry x b)
  cookie_first-Covers [] a b p q = record {
    entries = [];
    found = refl;
    same = λ x. rw (sym (ok_eq p), sym (ok_eq q)) refl;
  }
  cookie_first-Covers (e ∷ auths) a b p q = elim (Bool-cases (is_cookie e)) [
    | inl y ↦ by_cookie (rw y at p) (rw y at q)
    | inr n ↦
        by_other (rw n at p) (rw n at q) (λ b' q'. cookie_first-Covers auths a b' (rw n at p) q')
  ]
    where
      by_cookie :
          entries_of o (e ∷ []) ≡ ok a
          → entries_of o (hide_kerberos auths) ≡ ok b
          → Covers o (e ∷ auths) (λ x. check_entry x a || check_entry x b)
      by_cookie p q =
          let (ps, rest, f, r, m) = entries_of-parts o e [] a p in
          let mine = entries_at (set_auth_number o.display_name e) ps in
          let whole : a ≡ mine = m ∙ (ap (λ l. mine ++ l) (sym (ok_eq r)) ∙ append-nil mine) in
          Covers-ext (e ∷ auths) _ _ (λ x. ap (λ l. check_entry x l || check_entry x b) (sym whole))
            (Covers-cons e auths ps (λ x. check_entry x b) f (hide_kerberos-Covers auths b q))

      by_other :
          entries_of o (first_cookie auths) ≡ ok a
          → entries_of o (without_kerberos e ∷ hide_kerberos (other_auths auths)) ≡ ok b
          → ((b' : List Entry)
              → entries_of o (hide_kerberos (other_auths auths)) ≡ ok b'
              → Covers o auths (λ x. check_entry x a || check_entry x b'))
          → Covers o (e ∷ auths) (λ x. check_entry x a || check_entry x b)
      by_other p q ih =
          let (ps, rest, f, r, m) =
            entries_of-parts o (without_kerberos e) (hide_kerberos (other_auths auths)) b q in
          let mine = entries_at (set_auth_number o.display_name e) ps in
          let hidden = entries_at (set_auth_number o.display_name (without_kerberos e)) ps in
          Covers-ext (e ∷ auths) _ _
            (λ x.
              or_swap (check_entry x a) (check_entry x mine) (check_entry x rest)
              ∙ ap (λ c. check_entry x a || c)
                  (ap (λ c. c || check_entry x rest)
                      (sym (without_kerberos-check_entry o.display_name e x ps))
                    ∙ (sym (check_entry-append x hidden rest) ∙ ap (check_entry x) (sym m))))
            (Covers-cons e auths ps (λ x. check_entry x a || check_entry x rest)
              (sym (without_kerberos-places o e) ∙ f) (ih rest r))
