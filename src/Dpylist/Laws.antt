-- ===== src/Dpylist/Laws.antt =====
-- The list of displays as a store: what a pointer shows after an assignment, a removal, a creation.
use mathlib.Core.Path.{subst}
use xdm.Base.{
  some_eq, ==_refl, ℕ, ◌+◌, ◌<◌, Bool, false, List, [], ◌∷◌, ◌==◌, if◌then◌else◌, Option, none,
  some, find?, ◌≡◌, ◌≢◌, refl, arith, All, inl, inr, Bool-cases, ==_iff,
}
use xdm.Display.{Display}
use xdm.Dpylist.{update_list, remove_list}

-- The display that a pointer shows, in a list.
abbrev pub at_addr : ℕ → List Display → Option Display
at_addr a ds = find? (λ d. d.addr == a) ds

-- The newest display stands first, and every pointer is below `n`: the heap hands out pointers in
-- increasing order.
abbrev pub IsOrdered : ℕ → List Display → Type 0
IsOrdered n [] = Unit
IsOrdered n (d ∷ ds) = (d.addr < n) × IsOrdered d.addr ds

pub at_addr-none : (a n : ℕ) (ds : List Display) → IsOrdered n ds → n < a + 1 → at_addr a ds ≡ none
at_addr-none a n [] h lt = refl
at_addr-none a n (d ∷ ds) (p, q) lt = ground (arith, at_addr-none a d.addr ds q)

pub IsOrdered-mono : (m n : ℕ) (ds : List Display) → m < n + 1 → IsOrdered m ds → IsOrdered n ds
IsOrdered-mono m n [] h o = tt
IsOrdered-mono m n (d ∷ ds) h (p, q) = (omega arith, q)

module _ (f : Display → Display) (keeps : (d : Display) → (f d).addr ≡ d.addr) where
  pub at_addr-update :
      (a b : ℕ) (ds : List Display)
      → at_addr b (update_list a f ds) ≡ (
          if a == b
          then elim (at_addr b ds) [ none ↦ none | some d ↦ some (f d) ]
          else at_addr b ds)
  at_addr-update a b [] = ground arith
  at_addr-update a b (d ∷ ds) = ground (arith, keeps d, at_addr-update a b ds)

  pub update_list-IsOrdered :
      (a n : ℕ) (ds : List Display) → IsOrdered n ds → IsOrdered n (update_list a f ds)
  update_list-IsOrdered a n [] o = tt
  update_list-IsOrdered a n (d ∷ ds) (p, q) = elim (Bool-cases (d.addr == a)) [
    | inl e ↦ rw (e, keeps d) (p, q)
    | inr e ↦ rw e (p, update_list-IsOrdered a d.addr ds q)
  ]

pub at_addr-remove_self :
    (a n : ℕ) (ds : List Display) → IsOrdered n ds → at_addr a (remove_list a ds) ≡ none
at_addr-remove_self a n [] o = refl
at_addr-remove_self a n (d ∷ ds) (p, q) =
    ground (arith, at_addr-none a d.addr ds q, at_addr-remove_self a d.addr ds q)

pub at_addr-remove_ne :
    (a b : ℕ) (ds : List Display) → a ≢ b → at_addr b (remove_list a ds) ≡ at_addr b ds
at_addr-remove_ne a b [] h = refl
at_addr-remove_ne a b (d ∷ ds) h = ground (arith, at_addr-remove_ne a b ds h)

pub remove_list-IsOrdered :
    (a n : ℕ) (ds : List Display) → IsOrdered n ds → IsOrdered n (remove_list a ds)
remove_list-IsOrdered a n [] o = tt
remove_list-IsOrdered a n (d ∷ ds) (p, q) = elim (Bool-cases (d.addr == a)) [
  | inl e ↦ rw e (IsOrdered-mono d.addr n ds (omega arith) q)
  | inr e ↦ rw e (p, remove_list-IsOrdered a d.addr ds q)
]

module _ {ℓ} (P : Display → Type ℓ) where
  pub update_list-All :
      (f : Display → Display) (a : ℕ) (ds : List Display)
      → ((d : Display) → at_addr a ds ≡ some d → P (f d))
      → All P ds
      → All P (update_list a f ds)
  update_list-All f a [] h p = p
  update_list-All f a (d ∷ ds) h (p, q) = elim (Bool-cases (d.addr == a)) [
    | inl e ↦ rw e (h d (rw e), q)
    | inr e ↦ rw e (p, update_list-All f a ds (λ x m. h x (rw e m)) q)
  ]

  pub remove_list-All : (a : ℕ) (ds : List Display) → All P ds → All P (remove_list a ds)
  remove_list-All a [] p = p
  remove_list-All a (d ∷ ds) (p, q) = elim (Bool-cases (d.addr == a)) [
    | inl e ↦ rw e q
    | inr e ↦ rw e (p, remove_list-All a ds q)
  ]

-- What a search finds is below the heap's next pointer, and stands at its own pointer.
pub find?-below :
    (p : Display → Bool) (n : ℕ) (ds : List Display) {d : Display}
    → IsOrdered n ds
    → find? p ds ≡ some d
    → d.addr < n
find?-below p n [] o e = cc
find?-below p n (x ∷ ds) {d} (lt, o) e = elim (Bool-cases (p x)) [
  | inl y ↦ let q : x ≡ d = some_eq (rw y at e) in rw (← q) lt
  | inr other ↦ let below = find?-below p x.addr ds o (rw other at e) in omega arith
]

pub find?-at_addr :
    (p : Display → Bool) (n : ℕ) (ds : List Display) {d : Display}
    → IsOrdered n ds
    → find? p ds ≡ some d
    → at_addr d.addr ds ≡ some d
find?-at_addr p n [] o e = cc
find?-at_addr p n (x ∷ ds) {d} (lt, o) e = elim (Bool-cases (p x)) [
  | inl y ↦
      subst (λ z. at_addr z.addr (x ∷ ds) ≡ some z) (some_eq (rw y at e)) (rw (==_refl x.addr))
  | inr other ↦
      let below = find?-below p x.addr ds o (rw other at e) in
      let ne : (x.addr == d.addr) ≡ false = ground arith in
      rw ne (find?-at_addr p x.addr ds o (rw other at e))
]

-- The display that a pointer shows has that pointer.
pub at_addr-addr : (a : ℕ) (ds : List Display) {d : Display} → at_addr a ds ≡ some d → d.addr ≡ a
at_addr-addr a [] e = cc
at_addr-addr a (x ∷ ds) {d} e = elim (Bool-cases (x.addr == a)) [
  | inl y ↦ subst (λ z. z.addr ≡ a) (some_eq (rw y at e)) ((==_iff x.addr a).0 y)
  | inr other ↦ at_addr-addr a ds (rw other at e)
]
