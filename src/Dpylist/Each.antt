-- ===== src/Dpylist/Each.antt =====
-- What every step of a walk over the list keeps, the walk keeps.
use xdm.Base.{
  ℕ, Bool, true, false, if◌then◌else◌, List, [], ◌∷◌, Option-cases, none, some, ◌≡◌, inl, inr,
}
use mathlib.Core.Path.{subst}
use xdm.Base.Result.{Result, ok, fault, use_after_free, ok_eq, fault_ne, >>=-eq-ok}
use xdm.Display.{Display, Daemon}
use xdm.Dpylist.{for_each, for_each_display, until, until_display, deref}
use xdm.Dpylist.Laws.{at_addr}

-- A step that, where it ends, leaves the predicate true.
abbrev pub Keeps : (Daemon → Type 0) → (Daemon → Result Daemon) → Type 0
Keeps P f = (w w' : Daemon) → P w → f w ≡ ok w' → P w'

pub deref-none :
    (a : ℕ) (w : Daemon) → at_addr a w.displays ≡ none → deref a w ≡ fault use_after_free
unfolding deref
deref-none a w n = rw (n, deref)

pub deref-at_addr :
    (a : ℕ) (w : Daemon) {d : Display} → deref a w ≡ ok d → at_addr a w.displays ≡ some d
unfolding deref
deref-at_addr a w {d} e = elim (Option-cases (at_addr a w.displays)) [
  | inl n ↦ absurd (fault_ne (rw (n, deref) at e))
  | inr (x, q) ↦ subst (λ y. at_addr a w.displays ≡ some y) (ok_eq (rw (q, deref) at e)) q
]

for_each-Keeps :
    (P : Daemon → Type 0) (f : ℕ → Daemon → Result Daemon)
    → ((a : ℕ) → Keeps P (f a))
    → (pointers : List ℕ) → Keeps P (for_each pointers f)
unfolding for_each
for_each-Keeps P f k [] w w' p e = subst P (ok_eq e) p
for_each-Keeps P f k (a ∷ rest) w w' p e =
    let (w1, e1, e2) = >>=-eq-ok (f a w) (for_each rest f) e in
    for_each-Keeps P f k rest w1 w' (k a w w1 p e1) e2

pub for_each_display-Keeps :
    (P : Daemon → Type 0) (f : ℕ → Daemon → Result Daemon)
    → ((a : ℕ) → Keeps P (f a))
    → Keeps P (for_each_display f)
unfolding for_each_display
for_each_display-Keeps P f k w w' p e = for_each-Keeps P f k _ w w' p e

until-Keeps :
    (P : Daemon → Type 0) (f : ℕ → Daemon → Result (Bool × Daemon))
    → ((a : ℕ) (w : Daemon) (r : Bool × Daemon) → P w → f a w ≡ ok r → P r.1)
    → (pointers : List ℕ) (w : Daemon) (r : Bool × Daemon) → P w
    → until pointers f w ≡ ok r
    → P r.1
unfolding until
until-Keeps P f k [] w r p e = subst (λ (x : Bool × Daemon). P x.1) (ok_eq e) p
until-Keeps P f k (a ∷ rest) w r p e =
    let (r1, e1, e2) = >>=-eq-ok (f a w) _ e in
    by_answer (λ w1 q f. until-Keeps P _ k rest w1 r q f) r1.0 r1.1 (k a w r1 p e1) e2
  where
    by_answer :
        ((w1 : Daemon) → P w1 → until rest f w1 ≡ ok r → P r.1)
        → (b : Bool) (w1 : Daemon) → P w1
        → (if b then ok (true, w1) else until rest f w1) ≡ ok r
        → P r.1
    by_answer ih true w1 q e = subst (λ (x : Bool × Daemon). P x.1) (ok_eq e) q
    by_answer ih false w1 q e = ih w1 q e

-- ForEachDisplay, when a step says that it is enough.
pub until_display-Keeps :
    (P : Daemon → Type 0) (f : ℕ → Daemon → Result (Bool × Daemon))
    → ((a : ℕ) (w : Daemon) (r : Bool × Daemon) → P w → f a w ≡ ok r → P r.1)
    → (w : Daemon) (r : Bool × Daemon) → P w
    → until_display f w ≡ ok r
    → P r.1
unfolding until_display
until_display-Keeps P f k w r p e = until-Keeps P f k _ w r p e
