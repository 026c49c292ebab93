-- ===== src/Dpylist/Visits.antt =====
-- A walk over the list by steps that change no display but their own: it comes to its end, and each
-- display gets its step once.
use xdm.Base.{
  ℕ, ◌+◌, ◌<◌, true, false, List, [], ◌∷◌, ◌==◌, ==_refl, ==_iff, some, any, All, ◌≡◌, refl, sym,
  ◌∙◌, inl, inr, arith, Bool-cases, none_ne,
}
use xdm.Base.Result.{Result, ok}
use xdm.Display.{Display, Daemon}
use xdm.Dpylist.{addrs, for_each, for_each_display}
use xdm.Dpylist.Laws.{at_addr, at_addr-none, IsOrdered}

-- The step of the display `d` at `b` is taken from a daemon that shows it so, and what it leaves
-- there stands in the end.
pub record Visited (P : Daemon → Type 0) (f : ℕ → Daemon → Result Daemon) (b : ℕ) (d : Display)
    (last : Daemon) : Type 0 where
  pub before : Daemon
  pub after : Daemon
  pub good : P before
  pub shown : at_addr b before.displays ≡ some d
  pub taken : f b before ≡ ok after
  pub stands : at_addr b last.displays ≡ at_addr b after.displays

-- The walk comes to its end.
pub record Visits (P : Daemon → Type 0) (f : ℕ → Daemon → Result Daemon) (pointers : List ℕ)
    (w : Daemon) (r : Result Daemon) : Type 0 where
  pub last : Daemon
  pub returns : r ≡ ok last
  pub good : P last
  pub others :
      (b : ℕ) → any (λ a. a == b) pointers ≡ false → at_addr b last.displays ≡ at_addr b w.displays
  pub visited :
      (b : ℕ) (d : Display)
      → any (λ a. a == b) pointers ≡ true
      → at_addr b w.displays ≡ some d
      → Visited P f b d last

abbrev AreApart : List ℕ → Type 0
AreApart [] = Unit
AreApart (a ∷ rest) = (any (λ x. x == a) rest ≡ false) × AreApart rest

abbrev IsThere : Daemon → ℕ → Type 0
IsThere w a = (d : Display) × (at_addr a w.displays ≡ some d)

-- A step that succeeds on every display, and changes no other.
abbrev pub IsLocal : (Daemon → Type 0) → (ℕ → Daemon → Result Daemon) → Type 0
IsLocal P f =
    (a : ℕ) (w : Daemon) (d : Display)
    → P w
    → at_addr a w.displays ≡ some d
    → (w' : Daemon) × (f a w ≡ ok w')
      × P w'
      × ((b : ℕ) → (a == b) ≡ false → at_addr b w'.displays ≡ at_addr b w.displays)

All-IsThere :
    (a : ℕ) (w w' : Daemon) (rest : List ℕ)
    → ((b : ℕ) → (a == b) ≡ false → at_addr b w'.displays ≡ at_addr b w.displays)
    → any (λ x. x == a) rest ≡ false
    → All (IsThere w) rest
    → All (IsThere w') rest
All-IsThere a w w' [] o n h = tt
All-IsThere a w w' (b ∷ rest) o n ((d, e), h) =
    let split : ((a == b) ≡ false) × (any (λ x. x == a) rest ≡ false) = ground (arith, n) in
    ((d, o b split.0 ∙ e), All-IsThere a w w' rest o split.1 h)

module _ (P : Daemon → Type 0) (f : ℕ → Daemon → Result Daemon) (local : IsLocal P f) where
  for_each-Visits :
      (pointers : List ℕ) (w : Daemon)
      → P w
      → AreApart pointers
      → All (IsThere w) pointers
      → Visits P f pointers w (for_each pointers f w)
  unfolding for_each
  for_each-Visits [] w p apart there = record {
    last = w;
    returns = refl;
    good = p;
    others = λ b n. refl;
    visited = λ b d m e. absurd (ground (arith, m));
  }
  for_each-Visits (a ∷ rest) w p (n, apart) ((x, e), there) =
      let (w1, e1, p1, o1) = local a w x p e in
      let v = for_each-Visits rest w1 p1 apart (All-IsThere a w w1 rest o1 n there) in
      record {
        last = v.last;
        returns = rw e1 v.returns;
        good = v.good;
        others = λ b m.
            let split : ((a == b) ≡ false) × (any (λ y. y == b) rest ≡ false) = ground (arith, m) in
            v.others b split.1 ∙ o1 b split.0;
        visited = λ b d m q. elim (Bool-cases (a == b)) [
          | inl same ↦
              let eq = (==_iff a b).0 same in
              record {
                before = w;
                after = w1;
                good = p;
                shown = q;
                taken = rw (← eq) e1;
                stands = rw (← eq) (v.others a n);
              }
          | inr ne ↦ v.visited b d (rw ne at m) (o1 b ne ∙ q)
        ];
      }

IsOrdered-any :
    (a n : ℕ) (ds : List Display)
    → IsOrdered n ds
    → n < a + 1
    → any (λ x. x == a) (addrs ds) ≡ false
IsOrdered-any a n [] o lt = refl
IsOrdered-any a n (d ∷ ds) (p, o) lt = ground (arith, IsOrdered-any a d.addr ds o)

IsOrdered-AreApart : (n : ℕ) (ds : List Display) → IsOrdered n ds → AreApart (addrs ds)
IsOrdered-AreApart n [] o = tt
IsOrdered-AreApart n (d ∷ ds) (p, o) =
    (IsOrdered-any d.addr d.addr ds o (omega arith), IsOrdered-AreApart d.addr ds o)

there :
    (n : ℕ) (ds : List Display)
    → IsOrdered n ds
    → (w : Daemon) → ((d : Display) → at_addr d.addr ds ≡ some d → IsThere w d.addr)
    → All (IsThere w) (addrs ds)
there n [] o w h = tt
there n (d ∷ ds) (p, o) w h =
    (h d (rw (==_refl d.addr) refl), there d.addr ds o w (λ x e. h x (rw (below x e) e)))
  where
    below : (x : Display) → at_addr x.addr ds ≡ some x → (d.addr == x.addr) ≡ false
    below x e = elim (Bool-cases (d.addr == x.addr)) [
      | inr n ↦ n
      | inl y ↦ absurd (
          none_ne
            (sym (at_addr-none x.addr d.addr ds o (omega (arith, (==_iff d.addr x.addr).0 y))) ∙ e))
    ]

listed :
    (b : ℕ) (d : Display) (ds : List Display)
    → at_addr b ds ≡ some d
    → any (λ a. a == b) (addrs ds) ≡ true
listed b d [] e = absurd (none_ne e)
listed b d (x ∷ ds) e = elim (Bool-cases (x.addr == b)) [
  | inl y ↦ rw y refl
  | inr n ↦ rw n (listed b d ds (rw n at e))
]

-- ForEachDisplay with such a step comes to its end, and every display of the list has got its step once, and shows what
-- it left.
pub for_each_display-Visited :
    (P : Daemon → Type 0) (f : ℕ → Daemon → Result Daemon)
    → IsLocal P f
    → (w : Daemon) → P w
    → IsOrdered w.next_addr w.displays
    → (last : Daemon) × (for_each_display f w ≡ ok last)
      × P last
      × ((b : ℕ) (d : Display) → at_addr b w.displays ≡ some d → Visited P f b d last)
unfolding for_each_display
for_each_display-Visited P f local w p o =
    let v =
      for_each-Visits P f local (addrs w.displays) w p (IsOrdered-AreApart w.next_addr w.displays o)
        (there w.next_addr w.displays o w (λ d e. (d, e))) in
    (v.last, v.returns, v.good, λ b d e. v.visited b d (listed b d w.displays e) e)
