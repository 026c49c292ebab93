-- ===== src/Dm/Start/Steps.antt =====
-- StartDisplay, step by step: until the session is forked the display has no session and is not
-- running.
use xdm.Base.{
  ℕ, zero, suc, ◌+◌, Bool, true, false, List, none, some, ℤ, ◌≡◌, refl, ◌<◌, pos, arith, inl, inr,
  Bool-cases, Option-cases,
}
use mathlib.Core.Path.{subst}
use xdm.Base.Result.{Result, ok, ok_eq, fault_ne}
use xdm.Display.{Display, not_running, Daemon, Effect}
use xdm.Dpylist.Changes.{Changes, Changes-emit, Changes-update}
use xdm.Dpylist.{emit, update}
use xdm.Dm.Start.{
  Host, start_server_once, start_server_loop, set_server_pid, count_fork, may_try, retry,
}

abbrev pub IsIdle : Display → Type 0
IsIdle d = (d.pid ≡ none) × (d.status ≡ not_running)

-- The display at `a` is still there and idle, and nothing else has changed.
pub record Stage (a : ℕ) (w w' : Daemon) : Type 0 where
  pub now : Display
  pub changes : Changes a (some now) w w'
  pub idle : IsIdle now

pub Stage-emit : {a : ℕ} {w w' : Daemon} (es : List Effect) → Stage a w w' → Stage a w (emit es w')
Stage-emit es s = record { now = s.now; changes = Changes-emit es s.changes; idle = s.idle }

pub Stage-fork : {a : ℕ} {w w' : Daemon} → Stage a w w' → Stage a w (count_fork w')
Stage-fork s = record {
  now = s.now;
  changes = record {
    self = s.changes.self;
    others = s.changes.others;
    ordered = s.changes.ordered;
  };
  idle = s.idle;
}

pub Stage-update :
    {a : ℕ} {w w' : Daemon} (f : Display → Display)
    → ((x : Display) → (f x).addr ≡ x.addr)
    → ((x : Display) → IsIdle x → IsIdle (f x))
    → Stage a w w'
    → Stage a w (update a f w')
Stage-update f keeps idles s = record {
  now = f s.now;
  changes = Changes-update f s.now keeps s.changes;
  idle = idles s.now s.idle;
}

may_try-lt : (n i : ℕ) → 0 < n → may_try (pos n) i ≡ true → i + 1 < n + 1
may_try-lt zero i p e = absurd (omega arith)
may_try-lt (suc n) i p e = ground arith

module _ (h : Host) (a : ℕ) where
  start_server_once-Stage :
      {w w' : Daemon}
      → Stage a w w'
      → (r : Bool × Daemon) × (start_server_once h a w' ≡ ok r) × Stage a w r.1
  unfolding start_server_once
  start_server_once-Stage {w} {w'} s = elim (Option-cases (h.fork w'.forks)) [
    | inl n ↦ rw (n, start_server_once) (_, refl, Stage-fork s)
    | inr (p, q) ↦
        rw (q, start_server_once)
          (_, refl, Stage-update (set_server_pid (some p)) (λ x. refl) (λ x i. i) (Stage-fork s))
  ]

  retry-Stage :
      {w : Daemon} (again : Daemon → Result (Bool × Daemon))
      → ((x : Daemon) → Stage a w x → (r : Bool × Daemon) → again x ≡ ok r → Stage a w r.1)
      → (r1 : Bool × Daemon) → Stage a w r1.1
      → (r : Bool × Daemon) → retry again r1 ≡ ok r
      → Stage a w r.1
  retry-Stage {w} again ih (true, w1) s r e =
      subst (λ (x : Bool × Daemon). Stage a w x.1) (ok_eq e) s
  retry-Stage again ih (false, w1) s r e = ih w1 s r e

  pub start_server_loop-Stage :
      (fuel i : ℕ) (attempts : ℤ) {w : Daemon} (w' : Daemon)
      → Stage a w w'
      → (r : Bool × Daemon) → start_server_loop h fuel i a attempts w' ≡ ok r
      → Stage a w r.1
  unfolding start_server_loop
  start_server_loop-Stage zero i attempts w' s r e = absurd (fault_ne e)
  start_server_loop-Stage (suc fuel) i attempts {w} w' s r e =
      let (r1, e1, s1) = start_server_once-Stage s in
      elim (Bool-cases (may_try attempts i)) [
        | inl again ↦
            retry-Stage (start_server_loop h fuel (i + 1) a attempts)
              (start_server_loop-Stage fuel (i + 1) attempts) r1 s1 r (rw (again, e1) at e)
        | inr over ↦ subst (λ (x : Bool × Daemon). Stage a w x.1) (ok_eq (rw over at e)) s
      ]

  retry-returns :
      (again : Daemon → Result (Bool × Daemon))
      → ((x : Daemon) → (r : Bool × Daemon) × (again x ≡ ok r))
      → (r1 : Bool × Daemon) → (r : Bool × Daemon) × (retry again r1 ≡ ok r)
  retry-returns again ih (true, w1) = ((true, w1), refl)
  retry-returns again ih (false, w1) = ih w1

  start_server_once-returns : (w : Daemon) → (r : Bool × Daemon) × (start_server_once h a w ≡ ok r)
  unfolding start_server_once
  start_server_once-returns w = elim (Option-cases (h.fork w.forks)) [
    | inl n ↦ rw (n, start_server_once) (_, refl)
    | inr (p, q) ↦ rw (q, start_server_once) (_, refl)
  ]

  -- With `serverAttempts` set, StartServer comes back, whatever the forks and the servers do: as many
  -- rounds of its loop as there are attempts left, and one more, are enough.
  pub start_server_loop-returns :
      (fuel i n : ℕ) (w : Daemon)
      → n < i + fuel
      → i < n + 1
      → 0 < n
      → (r : Bool × Daemon) × (start_server_loop h fuel i a (pos n) w ≡ ok r)
  unfolding start_server_loop
  start_server_loop-returns zero i n w lt le p = absurd (omega arith)
  start_server_loop-returns (suc fuel) i n w lt le p = elim (Bool-cases (may_try (pos n) i)) [
    | inl again ↦
        let (r1, e1) = start_server_once-returns w in
        rw (again, e1)
          (retry-returns (start_server_loop h fuel (i + 1) a (pos n))
            (λ x.
              start_server_loop-returns fuel (i + 1) n x (omega arith) (may_try-lt n i p again) p)
            r1)
    | inr over ↦ rw over (_, refl)
  ]
