-- ===== src/Dm/Start/Walk.antt =====
-- StartDisplays on a host where forks and X servers succeed.
use mathlib.Core.Path.{subst}
use xdm.Base.{
  ℕ, true, false, Option, some, ◌≡◌, ◌⊎◌, refl, sym, ap, ◌∙◌, inl, inr, Bool-cases, some_eq,
}
use xdm.Base.Result.{Result, ok, ok_eq}
use xdm.Display.{
  Display, DisplayStatus, running, not_running, zombie, phoenix, FileState, new_entry, old_entry,
  missing_entry, Daemon,
}
use xdm.Dpylist.Changes.{Changes, update-Changes, deref-ok, Changes-trans}
use xdm.Dpylist.{update, is_xdmcp}
use xdm.Dpylist.Visits.{IsLocal, for_each_display-Visited}
use xdm.Dpylist.Laws.{at_addr}
use xdm.Dm.Stop.{stop_display}
use xdm.Dm.Stop.Spec.{stopped, stop_display_lem}
use xdm.Dm.Status.{
  Processes, IsConsistent, IsValid, IsValid-but, Changes-IsValid, stopped-IsConsistent,
}
use xdm.Dm.Start.{
  Host, start_display, start_if_idle, check_display_status, start_displays, is_permanent,
  is_not_running, set_state,
}
use xdm.Dm.Start.Spec.{IsIdle-of_status}
use xdm.Dm.Start.Progress.{IsWorking, IsUp, start_display-IsUp}

-- A display of the servers file that should always run, and does not.
pub record IsWanted (d : Display) : Type 0 where
  pub from_file : is_xdmcp d.display_type.origin ≡ false
  pub permanent : is_permanent d.display_type.lifetime ≡ true
  pub idle : d.status ≡ not_running
  pub listed : (d.state ≡ new_entry) ⊎ (d.state ≡ old_entry)

-- Something runs at the pointer.
abbrev pub RunsAt : ℕ → Daemon → Type 0
RunsAt a w = (d : Display) × (at_addr a w.displays ≡ some d) × IsUp d

-- The step on the display `d` at `a` comes to its end, keeps the daemon valid, leaves the other displays as
-- they are, and what is wanted runs.
record Serves (a : ℕ) (d : Display) (w : Daemon) (r : Result Daemon) : Type 0 where
  pub final : Daemon
  pub out : Option Display
  pub returns : r ≡ ok final
  pub changes : Changes a out w final
  pub valid : IsValid final
  pub starts : IsWanted d → RunsAt a final

is_not_running-eq : (s : DisplayStatus) → is_not_running s ≡ true → s ≡ not_running
is_not_running-eq not_running e = refl
is_not_running-eq running e = cc
is_not_running-eq zombie e = cc
is_not_running-eq phoenix e = cc

IsUp-IsConsistent : (d : Display) → IsUp d → IsConsistent d
IsUp-IsConsistent d (st, p) = subst (λ s. Processes s d.pid d.server_pid) (sym st) p

unchanged :
    (a : ℕ) (d : Display) (w : Daemon)
    → IsValid w
    → at_addr a w.displays ≡ some d
    → Changes a (some d) w w
unchanged a d w v at = record { self = at; others = λ b n. refl; ordered = v.ordered }

not_wanted : true ≡ false → ⊥
not_wanted e = cc

module _ (h : Host) (works : IsWorking h) (a : ℕ) where
  ignores :
      (d : Display) (w : Daemon)
      → IsValid w
      → at_addr a w.displays ≡ some d
      → ((IsWanted d) → ⊥)
      → Serves a d w (ok w)
  ignores d w v at no_wish = record {
    final = w;
    out = some d;
    returns = refl;
    changes = unchanged a d w v at;
    valid = v;
    starts = λ wish. absurd (no_wish wish);
  }

  starts_idle :
      (d : Display) (w : Daemon)
      → IsValid w
      → at_addr a w.displays ≡ some d
      → d.status ≡ not_running
      → Serves a d w (start_display h a w)
  starts_idle d w v at st =
      let (w', e, (d', c, up)) =
        start_display-IsUp h works a w d v.ordered at
          (IsIdle-of_status d (v.consistent a d at) st) in
      record {
        final = w';
        out = some d';
        returns = e;
        changes = c;
        valid =
            Changes-IsValid (IsValid-but a v) c
              (λ x q. subst IsConsistent (some_eq q) (IsUp-IsConsistent d' up));
        starts = λ wish. (d', c.self, up);
      }

  start_if_idle-Serves :
      (d : Display) (w : Daemon)
      → IsValid w
      → at_addr a w.displays ≡ some d
      → Serves a d w (start_if_idle h a w)
  unfolding start_if_idle
  start_if_idle-Serves d w v at =
      rw (deref-ok a w d at) (elim (Bool-cases (is_permanent d.display_type.lifetime)) [
        | inr n ↦ rw n (ignores d w v at (λ wish. not_wanted (sym wish.permanent ∙ n)))
        | inl y ↦ elim (Bool-cases (is_not_running d.status)) [
          | inl st ↦ rw (y, st) (starts_idle d w v at (is_not_running-eq d.status st))
          | inr st ↦
              rw (y, st)
                (ignores d w v at (λ wish. not_wanted (sym (ap is_not_running wish.idle) ∙ st)))
        ]
      ])

  stops :
      (d : Display) (w : Daemon)
      → IsValid w
      → at_addr a w.displays ≡ some d
      → d.state ≡ missing_entry
      → Serves a d w (stop_display a w)
  stops d w v at st =
      let (w', e, c, _) = stop_display_lem a w d v.ordered at in
      record {
        final = w';
        out = stopped d;
        returns = e;
        changes = c;
        valid = Changes-IsValid (IsValid-but a v) c (stopped-IsConsistent d);
        starts = λ wish. absurd (not_listed d.state st wish.listed);
      }
    where
      not_listed : (s : FileState) → s ≡ missing_entry → (s ≡ new_entry) ⊎ (s ≡ old_entry) → ⊥
      not_listed s e (inl f) = cc
      not_listed s e (inr f) = cc

  -- The new entry is an old one from now on.
  grows_old :
      (d : Display) (w : Daemon)
      → IsValid w
      → at_addr a w.displays ≡ some d
      → d.state ≡ new_entry
      → Serves a d w (start_if_idle h a (update a (set_state old_entry) w))
  grows_old d w v at st =
      let w1 = update a (set_state old_entry) w in
      let c = update-Changes a (set_state old_entry) w d (λ x. refl) v.ordered at in
      let v1 : IsValid w1 =
        Changes-IsValid (IsValid-but a v) c
          (λ x q. subst IsConsistent (some_eq q) (v.consistent a d at)) in
      let s = start_if_idle-Serves (set_state old_entry d) w1 v1 c.self in
      record {
        final = s.final;
        out = s.out;
        returns = s.returns;
        changes = Changes-trans c s.changes;
        valid = s.valid;
        starts = λ wish. s.starts (record {
          from_file = wish.from_file;
          permanent = wish.permanent;
          idle = wish.idle;
          listed = inr refl;
        });
      }

  check_display_status-Serves :
      (d : Display) (w : Daemon)
      → IsValid w
      → at_addr a w.displays ≡ some d
      → Serves a d w (check_display_status h a w)
  unfolding check_display_status
  check_display_status-Serves d w v at =
      rw (deref-ok a w d at) (elim (Bool-cases (is_xdmcp d.display_type.origin)) [
        | inl y ↦ rw y (ignores d w v at (λ wish. not_wanted (sym y ∙ wish.from_file)))
        | inr n ↦ rw n (by_state d.state refl)
      ])
    where
      by_state :
          (s : FileState)
          → d.state ≡ s
          → Serves a d w (elim s [
            | missing_entry ↦ stop_display a w
            | new_entry ↦ start_if_idle h a (update a (set_state old_entry) w)
            | old_entry ↦ start_if_idle h a w
          ])
      by_state missing_entry e = stops d w v at e
      by_state new_entry e = grows_old d w v at e
      by_state old_entry e = start_if_idle-Serves d w v at

-- On a host where forks and servers succeed, StartDisplays comes to its end on every valid list of displays,
-- keeps it valid, and every display of the servers file that should always run and did not is running.
pub start_displays-RunsAt :
    (h : Host)
    → IsWorking h
    → (w : Daemon) → IsValid w
    → (w' : Daemon) × (start_displays h w ≡ ok w')
      × IsValid w'
      × ((a : ℕ) (d : Display) → at_addr a w.displays ≡ some d → IsWanted d → RunsAt a w')
unfolding start_displays
start_displays-RunsAt h works w v =
    let (w', e, good, visited) =
      for_each_display-Visited IsValid (check_display_status h) local w v v.ordered in
    (
      w',
      e,
      good,
      λ a d at wish.
          let t = visited a d at in
          let s = check_display_status-Serves h works a d t.before t.good t.shown in
          let same : s.final ≡ t.after = ok_eq (sym s.returns ∙ t.taken) in
          let (x, f, up) = s.starts wish in
          (x, t.stands ∙ (ap (λ (y : Daemon). at_addr a y.displays) (sym same) ∙ f), up),
    )
  where
    local : IsLocal IsValid (check_display_status h)
    local a w d v at =
        let s = check_display_status-Serves h works a d w v at in
        (s.final, s.returns, s.valid, s.changes.others)
