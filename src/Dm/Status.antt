-- ===== src/Dm/Status.antt =====
-- The invariant of the list of displays: each status says what processes stand behind the display.
use xdm.Base.{
  ℕ, Bool, true, false, ◌==◌, Option, some, ◌≡◌, sym, ap, ◌∙◌, inl, ◌&&◌, ◌||◌, and_true, some_eq,
  none_ne, inr, Bool-cases, ==_iff,
}
use mathlib.Core.Path.{subst}
use xdm.Base.Result.{ok}
use xdm.Display.{Display, DisplayStatus, running, not_running, zombie, phoenix, Daemon}
use xdm.Dpylist.Changes.{Changes}
use xdm.Dpylist.Laws.{at_addr, IsOrdered}
use xdm.Dm.Stop.{stop_display, restart_display, is_some, set_status}
use xdm.Dm.Stop.Spec.{stopped, stop_display_lem, restart_display_lem, restarted}

-- A running display has a session; one that is not running has none; a zombie still has a server,
-- and a phoenix has a server and no session.
abbrev pub Processes : DisplayStatus → Option ℕ → Option ℕ → Type 0
Processes running pid server_pid = is_some pid ≡ true
Processes not_running pid server_pid = is_some pid ≡ false
Processes zombie pid server_pid = is_some server_pid ≡ true
Processes phoenix pid server_pid = (is_some server_pid ≡ true) × (is_some pid ≡ false)

abbrev pub IsConsistent : Display → Type 0
IsConsistent d = Processes d.status d.pid d.server_pid

pub record IsValid (w : Daemon) : Type 0 where
  pub ordered : IsOrdered w.next_addr w.displays
  pub consistent : (b : ℕ) (d : Display) → at_addr b w.displays ≡ some d → IsConsistent d

-- The invariant while the display at `a` is being worked on.
pub record IsValidBut (a : ℕ) (w : Daemon) : Type 0 where
  pub ordered : IsOrdered w.next_addr w.displays
  pub consistent :
      (b : ℕ) (d : Display) → (a == b) ≡ false → at_addr b w.displays ≡ some d → IsConsistent d

pub IsValid-but : (a : ℕ) {w : Daemon} → IsValid w → IsValidBut a w
IsValid-but a v = record { ordered = v.ordered; consistent = λ b d ne e. v.consistent b d e }

pub Changes-IsValidBut :
    {a : ℕ} {out : Option Display} {w w' : Daemon}
    → IsValidBut a w
    → Changes a out w w'
    → IsValidBut a w'
Changes-IsValidBut v c = record {
  ordered = c.ordered;
  consistent = λ b d ne e. v.consistent b d ne (sym (c.others b ne) ∙ e);
}

-- Whatever is left at `a` must be consistent.
pub Changes-IsValid :
    {a : ℕ} {out : Option Display} {w w' : Daemon}
    → IsValidBut a w
    → Changes a out w w'
    → ((d : Display) → out ≡ some d → IsConsistent d)
    → IsValid w'
Changes-IsValid {a} {out} {w} {w'} v c h = record {
  ordered = c.ordered;
  consistent = λ b d e. elim (Bool-cases (a == b)) [
    | inl same ↦ h d (sym c.self ∙ (ap (λ x. at_addr x w'.displays) ((==_iff a b).0 same) ∙ e))
    | inr ne ↦ v.consistent b d ne (sym (c.others b ne) ∙ e)
  ];
}

pub stopped-IsConsistent : (d x : Display) → stopped d ≡ some x → IsConsistent x
stopped-IsConsistent d x e = elim (Bool-cases (is_some d.server_pid)) [
  | inl s ↦ subst IsConsistent (some_eq (rw s at e)) s
  | inr n ↦ absurd (none_ne (rw n at e))
]

-- StopDisplay, from any state of its display, leaves the daemon valid.
pub stop_display-IsValid :
    (a : ℕ) (w : Daemon) (d : Display)
    → IsValidBut a w
    → at_addr a w.displays ≡ some d
    → (w' : Daemon) × (stop_display a w ≡ ok w') × IsValid w'
stop_display-IsValid a w d v h =
    let (w', e, c, _) = stop_display_lem a w d v.ordered h in
    (w', e, Changes-IsValid v c (stopped-IsConsistent d))

pub restarted-IsConsistent :
    (d : Display) (force : Bool)
    → is_some d.pid ≡ false
    → IsConsistent (set_status (restarted force d) d)
restarted-IsConsistent d force idle =
    elim (Bool-cases (is_some d.server_pid && (force || d.server.terminate_server))) [
      | inl e ↦ rw e ((and_true _ _ e).0, idle)
      | inr e ↦ rw e idle
    ]

-- RestartDisplay of a display whose session is over leaves the daemon valid.
pub restart_display-IsValid :
    (a : ℕ) (force : Bool) (w : Daemon) (d : Display)
    → IsValidBut a w
    → at_addr a w.displays ≡ some d
    → is_some d.pid ≡ false
    → (w' : Daemon) × (restart_display a force w ≡ ok w') × IsValid w'
restart_display-IsValid a force w d v h idle =
    let (w', e, c, _) = restart_display_lem a force w d v.ordered h in
    (
      w',
      e,
      Changes-IsValid v c
          (λ x q. subst IsConsistent (some_eq q) (restarted-IsConsistent d force idle)),
    )
