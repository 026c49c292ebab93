-- ===== src/Dm/Stop/Spec.antt =====
-- What StopDisplay and RestartDisplay do to every display, and what they send.
use xdm.Base.{
  ℕ, Bool, ◌&&◌, ◌||◌, List, [], ◌∷◌, ◌++◌, if◌then◌else◌, Option, none, some, ℤ, ◌≡◌, refl, sym,
  ap, inl, inr, Bool-cases,
}
use mathlib.Core.List.{append_assoc, append-nil}
use xdm.Base.Result.{ok}
use xdm.Display.{DisplayStatus, Display, zombie, phoenix, not_running, Effect, kill, Daemon}
use xdm.Dpylist.Changes.{
  Changes, update-Changes, remove_display-Changes, deref-ok, Changes-emit, Changes-before,
}
use xdm.Dpylist.{emit, update, remove_display, unlinks}
use xdm.Dpylist.Laws.{at_addr, IsOrdered}
use xdm.Dm.Stop.{
  sigterm, sigcont, is_some, set_status, terminate_process, stop_display, restart_display,
  terminate_any,
}

-- The signals of one TerminateProcess.
abbrev pub kills : Option ℕ → ℤ → List Effect
kills none signal = []
kills (some pid) signal = kill pid signal ∷ kill pid sigcont ∷ []

-- What is left of a display that is stopped.
abbrev pub stopped : Display → Option Display
stopped d = if is_some d.server_pid then some (set_status zombie d) else none

abbrev pub stop_effects : Display → List Effect
stop_effects d =
    kills d.pid sigterm
    ++ (if is_some d.server_pid
        then kills d.server_pid d.server.term_signal
        else unlinks d.auth.auth_file)

pub terminate_any-emit :
    (p : Option ℕ) (signal : ℤ) (w : Daemon) → terminate_any p signal w ≡ emit (kills p signal) w
unfolding terminate_process
terminate_any-emit none signal w =
    ap (λ (es : List Effect). record w { effects = es }) (sym (append-nil w.effects))
terminate_any-emit (some p) signal w = refl

emit-emit : (es fs : List Effect) (w : Daemon) → emit es (emit fs w) ≡ emit (fs ++ es) w
emit-emit es fs w =
    ap (λ (l : List Effect). record w { effects = l }) (append_assoc w.effects fs es)

-- The world that StopDisplay leaves.
abbrev after_stop : ℕ → Display → Daemon → Daemon
after_stop a d w =
    if is_some d.server_pid
    then emit (stop_effects d) (update a (set_status zombie) w)
    else remove_display a (emit (kills d.pid sigterm) w)

stop_display-eq :
    (a : ℕ) (w : Daemon) (d : Display)
    → at_addr a w.displays ≡ some d
    → stop_display a w ≡ ok (after_stop a d w)
unfolding stop_display
stop_display-eq a w d h = rw (deref-ok a w d h) (elim (Bool-cases (is_some d.server_pid)) [
  | inl e ↦ rw e (ap ok (rw (terminate_any-emit, terminate_any-emit, emit-emit) refl))
  | inr e ↦ rw e (ap ok (rw terminate_any-emit refl))
])

after_stop-effects :
    (a : ℕ) (w : Daemon) (d : Display)
    → at_addr a w.displays ≡ some d
    → (after_stop a d w).effects ≡ w.effects ++ stop_effects d
unfolding update remove_display
after_stop-effects a w d h = elim (Bool-cases (is_some d.server_pid)) [
  | inl e ↦ rw e refl
  | inr e ↦ rw (e, remove_display, h) (append_assoc w.effects _ _)
]

after_stop-Changes :
    (a : ℕ) (w : Daemon) (d : Display)
    → IsOrdered w.next_addr w.displays
    → at_addr a w.displays ≡ some d
    → Changes a (stopped d) w (after_stop a d w)
after_stop-Changes a w d o h = elim (Bool-cases (is_some d.server_pid)) [
  | inl e ↦ rw e (
      Changes-emit (kills d.pid sigterm ++ kills d.server_pid d.server.term_signal)
        (update-Changes a (set_status zombie) w d (λ x. refl) o h))
  | inr e ↦ rw e (
      Changes-before (kills d.pid sigterm)
        (remove_display-Changes a (emit (kills d.pid sigterm) w) d o h))
]

-- StopDisplay on a display of the list: with a server it stays as a zombie, without one it goes; the
-- session is sent SIGTERM, the server its termSignal, and the authorization file of a display that goes
-- is unlinked. No other display changes.
pub stop_display_lem :
    (a : ℕ) (w : Daemon) (d : Display)
    → IsOrdered w.next_addr w.displays
    → at_addr a w.displays ≡ some d
    → (w' : Daemon) × (stop_display a w ≡ ok w')
      × Changes a (stopped d) w w'
      × (w'.effects ≡ w.effects ++ stop_effects d)
stop_display_lem a w d o h = (
  after_stop a d w,
  stop_display-eq a w d h,
  after_stop-Changes a w d o h,
  after_stop-effects a w d h,
)

-- Whether RestartDisplay ends the server.
abbrev pub goes : Bool → Display → Bool
goes force d = is_some d.server_pid && (force || d.server.terminate_server)

abbrev pub restarted : Bool → Display → DisplayStatus
restarted force d = if goes force d then phoenix else not_running

-- RestartDisplay on a display of the list: a server that has to go is told so and leaves a phoenix,
-- otherwise the display is not running any more. No other display changes.
pub restart_display_lem :
    (a : ℕ) (force : Bool) (w : Daemon) (d : Display)
    → IsOrdered w.next_addr w.displays
    → at_addr a w.displays ≡ some d
    → (w' : Daemon) × (restart_display a force w ≡ ok w')
      × Changes a (some (set_status (restarted force d) d)) w w'
      × (w'.effects
          ≡ w.effects ++ (if goes force d then kills d.server_pid d.server.term_signal else []))
unfolding restart_display update
restart_display_lem a force w d o h =
    rw (deref-ok a w d h)
      (elim (Bool-cases (is_some d.server_pid && (force || d.server.terminate_server))) [
        | inl e ↦
            rw (e, terminate_any-emit)
              (
                _,
                refl,
                Changes-before (kills d.server_pid d.server.term_signal) (
                    update-Changes a (set_status phoenix)
                      (emit (kills d.server_pid d.server.term_signal) w) d (λ x. refl) o h),
                refl,
              )
        | inr e ↦ rw e (
          _,
          refl,
          update-Changes a (set_status not_running) w d (λ x. refl) o h,
          sym (append-nil w.effects),
        )
      ])
