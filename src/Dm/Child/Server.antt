-- ===== src/Dm/Child/Server.antt =====
-- What the end of a server does to the list of displays.
use mathlib.Core.Path.{subst}
use xdm.Base.{ℕ, none, some, ◌≡◌, refl, some_eq, none_ne}
use xdm.Base.Result.{ok}
use xdm.Display.{Display, DisplayStatus, running, not_running, zombie, phoenix, Daemon}
use xdm.Dpylist.{update, remove_display}
use xdm.Dpylist.Laws.{at_addr}
use xdm.Dpylist.Changes.{
  Changes, update-Changes, remove_display-Changes, deref-ok, Changes-emit, Changes-update,
}
use xdm.Dm.Stop.{sigterm, set_status, terminate_any}
use xdm.Dm.Stop.Spec.{kills, terminate_any-emit}
use xdm.Dm.Start.{set_server_pid}
use xdm.Dm.Status.{
  Processes, IsConsistent, IsValid, IsValidBut, IsValid-but, Changes-IsValid, Changes-IsValidBut,
}
use xdm.Dm.Child.{reap_server}
use xdm.Dm.Child.Outcome.{Succeeds}

-- The switch of WaitForChild on the status of a display whose server is gone.
switch-Succeeds :
    (a : ℕ) {w w1 : Daemon} (d : Display) (s : DisplayStatus)
    → Processes s d.pid d.server_pid
    → d.status ≡ s
    → IsValidBut a w
    → Changes a (some (set_server_pid none d)) w w1
    → Succeeds (elim s [
      | zombie ↦ ok (remove_display a w1)
      | phoenix ↦ ok (update a (set_status not_running) w1)
      | running ↦ ok (terminate_any d.pid sigterm w1)
      | not_running ↦ ok w1
    ])
switch-Succeeds a {w} {w1} d zombie p st but c = (
  remove_display a w1,
  refl,
  Changes-IsValid (Changes-IsValidBut but c)
      (remove_display-Changes a w1 (set_server_pid none d) c.ordered c.self)
      (λ x q. absurd (none_ne q)),
)
switch-Succeeds a {w} {w1} d phoenix p st but c = (
  update a (set_status not_running) w1,
  refl,
  Changes-IsValid but
      (Changes-update (set_status not_running) (set_server_pid none d) (λ x. refl) c)
      (λ x q. subst IsConsistent (some_eq q) p.1),
)
switch-Succeeds a {w} {w1} d running p st but c = (
  terminate_any d.pid sigterm w1,
  refl,
  rw (terminate_any-emit) (
      Changes-IsValid but (Changes-emit (kills d.pid sigterm) c)
        (λ x q. subst IsConsistent (some_eq q) (rw st p))),
)
switch-Succeeds a {w} {w1} d not_running p st but c =
    (w1, refl, Changes-IsValid but c (λ x q. subst IsConsistent (some_eq q) (rw st p)))

-- The end of a display's server, in every status of the display, is handled, and leaves every
-- display's status in agreement with its processes.
pub reap_server-IsValid :
    (a : ℕ) (w : Daemon) (d : Display)
    → IsValid w
    → at_addr a w.displays ≡ some d
    → (w' : Daemon) × (reap_server a w ≡ ok w') × IsValid w'
unfolding reap_server
reap_server-IsValid a w d v h =
    let c = update-Changes a (set_server_pid none) w d (λ x. refl) v.ordered h in
    rw (deref-ok a (update a (set_server_pid none) w) (set_server_pid none d) c.self)
      (switch-Succeeds a d d.status (v.consistent a d h) refl (IsValid-but a v) c)
