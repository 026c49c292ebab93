-- ===== src/Dm/Stop.antt =====
-- xdm/dm.c: TerminateProcess, StopDisplay and RestartDisplay, and SendFailed of xdm/xdmcp.c.
pub mod Spec
use xdm.Base.{
  ℕ, Bool, true, false, ◌&&◌, ◌||◌, List, [], ◌∷◌, ◌++◌, if◌then◌else◌, Bytes, Option, none, some,
  ℤ, pos,
}
use xdm.Base.Result.{Result, ok, ◌>>=◌}
use xdm.Display.{Display, DisplayStatus, zombie, phoenix, not_running, Effect, kill, send, Daemon}
use xdm.Dpylist.{emit, deref, update, remove_display}
use xdm.Xdmcp.Send.{failed_packet}

abbrev pub sigterm : ℤ
sigterm = pos 15

abbrev pub sigcont : ℤ
sigcont = pos 18

abbrev pub is_some {ℓ} : {A : Type ℓ} → Option A → Bool
is_some none = false
is_some (some a) = true

abbrev pub is_zombie : DisplayStatus → Bool
is_zombie zombie = true
is_zombie _ = false

abbrev pub set_status : DisplayStatus → Display → Display
set_status s d = record d { status = s }

unfoldable pub terminate_process : ℕ → ℤ → Daemon → Daemon
terminate_process pid signal w = emit (kill pid signal ∷ kill pid sigcont ∷ []) w

-- `if (pid != -1) TerminateProcess (pid, signal);`
abbrev pub terminate_any : Option ℕ → ℤ → Daemon → Daemon
terminate_any none signal w = w
terminate_any (some pid) signal w = terminate_process pid signal w

-- With a server the display becomes a zombie, which goes when the server is reaped; without one it
-- is removed at once.
unfoldable pub stop_display : ℕ → Daemon → Result Daemon
unfolding terminate_process
stop_display a w = do
  d ← deref a w
  let marked = if is_some d.server_pid then update a (set_status zombie) w else w
  let told = terminate_any d.pid sigterm marked
  ok (
      if is_some d.server_pid
      then terminate_any d.server_pid d.server.term_signal told
      else remove_display a told)

unfoldable pub restart_display : ℕ → Bool → Daemon → Result Daemon
unfolding terminate_process
restart_display a force_reserver w = do
  d ← deref a w
  ok (
      if is_some d.server_pid && (force_reserver || d.server.terminate_server)
      then update a (set_status phoenix) (terminate_any d.server_pid d.server.term_signal w)
      else update a (set_status not_running) w)

unfoldable pub send_failed : ℕ → Bytes → Daemon → Result Daemon
send_failed a reason w = do
  d ← deref a w
  ok (emit (send d.xdmcp_fd d.from (failed_packet d.session_id d.name reason) ∷ []) w)
