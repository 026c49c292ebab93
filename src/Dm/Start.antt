-- ===== src/Dm/Start.antt =====
-- xdm/dm.c: StartDisplay, CheckDisplayStatus, StartDisplays, AddDynamicDisplay, AddDisplay, and
-- xdm/server.c: StartServerOnce and StartServer. This is the parent's side of each fork; the child
-- becomes the X server or the session and never returns into the daemon (nofork_session, the debugging
-- mode in which it does, is left out).
pub mod Steps
pub mod Spec
pub mod Ends
pub mod Progress
pub mod Walk
use xdm.Base.{
  ℕ, zero, suc, ◌+◌, Bool, true, false, not, ◌&&◌, ◌||◌, [], ◌∷◌, if◌then◌else◌, Option, none, some,
  ℤ, pos, nonzero, ge_int,
}
use xdm.Base.Result.{Result, ok, fault, no_return, ◌>>=◌}
use xdm.Display.{
  Display, DisplayStatus, running, not_running, Location, local, foreign, Lifetime, permanent,
  transient, FileState, new_entry, old_entry, missing_entry, ServerResources, Authorization, kill,
  Daemon,
}
use xdm.Dpylist.{emit, deref, update, remove_display, for_each_display, until_display, is_xdmcp}
use xdm.Dm.Stop.{is_some, stop_display}

-- What StartDisplay learns from outside the modelled files: the outcome of the n-th fork, whether
-- the server so started is dead when serverPause returns, LoadServerResources, and the authorization
-- of auth.c. `patience` bounds the attempts at starting a server that are followed.
pub record Host : Type 0 where
  pub fork : ℕ → Option ℕ
  pub server_dead : ℕ → Bool
  pub load_server_resources : Display → ServerResources
  pub set_local_authorization : Display → Authorization
  pub save_server_authorizations : Display → Authorization
  pub patience : ℕ

abbrev pub is_local : Location → Bool
is_local local = true
is_local foreign = false

abbrev pub is_permanent : Lifetime → Bool
is_permanent permanent = true
is_permanent transient = false

abbrev pub is_not_running : DisplayStatus → Bool
is_not_running not_running = true
is_not_running _ = false

abbrev pub set_server_pid : Option ℕ → Display → Display
set_server_pid p d = record d { server_pid = p }

abbrev pub set_server : ServerResources → Display → Display
set_server r d = record d { server = r }

abbrev pub set_auth : Authorization → Display → Display
set_auth r d = record d { auth = r }

abbrev pub no_ping : Display → Display
no_ping d = record d { server = record (d.server) { ping_interval = pos 0 } }

abbrev pub set_running : ℕ → Display → Display
set_running p d = record d { pid = some p; status = running }

abbrev pub set_state : FileState → Display → Display
set_state s d = record d { state = s }

abbrev pub count_fork : Daemon → Daemon
count_fork w = record w { forks = w.forks + 1 }

-- `d->serverAttempts == 0 || i < d->serverAttempts`
abbrev pub may_try : ℤ → ℕ → Bool
may_try attempts i = not (nonzero attempts) || not (ge_int i attempts)

-- Leave the loop with a server that is up, or go round again.
abbrev pub retry : (Daemon → Result (Bool × Daemon)) → Bool × Daemon → Result (Bool × Daemon)
retry again (true, w) = ok (true, w)
retry again (false, w) = again w

module _ (h : Host) where
  -- The answer tells whether the server is up.
  unfoldable pub start_server_once : ℕ → Daemon → Result (Bool × Daemon)
  start_server_once a w = elim (h.fork w.forks) [
    | none ↦ ok (false, count_fork w)
    | some pid ↦
        ok (not (h.server_dead w.forks), update a (set_server_pid (some pid)) (count_fork w))
  ]

  pub start_server_loop : ℕ → ℕ → ℕ → ℤ → Daemon → Result (Bool × Daemon)
  unfolding start_server_once
  start_server_loop zero i a attempts w = fault no_return
  start_server_loop (suc fuel) i a attempts w =
      let tried = start_server_once a w >>= retry (start_server_loop fuel (i + 1) a attempts) in
      if may_try attempts i then tried else ok (false, w)

  unfoldable pub start_server : ℕ → ℤ → Daemon → Result (Bool × Daemon)
  unfolding start_server_loop
  start_server a attempts w = start_server_loop h.patience 0 a attempts w

  -- `SetLocalAuthorization (d)` and the reset of a server that reads its file then.
  unfoldable pub authorize_local : ℕ → Display → Daemon → Daemon
  authorize_local a d w =
      if d.server.authorize
      then emit
          (if is_some d.server_pid && (d.server.reset_for_auth && nonzero d.server.reset_signal)
            then elim d.server_pid [ none ↦ [] | some p ↦ kill p d.server.reset_signal ∷ [] ]
            else [])
          (update a (set_auth (h.set_local_authorization d)) w)
      else w

  -- A display whose server cannot be started is removed.
  abbrev pub keep_if_up : ℕ → Bool × Daemon → Result (Bool × Daemon)
  keep_if_up a (true, w) = ok (true, w)
  keep_if_up a (false, w) = ok (false, remove_display a w)

  -- The branch for local displays; the answer is no when the display is gone.
  unfoldable pub prepare_local : ℕ → Display → Daemon → Result (Bool × Daemon)
  prepare_local a d w =
      let ready = authorize_local a d (update a no_ping w) in
      if is_some d.server_pid
      then ok (true, ready)
      else start_server a d.server.server_attempts ready >>= keep_if_up a

  unfoldable pub prepare_foreign : ℕ → Display → Daemon → Result (Bool × Daemon)
  prepare_foreign a d w = ok (
    true,
    if is_some d.auth.authorizations
        then update a (set_auth (h.save_server_authorizations d)) w
        else w,
  )

  -- The parent's side of the fork of the session.
  unfoldable pub launch : ℕ → Daemon → Daemon
  launch a w = elim (h.fork w.forks) [
    | none ↦ count_fork w
    | some pid ↦ update a (set_running pid) (count_fork w)
  ]

  abbrev pub prepare : ℕ → Display → Daemon → Result (Bool × Daemon)
  prepare a d w =
      if is_local d.display_type.location then prepare_local a d w else prepare_foreign a d w

  abbrev pub launch_if_ready : ℕ → Bool × Daemon → Result Daemon
  launch_if_ready a (true, w) = ok (launch a w)
  launch_if_ready a (false, w) = ok w

  unfoldable pub start_display : ℕ → Daemon → Result Daemon
  start_display a w = do
    d0 ← deref a w
    let loaded = update a (set_server (h.load_server_resources d0)) w
    d ← deref a loaded
    r ← prepare a d loaded
    launch_if_ready a r

  -- `if (d->displayType.lifetime == Permanent && d->status == notRunning) StartDisplay (d);`
  unfoldable pub start_if_idle : ℕ → Daemon → Result Daemon
  start_if_idle a w = do
    d ← deref a w
    if is_permanent d.display_type.lifetime && is_not_running d.status
        then start_display a w
        else ok w

  unfoldable pub check_display_status : ℕ → Daemon → Result Daemon
  unfolding start_if_idle
  check_display_status a w = do
    d ← deref a w
    if is_xdmcp d.display_type.origin then ok w else elim d.state [
      | missing_entry ↦ stop_display a w
      | new_entry ↦ start_if_idle a (update a (set_state old_entry) w)
      | old_entry ↦ start_if_idle a w
    ]

  unfoldable pub start_displays : Daemon → Result Daemon
  start_displays w = for_each_display check_display_status w

  unfoldable pub add_dynamic_display : ℕ → Daemon → Result (Bool × Daemon)
  add_dynamic_display a w = do
    d ← deref a w
    if not (is_xdmcp d.display_type.origin)
          && (not (is_permanent d.display_type.lifetime) && is_not_running d.status)
        then (start_display a w >>= λ w'. ok (true, w'))
        else ok (false, w)

  unfoldable pub add_display : Daemon → Result Daemon
  add_display w = until_display add_dynamic_display w >>= λ r. ok r.1
