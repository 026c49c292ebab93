-- ===== src/Dm/Child.antt =====
-- xdm/dm.c: WaitForChild, ScanServers, MarkDisplay and RescanServers. A termination of a child is what
-- `waitpid` tells of it, with the time; the lines of the servers file are given, without newlines.
-- The log, and the other files that RescanServers reads, are left out.
pub mod Outcome
pub mod Server
pub mod Rounds
pub mod Revival
use xdm.Base.{
  ℕ, ◌+◌, ◌*◌, Bool, true, false, not, ◌&&◌, ◌||◌, List, [], ◌∷◌, ◌==◌, ltb, if◌then◌else◌, Option,
  none, some, Bytes, codes, ge_int,
}
use xdm.Base.Result.{Result, ok, ◌>>=◌}
use xdm.Display.{Display, DisplayType, running, not_running, zombie, phoenix, missing_entry, Daemon}
use xdm.Dpylist.{
  deref, update, remove_display, for_each_display, find_display_by_pid, find_display_by_server_pid,
  is_xdmcp,
}
use xdm.Dm.Stop.{
  sigterm, is_zombie, set_status, terminate_any, stop_display, restart_display, send_failed,
}
use xdm.Dm.Start.{Host, start_displays, set_server_pid, set_state, is_permanent}
use xdm.File.{parse_display, local_type, foreign_type, dynamic_type}

-- `waitCompose`, which is how a child's end is told apart.
abbrev pub wait_compose : ℕ → ℕ → ℕ → ℕ
wait_compose sig core code = sig * 256 + core * 128 + code

abbrev pub obeysess_display : ℕ
obeysess_display = 0

abbrev pub remanage_display : ℕ
remanage_display = 1

abbrev pub unmanage_display : ℕ
unmanage_display = 2

abbrev pub reserver_display : ℕ
reserver_display = 3

abbrev pub openfailed_display : ℕ
openfailed_display = 4

abbrev pub xdm_broken_interval : ℕ
xdm_broken_interval = 120

abbrev pub clear_pid : Display → Display
clear_pid d = record d { pid = none }

abbrev pub set_start_tries : ℕ → Display → Display
set_start_tries n d = record d { start_tries = n }

abbrev pub set_reserv_tries : ℕ → Display → Display
set_reserv_tries n d = record d { reserv_tries = n }

abbrev pub set_last_reserv : ℕ → Display → Display
set_last_reserv now d = record d { last_reserv = now }

-- A store through the pointer.
unfoldable pub write : ℕ → (Display → Display) → Daemon → Result Daemon
write a f w = do d ← deref a w; ok (update a f w)

unfoldable pub obey_session : ℕ → Display → Daemon → Result Daemon
obey_session a d w =
    let w' = update a (set_reserv_tries 0) (update a (set_start_tries 0) w) in
    if not (is_permanent d.display_type.lifetime) || is_zombie d.status
    then stop_display a w'
    else restart_display a false w'

-- The test that OPENFAILED and SIGTERM share; the attempt is counted only if the first two fail.
unfoldable pub stop_or_retry : ℕ → Display → Daemon → Result Daemon
stop_or_retry a d w =
    let counted = update a (set_start_tries (d.start_tries + 1)) w in
    if is_xdmcp d.display_type.origin || is_zombie d.status
    then stop_display a w
    else if ge_int (d.start_tries + 1) d.server.start_attempts
    then stop_display a counted
    else restart_display a true counted

unfoldable pub open_failed : ℕ → Display → Daemon → Result Daemon
open_failed a d w =
    if is_xdmcp d.display_type.origin
    then (send_failed a (codes "Cannot open display") w >>= stop_or_retry a d)
    else stop_or_retry a d w

-- `d->lastReserv && ((now - d->lastReserv) < XDM_BROKEN_INTERVAL)`
abbrev pub is_crash : ℕ → Display → Bool
is_crash now d = not (d.last_reserv == 0) && ltb now (d.last_reserv + xdm_broken_interval)

abbrev pub too_many : ℕ → Display → Bool
too_many now d = is_crash now d && ge_int (d.reserv_tries + 1) d.server.reserv_attempts

-- The tries are counted, or set back, before the test; the time is stored after the display was stopped
-- or restarted.
unfoldable pub reserver : ℕ → ℕ → Display → Daemon → Result Daemon
reserver now a d w =
    let fresh = update a (set_start_tries 0) w in
    let counted =
      update a (set_reserv_tries (if is_crash now d then d.reserv_tries + 1 else 0)) fresh in
    if is_xdmcp d.display_type.origin || is_zombie d.status
    then stop_display a fresh
    else ((if too_many now d then stop_display a counted else restart_display a true counted)
        >>= write a (set_last_reserv now))

unfoldable pub remanage : ℕ → Display → Daemon → Result Daemon
remanage a d w =
    let w' = update a (set_start_tries 0) w in
    if is_xdmcp d.display_type.origin || is_zombie d.status
    then stop_display a w'
    else restart_display a false w'

-- The switch on `waitVal (status)`; `d` is the display with its pid cleared.
unfoldable pub session_exit : ℕ → ℕ → ℕ → Display → Daemon → Result Daemon
session_exit now val a d w =
    if val == unmanage_display
    then stop_display a w
    else if val == obeysess_display
    then obey_session a d w
    else if val == openfailed_display
    then open_failed a d w
    else if val == reserver_display
    then reserver now a d w
    else if val == wait_compose 15 0 0
    then stop_or_retry a d w
    else if val == remanage_display
    then remanage a d w
    else stop_display a w

unfoldable pub reap_session : ℕ → ℕ → ℕ → Daemon → Result Daemon
reap_session now val a w =
    let idle = update a clear_pid w in do d ← deref a idle; session_exit now val a d idle

unfoldable pub reap_server : ℕ → Daemon → Result Daemon
reap_server a w =
    let w' = update a (set_server_pid none) w in
    deref a w' >>= λ d. elim d.status [
      | zombie ↦ ok (remove_display a w')
      | phoenix ↦ ok (update a (set_status not_running) w')
      | running ↦ ok (terminate_any d.pid sigterm w')
      | not_running ↦ ok w'
    ]

-- One round of the loop, after the rescan.
unfoldable pub reap : ℕ → ℕ → ℕ → Daemon → Result Daemon
reap now val pid w = elim (find_display_by_pid pid w) [
  | some d ↦ reap_session now val d.addr w
  | none ↦ elim (find_display_by_server_pid pid w) [ some d ↦ reap_server d.addr w | none ↦ ok w ]
]

abbrev pub acceptable_types : List DisplayType
acceptable_types = local_type ∷ foreign_type ∷ dynamic_type ∷ []

-- `memory` tells whether NewDisplay gets its memory for a line.
unfoldable pub scan_servers : List (Bool × Bytes) → Daemon → Result Daemon
scan_servers [] w = ok w
scan_servers ((memory, line) ∷ rest) w = do
  w' ← parse_display memory acceptable_types line w
  scan_servers rest w'

unfoldable pub mark_display : ℕ → Daemon → Result Daemon
mark_display a w = write a (set_state missing_entry) w

-- What a round of the loop meets: the servers file if RescanIfMod reads it again, and the child.
abbrev pub Round : Type 0
Round = Option (List (Bool × Bytes)) × ℕ × ℕ × ℕ

module _ (h : Host) where
  unfoldable pub rescan_servers : List (Bool × Bytes) → Daemon → Result Daemon
  rescan_servers lines w =
      for_each_display mark_display w >>= λ marked. scan_servers lines marked >>= start_displays h

  -- `if (autoRescan) RescanIfMod ();`
  unfoldable pub rescan_if_mod : Option (List (Bool × Bytes)) → Daemon → Result Daemon
  rescan_if_mod none w = ok w
  rescan_if_mod (some lines) w =
      for_each_display mark_display w >>= λ marked. scan_servers lines marked

  unfoldable pub reap_all : List Round → Daemon → Result Daemon
  reap_all [] w = ok w
  reap_all ((file, now, val, pid) ∷ rest) w = do
    scanned ← rescan_if_mod file w
    w' ← reap now val pid scanned
    reap_all rest w'

  unfoldable pub wait_for_child : List Round → Daemon → Result Daemon
  wait_for_child rounds w = reap_all rounds w >>= start_displays h
