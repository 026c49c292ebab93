-- ===== src/Tests/Daemon.antt =====
-- xdm/dm.c and xdm/server.c on a daemon with one local display.
use xdm.Base.{
  ◌+◌, ◌<◌, Bool, true, List, [], ◌∷◌, ◌++◌, ◌==◌, if◌then◌else◌, none, some, Bytes, codes, equal,
  pos, ◌≡◌, ◌⊎◌, refl, arith, find?-All,
}
use xdm.Base.Result.{Result, ok, fault, use_after_free}
use xdm.Display.{Display, running, old_entry, ServerResources, Daemon}
use xdm.Dpylist.{
  no_resources, blank_display, update, deref, for_each_display, find_display_by_pid, remove_display,
  new_display, find_display_by_name,
}
use xdm.Dpylist.Changes.{Changes}
use xdm.Dm.Stop.{stop_display, restart_display, terminate_process, set_status}
use xdm.Dm.Stop.Spec.{
  stopped, stop_effects, stop_display_lem, restart_display_lem, restarted, goes, kills,
}
use xdm.Dm.Start.{
  Host, start_server_once, start_server, authorize_local, prepare_local, prepare_foreign, launch,
  start_display, start_if_idle, check_display_status, start_displays,
}
use xdm.Dm.Start.Ends.{start_display-returns}
use xdm.Dm.Start.Spec.{start_display-IsValid}
use xdm.Dm.Status.{IsConsistent, IsValid}
use xdm.Dm.Child.{
  clear_pid, write, obey_session, reserver, session_exit, reap_session, reap, scan_servers,
  mark_display, rescan_servers, Round, rescan_if_mod, reap_all, wait_for_child, reserver_display,
  obeysess_display,
}
use xdm.Dm.Child.Outcome.{reap_session-Outcome, IsLost}
use xdm.Dm.Child.Rounds.{wait_for_child-IsValid}
use xdm.File.{
  local_type, parse_display, parse_words, read_fields, parse_display_type, install, renew_display,
  add_new_display, split_into_words, display_type_match,
}

abbrev one_server : ServerResources
one_server = record no_resources {
  server_attempts = pos 2;
  term_signal = pos 15;
  start_attempts = pos 4;
  reserv_attempts = pos 2;
}

abbrev idle_display : Display
idle_display = record (blank_display 3 (codes ":0") none) {
  display_type = local_type;
  argv = some (codes "/usr/bin/X" ∷ []);
  state = old_entry;
  server = one_server;
}

abbrev running_display : Display
running_display = record idle_display { status = running; pid = some 7; server_pid = some 6 }

abbrev daemon_of : Display → Daemon
daemon_of d = record { displays = d ∷ []; next_addr = 4; forks = 0; effects = [] }

abbrev test_host : Host
test_host = record {
  fork = λ n. some (100 + n);
  server_dead = λ n. n == 0;
  load_server_resources = λ d. one_server;
  set_local_authorization = λ d. d.auth;
  save_server_authorizations = λ d. d.auth;
  patience = 3;
}

abbrev daemon_after : Result Daemon → Daemon
daemon_after (ok w) = w
daemon_after (fault f) = daemon_of idle_display

daemon_of-IsValid : (d : Display) → d.addr < 4 → IsConsistent d → IsValid (daemon_of d)
daemon_of-IsValid d lt c = record {
  ordered = (lt, tt);
  consistent = λ b x e. (find?-All IsConsistent (λ y. y.addr == b) (d ∷ []) (c, tt) e).0;
}

abbrev one_round : List Round
one_round = (none, 50, obeysess_display, 7) ∷ []

wait_for_child-IsValid_example :
    IsValid (daemon_after (wait_for_child test_host one_round (daemon_of running_display)))
unfolding wait_for_child reap_all rescan_if_mod reap find_display_by_pid reap_session session_exit
    obey_session update deref stop_display restart_display terminate_process start_displays
    for_each_display check_display_status start_if_idle start_display prepare_local
    start_server_once start_server authorize_local launch
wait_for_child-IsValid_example =
    wait_for_child-IsValid test_host one_round (daemon_of running_display)
      (daemon_after (wait_for_child test_host one_round (daemon_of running_display)))
      (daemon_of-IsValid running_display (omega arith) refl) refl

-- A session that keeps asking for a new server, on a display whose server is gone.
abbrev crashing_display : Display
crashing_display = record running_display { server_pid = none; last_reserv = 40; reserv_tries = 1 }

reap_session-Outcome_example :
    ((w' : Daemon) × (reap_session 50 reserver_display 3 (daemon_of crashing_display) ≡ ok w')
      × IsValid w')
    ⊎ (IsLost 50 (clear_pid crashing_display)
        × (reap_session 50 reserver_display 3 (daemon_of crashing_display) ≡ fault use_after_free))
reap_session-Outcome_example =
    reap_session-Outcome 50 reserver_display 3 (daemon_of crashing_display) crashing_display
      (daemon_of-IsValid crashing_display (omega arith) refl) refl

-- The code stores through the freed pointer there.
crashing : reap_session 50 reserver_display 3 (daemon_of crashing_display) ≡ fault use_after_free
unfolding reap_session session_exit reserver write update deref stop_display remove_display
    terminate_process
crashing = refl

abbrev two_lines : List (Bool × Bytes)
two_lines = (true, codes ":1 local /usr/bin/X :1") ∷ (true, codes "far:0 foreign") ∷ []

rescanned :
    rescan_servers test_host two_lines (daemon_of running_display)
    ≡ ok (daemon_after (rescan_servers test_host two_lines (daemon_of running_display)))
unfolding rescan_servers for_each_display mark_display write scan_servers update deref parse_display
    parse_words split_into_words read_fields parse_display_type install renew_display
    add_new_display new_display display_type_match find_display_by_name equal stop_display
    terminate_process start_displays check_display_status start_if_idle start_display prepare_local
    prepare_foreign start_server_once start_server authorize_local launch
rescanned = refl

start_display-IsValid_example :
    IsValid (daemon_after (start_display test_host 3 (daemon_of idle_display)))
unfolding update deref start_display prepare_local start_server_once start_server authorize_local
    launch
start_display-IsValid_example =
    start_display-IsValid test_host 3 (daemon_of idle_display) idle_display
      (daemon_of-IsValid idle_display (omega arith) refl) refl refl refl

start_display-returns_example :
    (w' : Daemon) × (start_display test_host 3 (daemon_of idle_display) ≡ ok w')
start_display-returns_example =
    start_display-returns test_host 3 (daemon_of idle_display) idle_display 2 (omega arith, tt) refl
      refl (omega arith) (omega arith)

stop_display_lem_example :
    (w' : Daemon) × (stop_display 3 (daemon_of running_display) ≡ ok w')
    × Changes 3 (stopped running_display) (daemon_of running_display) w'
    × (w'.effects ≡ [] ++ stop_effects running_display)
stop_display_lem_example =
    stop_display_lem 3 (daemon_of running_display) running_display (omega arith, tt) refl

restart_display_lem_example :
    (w' : Daemon) × (restart_display 3 true (daemon_of running_display) ≡ ok w')
    × Changes 3
        (some (set_status (restarted true running_display) running_display))
        (daemon_of running_display)
        w'
    × (w'.effects
        ≡ []
          ++ (if goes true running_display
              then kills running_display.server_pid running_display.server.term_signal
              else []))
restart_display_lem_example =
    restart_display_lem 3 true (daemon_of running_display) running_display (omega arith, tt) refl
