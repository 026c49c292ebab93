-- ===== src/Tests/Revival.antt =====
-- xdm/dm.c on a host where everything starts: a display whose server is replaced, and one whose session ends.
use xdm.Base.{
  ℕ, ◌+◌, ◌<◌, false, [], ◌∷◌, ◌==◌, none, some, codes, pos, ◌≡◌, refl, arith, find?-All,
}
use xdm.Base.Result.{ok}
use xdm.Display.{Display, running, phoenix, old_entry, ServerResources, Daemon}
use xdm.Dpylist.{no_resources, blank_display}
use xdm.Dpylist.Laws.{at_addr}
use xdm.Dm.Start.{Host, start_displays}
use xdm.Dm.Start.Progress.{IsWorking}
use xdm.Dm.Start.Walk.{IsWanted, RunsAt, start_displays-RunsAt}
use xdm.Dm.Status.{IsConsistent, IsValid}
use xdm.File.{local_type}

abbrev two_attempts : ServerResources
two_attempts = record no_resources { server_attempts = pos 2; term_signal = pos 15 }

abbrev working : Host
working = record {
  fork = λ n. some (100 + n);
  server_dead = λ n. false;
  load_server_resources = λ d. two_attempts;
  set_local_authorization = λ d. d.auth;
  save_server_authorizations = λ d. d.auth;
  patience = 3;
}

working-IsWorking : IsWorking working
working-IsWorking = record {
  forks = λ n. (100 + n, refl);
  lives = λ n. refl;
  tries = λ d. refl;
  patient = (2, refl);
}

abbrev resident : Display
resident = record (blank_display 3 (codes ":0") none) {
  display_type = local_type;
  argv = some (codes "/usr/bin/X" ∷ []);
  state = old_entry;
  server = two_attempts;
}

abbrev waiting : Display
waiting = record resident { status = phoenix; server_pid = some 6 }

abbrev busy : Display
busy = record resident { status = running; pid = some 7; server_pid = some 6 }

abbrev with_display : Display → Daemon
with_display d = record { displays = d ∷ []; next_addr = 4; forks = 0; effects = [] }

with_display-IsValid : (d : Display) → d.addr < 4 → IsConsistent d → IsValid (with_display d)
with_display-IsValid d lt c = record {
  ordered = (lt, tt);
  consistent = λ b x e. (find?-All IsConsistent (λ y. y.addr == b) (d ∷ []) (c, tt) e).0;
}

start_displays-RunsAt_example :
    (w' : Daemon) × (start_displays working (with_display resident) ≡ ok w')
    × IsValid w'
    × ((a : ℕ) (d : Display)
        → at_addr a (with_display resident).displays ≡ some d
        → IsWanted d
        → RunsAt a w')
start_displays-RunsAt_example =
    start_displays-RunsAt working working-IsWorking (with_display resident)
      (with_display-IsValid resident (omega arith) refl)
