-- ===== src/Dpylist.antt =====
-- xdm/dpylist.c: the list of displays.
pub mod Laws
pub mod Changes
pub mod Each
pub mod Visits
use xdm.Base.{
  ℕ, ◌+◌, Bool, true, false, ◌&&◌, List, [], ◌∷◌, ◌++◌, ◌==◌, if◌then◌else◌, Bytes, equal, Option,
  none, some, find?, pos,
}
use xdm.Base.Result.{Result, ok, fault, use_after_free, ◌>>=◌}
use xdm.Netaddr.{Netaddr, address_equal}
use xdm.Display.{
  Display, foreign, transient, Origin, from_file, from_xdmcp, not_running, new_entry,
  ServerResources, Effect, unlink, Daemon,
}

pub any_displays_left : Daemon → Bool
any_displays_left w = elim w.displays [ [] ↦ false | d ∷ ds ↦ true ]

-- The pointers that a walk of the list visits. `next` is read before the call, and the callbacks
-- remove no display but the one that they are given.
abbrev pub addrs : List Display → List ℕ
addrs [] = []
addrs (d ∷ ds) = d.addr ∷ addrs ds

for_each : List ℕ → (ℕ → Daemon → Result Daemon) → Daemon → Result Daemon
for_each [] f w = ok w
for_each (a ∷ rest) f w = do w' ← f a w; for_each rest f w'

unfoldable pub for_each_display : (ℕ → Daemon → Result Daemon) → Daemon → Result Daemon
unfolding for_each
for_each_display f w = for_each (addrs w.displays) f w

until : List ℕ → (ℕ → Daemon → Result (Bool × Daemon)) → Daemon → Result (Bool × Daemon)
until [] f w = ok (false, w)
until (a ∷ rest) f w = do (done, w') ← f a w; if done then ok (true, w') else until rest f w'

unfoldable pub until_display :
    (ℕ → Daemon → Result (Bool × Daemon)) → Daemon → Result (Bool × Daemon)
unfolding until
until_display f w = until (addrs w.displays) f w

abbrev pub is_pid : ℕ → Option ℕ → Bool
is_pid pid none = false
is_pid pid (some p) = pid == p

unfoldable pub find_display_by_name : Bytes → Daemon → Option Display
find_display_by_name name w = find? (λ d. equal name d.name) w.displays

unfoldable pub find_display_by_pid : ℕ → Daemon → Option Display
find_display_by_pid pid w = find? (λ d. is_pid pid d.pid) w.displays

unfoldable pub find_display_by_server_pid : ℕ → Daemon → Option Display
find_display_by_server_pid pid w = find? (λ d. is_pid pid d.server_pid) w.displays

unfoldable pub find_display_by_session_id : ℕ → Daemon → Option Display
find_display_by_session_id id w = find? (λ d. id == d.session_id) w.displays

abbrev pub is_from : Netaddr → Option Netaddr → Bool
is_from a none = false
is_from a (some b) = address_equal b a

abbrev pub is_xdmcp : Origin → Bool
is_xdmcp from_file = false
is_xdmcp from_xdmcp = true

unfoldable pub find_display_by_address : Netaddr → ℕ → Daemon → Option Display
find_display_by_address a number w =
    find? (λ d. is_xdmcp d.display_type.origin && (d.display_number == number && is_from a d.from))
      w.displays

-- Access through a pointer: the structure must still be on the list.
unfoldable pub deref : ℕ → Daemon → Result Display
deref a w = elim (find? (λ d. d.addr == a) w.displays) [
  | none ↦ fault use_after_free
  | some d ↦ ok d
]

-- Effects are appended in the order in which they happen.
abbrev pub emit : List Effect → Daemon → Daemon
emit es w = record w { effects = w.effects ++ es }

abbrev pub update_list : ℕ → (Display → Display) → List Display → List Display
update_list a f [] = []
update_list a f (d ∷ ds) = if d.addr == a then f d ∷ ds else d ∷ update_list a f ds

-- An assignment through a pointer to a display of the list.
unfoldable pub update : ℕ → (Display → Display) → Daemon → Daemon
update a f w = record w { displays = update_list a f w.displays }

abbrev pub remove_list : ℕ → List Display → List Display
remove_list a [] = []
remove_list a (d ∷ ds) = if d.addr == a then ds else d ∷ remove_list a ds

abbrev pub unlinks : Option Bytes → List Effect
unlinks none = []
unlinks (some path) = unlink path ∷ []

-- `RemoveDisplay`: the display leaves the list, its authorization file is unlinked, and its memory
-- is freed.
unfoldable pub remove_display : ℕ → Daemon → Daemon
remove_display a w = elim (find? (λ d. d.addr == a) w.displays) [
  | none ↦ w
  | some d ↦ record w {
    displays = remove_list a w.displays;
    effects = w.effects ++ unlinks d.auth.auth_file;
  }
]

abbrev pub no_resources : ServerResources
no_resources = record {
  server_attempts = pos 0;
  open_delay = pos 0;
  open_repeat = pos 0;
  open_timeout = pos 0;
  start_attempts = pos 0;
  reserv_attempts = pos 0;
  ping_interval = pos 0;
  ping_timeout = pos 0;
  terminate_server = false;
  grab_server = false;
  grab_timeout = pos 0;
  reset_signal = pos 0;
  term_signal = pos 0;
  reset_for_auth = false;
  authorize = false;
  auth_complain = true;
  auth_names = none;
  client_auth_file = none;
}

-- The fields that `NewDisplay` sets; `displayType` is what calloc left, zeroes.
abbrev pub blank_display : ℕ → Bytes → Option Bytes → Display
blank_display a name class_name = record {
  addr = a;
  name = name;
  class = class_name;
  display_type = record { location = foreign; lifetime = transient; origin = from_xdmcp };
  argv = none;
  status = not_running;
  pid = none;
  server_pid = none;
  state = new_entry;
  start_tries = 0;
  last_reserv = 0;
  reserv_tries = 0;
  session_id = 0;
  from = none;
  display_number = 0;
  use_chooser = false;
  client_addr = [];
  connection_type = 0;
  xdmcp_fd = none;
  server = no_resources;
  auth = record { authorizations = none; auth_file = none };
}

-- `NewDisplay`; `memory` is false when one of its allocations fails, which leaves the list as it was.
unfoldable pub new_display : Bool → Bytes → Option Bytes → Daemon → Option Display × Daemon
new_display memory name class_name w =
    if memory
    then (
      some (blank_display w.next_addr name class_name),
      record w {
        displays = blank_display w.next_addr name class_name ∷ w.displays;
        next_addr = w.next_addr + 1;
      },
    )
    else (none, w)
