-- ===== src/Display.antt =====
-- include/dm.h: a display, its type and status, and the state of the daemon that xdm/dm.c,
-- xdm/dpylist.c and xdm/xdmcp.c work on. A null pointer, and -1 for a process id or a descriptor, is
-- `none`.
use xdm.Base.{ℕ, Bool, List, Option, Bytes, ℤ}
use xdm.Netaddr.{Netaddr}
use xdm.Wire.{Packet}

pub data DisplayStatus : Type 0 where
  running not_running zombie phoenix : DisplayStatus

pub data Location : Type 0 where
  local foreign : Location

pub data Lifetime : Type 0 where
  permanent transient : Lifetime

pub data Origin : Type 0 where
  from_file from_xdmcp : Origin

pub record DisplayType : Type 0 where
  pub location : Location
  pub lifetime : Lifetime
  pub origin : Origin

pub data FileState : Type 0 where
  new_entry old_entry missing_entry : FileState

-- "server management resources" and the authorization resources that are loaded with them
pub record ServerResources : Type 0 where
  pub server_attempts : ℤ
  pub open_delay : ℤ
  pub open_repeat : ℤ
  pub open_timeout : ℤ
  pub start_attempts : ℤ
  pub reserv_attempts : ℤ
  pub ping_interval : ℤ
  pub ping_timeout : ℤ
  pub terminate_server : Bool
  pub grab_server : Bool
  pub grab_timeout : ℤ
  pub reset_signal : ℤ
  pub term_signal : ℤ
  pub reset_for_auth : Bool
  pub authorize : Bool
  pub auth_complain : Bool
  pub auth_names : Option (List Bytes)
  pub client_auth_file : Option Bytes

-- What is read of an `Xauth`.
pub record Xauth : Type 0 where
  pub name : Bytes
  pub data_bytes : Bytes

-- "information potentially derived from resources"
pub record Authorization : Type 0 where
  pub authorizations : Option (List Xauth)
  pub auth_file : Option Bytes

-- `struct display`; `addr` is the pointer to it.
pub record Display : Type 0 where
  pub addr : ℕ
  pub name : Bytes
  pub class : Option Bytes
  pub display_type : DisplayType
  pub argv : Option (List Bytes)
  pub status : DisplayStatus
  pub pid : Option ℕ
  pub server_pid : Option ℕ
  pub state : FileState
  pub start_tries : ℕ
  pub last_reserv : ℕ
  pub reserv_tries : ℕ
  pub session_id : ℕ
  pub from : Option Netaddr
  pub display_number : ℕ
  pub use_chooser : Bool
  pub client_addr : Bytes
  pub connection_type : ℕ
  pub xdmcp_fd : Option ℕ
  pub server : ServerResources
  pub auth : Authorization

-- What the daemon does to the rest of the system, in order.
pub data Effect : Type 0 where
  -- `kill (pid, signal)`
  kill : ℕ → ℤ → Effect
  -- `unlink (path)`
  unlink : Bytes → Effect
  -- `XdmcpFlush (fd, &buffer, to, tolen)`
  send : Option ℕ → Option Netaddr → Packet → Effect
  -- the LogError of ParseDisplay about the type of a display
  complain : Bytes → Effect

-- `displays` of dpylist.c, first to last, the heap's next unused address, the number of children
-- forked so far, and the effects so far.
pub record Daemon : Type 0 where
  pub displays : List Display
  pub next_addr : ℕ
  pub forks : ℕ
  pub effects : List Effect
