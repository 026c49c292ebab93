-- ===== src/Xdmcp/Manage.antt =====
-- xdm/xdmcp.c: manage and send_alive, with ClientAddress. Reading a packet is the Xdmcp library's; a
-- packet that cannot be read is none. The copy of the authorization's pointer succeeds.
pub mod Admission
pub mod Disposal
use xdm.Base.{
  ℕ, ◌+◌, Bool, true, false, not, ◌&&◌, List, [], ◌∷◌, ◌==◌, if◌then◌else◌, Option, none, some,
  Bytes, codes, length,
}
use xdm.Base.Result.{Result, ok, ◌>>=◌}
use xdm.Netaddr.{SockAddr, Netaddr, convert_addr}
use xdm.Display.{
  Display, DisplayStatus, running, not_running, zombie, phoenix, DisplayType, foreign, transient,
  from_xdmcp, Xauth, send, Daemon,
}
use xdm.Dpylist.{
  emit, update, find_display_by_name, find_display_by_address, find_display_by_session_id,
  new_display,
}
use xdm.Choose.{Client, is_indirect_client, forget_indirect_client}
use xdm.Protodpy.{ProtoDisplay, Protos, find_proto_display, dispose_proto_display}
use xdm.Xdmcp.Send.{refuse_packet, failed_packet, alive_packet}
use xdm.Dm.Stop.{stop_display}
use xdm.Dm.Start.{Host, start_display}

-- The client's address and connection type; the family -1 becomes a CARD16.
abbrev pub client_address : SockAddr → Bytes × ℕ
client_address sa =
    let (t, a) = convert_addr sa in (a, elim t [ none ↦ 65535 | some family ↦ family ])

-- The lists that a MANAGE works on.
pub record Manager : Type 0 where
  pub daemon : Daemon
  pub protos : Protos
  pub indirect_users : List Client

-- A packet as it arrives: its sender, the header's length and the socket.
pub record Arrival : Type 0 where
  pub from : Netaddr
  pub length : ℕ
  pub fd : ℕ

-- NetworkAddressToName for the accepted display, UseChooser, and which allocations succeed: the class,
-- the copy of the address, and those of NewDisplay.
pub record Surroundings : Type 0 where
  pub name_of : ProtoDisplay → Option Bytes
  pub use_chooser : Bytes → ℕ → Bool
  pub class_memory : Bool
  pub from_memory : Bool
  pub display_memory : Bool

abbrev pub with_daemon : Manager → Daemon → Manager
with_daemon m w = record m { daemon = w }

abbrev pub answer : Arrival → Manager → ℕ → Bytes → Bytes → Manager
answer a m id name reason =
    with_daemon m
      (emit (send (some a.fd) (some a.from) (failed_packet id name reason) ∷ []) m.daemon)

abbrev pub refuse : Arrival → Manager → ℕ → Manager
refuse a m id =
    with_daemon m (emit (send (some a.fd) (some a.from) (refuse_packet id) ∷ []) m.daemon)

-- What is set of the new display.
abbrev pub set_client : Arrival → ProtoDisplay → Bool → Display → Display
set_client a p chooser d = record d {
  display_type = record { location = foreign; lifetime = transient; origin = from_xdmcp };
  session_id = p.session_id;
  from = some a.from;
  display_number = p.display_number;
  use_chooser = chooser;
  xdmcp_fd = some a.fd;
  client_addr = (client_address a.from.sa).0;
  connection_type = (client_address a.from.sa).1;
  auth = record (d.auth) {
    authorizations = elim p.file_authorization [
      | none ↦ d.auth.authorizations
      | some x ↦ some (x ∷ [])
    ];
  };
}

-- An active session for the name is terminated first.
abbrev pub stop_named : Bytes → Daemon → Result Daemon
stop_named name w = elim (find_display_by_name name w) [
  | none ↦ ok w
  | some d ↦ stop_display d.addr w
]

abbrev pub class_of : Bytes → Option Bytes
class_of [] = none
class_of (c ∷ cs) = some (c ∷ cs)

module _ (h : Host) (s : Surroundings) where
  abbrev pub is_indirect : Arrival → Manager → Bool
  is_indirect a m =
      is_indirect_client (client_address a.from.sa).0 (client_address a.from.sa).1 m.indirect_users

  abbrev pub forget : Arrival → Manager → List Client
  forget a m =
      if is_indirect a m
      then forget_indirect_client (client_address a.from.sa).0 (client_address a.from.sa).1
          m.indirect_users
      else m.indirect_users

  abbrev pub wants_chooser : Arrival → Manager → Bool
  wants_chooser a m =
      is_indirect a m && s.use_chooser (client_address a.from.sa).0 (client_address a.from.sa).1

  -- The new display is filled in, the accepted one disposed of, and the display started.
  abbrev pub begin_session : Arrival → Manager → ProtoDisplay → Daemon → ℕ → Result Manager
  begin_session a m p w at =
      start_display h at (update at (set_client a p (wants_chooser a m)) w) >>= λ w'. ok (record {
        daemon = w';
        protos = dispose_proto_display p.addr m.protos;
        indirect_users = forget a m;
      })

  abbrev pub make_display : Arrival → Manager → ProtoDisplay → ℕ → Bytes → Bytes → Result Manager
  make_display a m p id name class =
      let (made, w) = new_display s.display_memory name (class_of class) m.daemon in
      elim made [
        | none ↦ ok (answer a (with_daemon m w) id name (codes "out of memory"))
        | some d ↦ begin_session a m p w d.addr
      ]

  abbrev pub go_on : Arrival → Manager → ProtoDisplay → ℕ → Bytes → Bytes → Daemon → Result Manager
  go_on a m p id name class w =
      let m' = with_daemon m w in
      let made = make_display a m' p id name class in
      if not (s.class_memory && s.from_memory)
      then ok (answer a m' id name (codes "out of memory"))
      else made

  -- The packet's session is the one that was accepted.
  unfoldable pub admit : Arrival → Manager → ProtoDisplay → ℕ → Bytes → Result Manager
  admit a m p id class = elim (s.name_of p) [
    | none ↦ ok (answer a m id (codes "(no name)") (codes "out of memory"))
    | some name ↦ stop_named name m.daemon >>= go_on a m p id name class
  ]

  -- A duplicate for a session that has begun already is ignored.
  abbrev pub refuse_unknown : Arrival → Manager → ℕ → ℕ → Manager
  refuse_unknown a m id n = elim (find_display_by_address a.from n m.daemon) [
    | none ↦ refuse a m id
    | some d ↦ if d.session_id == id then m else refuse a m id
  ]

  abbrev pub decide : Arrival → Manager → ℕ → ℕ → Bytes → Option ProtoDisplay → Result Manager
  decide a m id n class none = ok (refuse_unknown a m id n)
  decide a m id n class (some p) =
      let admitted = admit a m p id class in
      if p.session_id == id then admitted else ok (refuse a m id)

  unfoldable pub manage : Arrival → Option (ℕ × ℕ × Bytes) → Manager → Result Manager
  manage a none m = ok m
  manage a (some (id, n, class)) m =
      let decided = decide a m id n class (find_proto_display a.from n m.protos) in
      if 4 + 2 + 2 + length class == a.length then decided else ok m

abbrev pub is_running : DisplayStatus → Bool
is_running running = true
is_running _ = false

-- `d` by its session, or by its address.
abbrev pub first_display : Option Display → Option Display → Option Display
first_display none other = other
first_display (some d) other = some d

abbrev pub alive_fields : ℕ → Option Display → Bool × ℕ
alive_fields id none = (false, 0)
alive_fields id (some d) =
    if is_running d.status then (d.session_id == id, d.session_id) else (false, 0)

unfoldable pub send_alive : Arrival → Option (ℕ × ℕ) → Daemon → Daemon
send_alive a none w = w
send_alive a (some (n, id)) w =
    let f =
      alive_fields id
        (first_display (find_display_by_session_id id w) (find_display_by_address a.from n w)) in
    if a.length == 6 then emit (send (some a.fd) (some a.from) (alive_packet f.0 f.1) ∷ []) w else w
