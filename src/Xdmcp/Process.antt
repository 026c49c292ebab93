-- ===== src/Xdmcp/Process.antt =====
-- xdm/xdmcp.c: ProcessRequestSocket, which hands a packet to its handler, and the main loop of xdm/dm.c
-- over the packets, the ends of children and the signals. Filling the buffer and reading the packet's
-- fields is the Xdmcp library's.
pub mod Refines
pub mod Admits
pub mod Reachable
use xdm.Base.{ℕ, Bool, true, false, List, [], ◌∷◌, ◌==◌, if◌then◌else◌, Option, none, some, Bytes}
use xdm.Base.Result.{Result, ok, ◌>>=◌}
use xdm.Wire.{
  Opcode, broadcast_query, query, indirect_query, forward_query, request, manage, keepalive,
  xdm_protocol_version,
}
use xdm.Display.{Daemon}
use xdm.Choose.{Choice}
use xdm.Dm.Start.{Host, add_display}
use xdm.Dm.Child.{Round, wait_for_child, rescan_servers}
use xdm.Policy.Willing.{Site}
use xdm.Xdmcp.Query.{Route, direct_query_respond, indirect_respond, forward_respond}
use xdm.Xdmcp.Request.{Request, Server, Keeper, with_manager, request_respond}
use xdm.Xdmcp.Manage.{Manager, Arrival, Surroundings, with_daemon, send_alive}
use xdm.Xdmcp.Manage

-- What the library's reads of the fields yield for each type of packet.
pub record Contents : Type 0 where
  pub names : Option (List Bytes)
  pub forwarded : Option (Bytes × Bytes × List Bytes)
  pub requested : Option Request
  pub managed : Option (ℕ × ℕ × Bytes)
  pub kept_alive : Option (ℕ × ℕ)

-- A packet that XdmcpFill and XdmcpReadHeader have read.
pub record Datagram : Type 0 where
  pub arrival : Arrival
  pub version : ℕ
  pub opcode : Opcode
  pub contents : Contents

-- The server with the choices that users have made.
pub record Listener : Type 0 where
  pub server : Server
  pub choices : List Choice

-- All that the handlers learn from outside.
pub record Outside : Type 0 where
  pub site : Site
  pub route : Route
  pub keeper : Keeper
  pub host : Host
  pub surroundings : Surroundings

abbrev pub with_server : Listener → Server → Listener
with_server l v = record l { server = v }

abbrev pub set_manager : Listener → Manager → Listener
set_manager l m = with_server l (with_manager l.server m)

abbrev pub set_indirect : Listener → Manager × List Choice → Listener
set_indirect l (m, choices) = record { server = with_manager l.server m; choices = choices }

abbrev pub set_daemon : Listener → Daemon → Listener
set_daemon l w = set_manager l (with_daemon l.server.manager w)

module _ (o : Outside) where
  -- The switch on the opcode.
  abbrev pub dispatch : Arrival → Contents → Opcode → Listener → Result Listener
  dispatch a c broadcast_query l =
      direct_query_respond o.site a c.names broadcast_query l.server.manager >>= λ m.
      ok (set_manager l m)
  dispatch a c query l =
      direct_query_respond o.site a c.names query l.server.manager >>= λ m. ok (set_manager l m)
  dispatch a c indirect_query l =
      indirect_respond o.site o.route a c.names l.choices l.server.manager >>= λ r.
      ok (set_indirect l r)
  dispatch a c forward_query l =
      forward_respond o.site a c.forwarded l.server.manager >>= λ m. ok (set_manager l m)
  dispatch a c request l =
      request_respond o.site o.keeper a c.requested l.server >>= λ v. ok (with_server l v)
  dispatch a c manage l =
      Manage.manage o.host o.surroundings a c.managed l.server.manager >>= λ m. ok (set_manager l m)
  dispatch a c keepalive l = ok (set_daemon l (send_alive a c.kept_alive l.server.manager.daemon))
  dispatch a c _ l = ok l

  -- None is a failure of XdmcpFill or XdmcpReadHeader.
  unfoldable pub process_request_socket : Option Datagram → Listener → Result Listener
  process_request_socket none l = ok l
  process_request_socket (some d) l =
      let dispatched = dispatch d.arrival d.contents d.opcode l in
      if d.version == xdm_protocol_version then dispatched else ok l

-- What the loop in `main` meets: signals, which ask for the servers file to be read again or for another
-- display; packets; and the ends of children.
pub data Input : Type 0 where
  packet : Option Datagram → Input
  children : List Round → Input
  rescan : List (Bool × Bytes) → Input
  add_one : Input

unfoldable pub step : Outside → Input → Listener → Result Listener
step o (packet d) l = process_request_socket o d l
step o (children rounds) l =
    wait_for_child o.host rounds l.server.manager.daemon >>= λ w. ok (set_daemon l w)
step o add_one l = add_display o.host l.server.manager.daemon >>= λ w. ok (set_daemon l w)
step o (rescan lines) l =
    rescan_servers o.host lines l.server.manager.daemon >>= λ w. ok (set_daemon l w)

unfoldable pub run : List (Outside × Input) → Listener → Result Listener
run [] l = ok l
run ((o, i) ∷ rest) l = do l' ← step o i l; run rest l'
