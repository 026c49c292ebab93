-- ===== src/Xdmcp/Query.antt =====
-- xdm/xdmcp.c: the answers to queries: all_query_respond, direct_query_respond, indirect_respond with
-- sendForward and adjustAddress, and forward_respond. A packet that cannot be read is none.
pub mod Answers
use xdm.Base.{
  ℕ, ◌+◌, ◌*◌, Bool, true, false, not, ◌&&◌, ◌||◌, List, [], ◌∷◌, ◌++◌, ◌==◌, ltb, if◌then◌else◌,
  Option, none, some, Bytes, length, take, drop,
}
use xdm.Base.Result.{Result, ok, ◌>>=◌}
use xdm.Netaddr.{
  SockAddr, unspec, unix, inet, inet6, other, Netaddr, netaddr_port, part, convert_addr,
}
use xdm.Wire.{Opcode, query, broadcast_query, indirect_query, forward_query, sizes_of}
use xdm.Display.{Effect, send, Daemon}
use xdm.Dpylist.{emit}
use xdm.Choose.{Choice, indirect_choice, remember_indirect_client, forget_indirect_client}
use xdm.Policy.{choose_authentication}
use xdm.Policy.Willing.{Site, willing}
use xdm.Access.Database.{
  DisplayEntry, Found, is_local_address, is_indirect_query, first_hosted,
  for_each_matching_indirect_host,
}
use xdm.Xdmcp.Send.{willing_packet, unwilling_packet, forward_packet}
use xdm.Xdmcp.Manage.{Manager, Arrival, with_daemon, client_address}

abbrev pub is_query : Opcode → Bool
is_query query = true
is_query _ = false

-- What is sent in reply: Willing, or, to a Query only, Unwilling.
abbrev pub reply : Site → Arrival → Opcode → Bytes → Bool × Bytes → List Effect
reply s a type name (true, status) =
    send (some a.fd) (some a.from) (willing_packet s.hostname name status) ∷ []
reply s a type name (false, status) =
    if is_query type
    then send (some a.fd) (some a.from) (unwilling_packet s.hostname status) ∷ []
    else []

-- An indirect client is remembered, any other is forgotten.
abbrev pub note_client : Opcode → Bytes → ℕ → Manager → Manager
note_client type client t m = record m {
  indirect_users =
      if is_indirect_query type
      then (remember_indirect_client true client t m.indirect_users).1
      else forget_indirect_client client t m.indirect_users;
}

abbrev pub respond_to :
    Site → Arrival → List Bytes → Opcode → Bytes → Manager → Option ℕ → Result Manager
respond_to s a names type client m none = ok m
respond_to s a names type client m (some t) =
    let m' = note_client type client t m in
    willing s client t type >>= λ w.
    ok (with_daemon m' (emit (reply s a type (choose_authentication names) w) m'.daemon))

unfoldable pub all_query_respond : Site → Arrival → List Bytes → Opcode → Manager → Result Manager
all_query_respond s a names type m =
    let (t, client) = convert_addr a.from.sa in respond_to s a names type client m t

-- The length that the header should have is counted from what was read.
unfoldable pub direct_query_respond :
    Site → Arrival → Option (List Bytes) → Opcode → Manager → Result Manager
direct_query_respond s a none type m = ok m
direct_query_respond s a (some names) type m =
    let answered = all_query_respond s a names type m in
    if a.length == 1 + sizes_of names then answered else ok m

-- What the network tells while an indirect query is forwarded: getClientAddress, the time and the
-- resource `choiceTimeout`.
pub record Route : Type 0 where
  pub get_client_address : Netaddr → ℕ → Option Netaddr
  pub now : ℕ
  pub choice_timeout : ℕ

-- The bytes of an `int` of a little-endian machine.
abbrev pub int_of : Bytes → ℕ
int_of [] = 0
int_of (b ∷ bs) = b + 256 * int_of bs

-- `htons (XDM_UDP_PORT)`, port 177.
abbrev pub xdm_udp_port : Bytes
xdm_udp_port = 0 ∷ 177 ∷ []

-- The socket address of a host of the access file, with the interface; none for a length that is no
-- address.
unfoldable pub forward_address : Bytes → Option (Netaddr × ℕ)
forward_address address =
    let n = length address in
    if n == 4
    then some (record { sa = inet xdm_udp_port address; len = 16 }, 0)
    else if n == 8
    then some
        (record { sa = inet xdm_udp_port (take 4 address); len = 16 }, int_of (drop 4 address))
    else if n == 16
    then some (record { sa = inet6 xdm_udp_port address 0; len = 28 }, 0)
    else if n == 20
    then some (
      record { sa = inet6 xdm_udp_port (take 16 address) (int_of (drop 16 address)); len = 28 },
      int_of (drop 16 address),
    )
    else none

-- A local client is told to the other host by the address that leads there.
abbrev pub adjust_address : Route → Bool → Bytes → Netaddr → ℕ → Bytes
adjust_address r local client to ifindex =
    let adjusted : Bytes = elim (r.get_client_address to ifindex) [
      | none ↦ client
      | some from ↦ (client_address from.sa).0
    ] in
    if local then adjusted else client

unfoldable pub send_forward :
    Route → Arrival → Bool → Bytes → Bytes → List Bytes → Bytes → List Effect
send_forward r a local client port names address = elim (forward_address address) [
  | none ↦ []
  | some (to, ifindex) ↦
      send (some a.fd) (some to)
        (forward_packet (adjust_address r local client to ifindex) port names)
      ∷ []
]

unfoldable pub send_forwards :
    Route → Arrival → Bool → Bytes → Bytes → List Bytes → List Bytes → List Effect
send_forwards r a local client port names [] = []
send_forwards r a local client port names (address ∷ rest) =
    send_forward r a local client port names address
    ++ send_forwards r a local client port names rest

-- Whether ForEachMatchingIndirectHost asks IndirectChoice, which drops what is timed out.
abbrev pub asks_choice : Option DisplayEntry → Bool
asks_choice none = false
asks_choice (some d) = not d.not_allowed && d.chooser

unfoldable pub choices_after : Site → Route → Bytes → ℕ → List Choice → Result (List Choice)
choices_after s r client t choices =
    first_hosted (s.client_name client t) client t s.database >>= λ d.
    ok (
      if asks_choice d
      then (indirect_choice r.now r.choice_timeout client t choices).1
      else choices)

-- The manager and the choices, after the forwards were sent.
abbrev pub indirect_hosts : Site → Route → Bytes → ℕ → List Choice → Result Found
indirect_hosts s r client t choices =
    for_each_matching_indirect_host (λ address. is_local_address s.interfaces address t)
      (indirect_choice r.now r.choice_timeout client t choices).0 s.database
      (s.client_name client t) client t

abbrev pub local_as_well :
    Site → Arrival → List Bytes → List Choice → Manager → Bool → Result (Manager × List Choice)
local_as_well s a names choices m here =
    let answered = all_query_respond s a names indirect_query m >>= λ m'. ok (m', choices) in
    if here then answered else ok (m, choices)

abbrev pub forward_to_hosts :
    Site → Route → Arrival → List Bytes → List Choice → Manager → Result (Manager × List Choice)
forward_to_hosts s r a names choices m =
    let client = (client_address a.from.sa).0 in
    let t = (client_address a.from.sa).1 in
    let local = is_local_address s.interfaces client t in
    let port = part (netaddr_port a.from.sa) in
    do
      choices' ← choices_after s r client t choices
      found ← indirect_hosts s r client t choices
      let m' = with_daemon m (emit (send_forwards r a local client port names found.1) m.daemon)
      local_as_well s a names choices' m' found.0

unfoldable pub indirect_respond :
    Site
    → Route
    → Arrival
    → Option (List Bytes)
    → List Choice
    → Manager
    → Result (Manager × List Choice)
indirect_respond s r a none choices m = ok (m, choices)
indirect_respond s r a (some names) choices m =
    let forwarded = forward_to_hosts s r a names choices m in
    if a.length == 1 + sizes_of names then forwarded else ok (m, choices)

-- `::ffff:a.b.c.d`
abbrev pub mapped_address : Bytes → Bytes
mapped_address a = 0 ∷ 0 ∷ 0 ∷ 0 ∷ 0 ∷ 0 ∷ 0 ∷ 0 ∷ 0 ∷ 0 ∷ 255 ∷ 255 ∷ a

-- The address of the client that a ForwardQuery names, in the family that the packet came by; none is
-- `badAddress`, or another family. A path of the UNIX domain has 108 bytes with its NUL.
unfoldable pub forwarded_client : SockAddr → Bytes → Bytes → Option Netaddr
forwarded_client (inet p a) client port =
    if length client == 4 && length port == 2
    then some (record { sa = inet port client; len = 16 })
    else none
forwarded_client (inet6 p a scope) client port =
    if (length client == 16 || length client == 4) && length port == 2
    then some (record {
      sa = inet6 port (if length client == 16 then client else mapped_address client) 0;
      len = 28;
    })
    else none
forwarded_client (unix path) client port =
    if ltb (length client) 108 then some (record { sa = unix client; len = 110 }) else none
forwarded_client unspec client port = none
forwarded_client (other n) client port = none

abbrev pub respond_to_forwarded :
    Site → Arrival → List Bytes → Manager → Option Netaddr → Result Manager
respond_to_forwarded s a names m none = ok m
respond_to_forwarded s a names m (some client) =
    all_query_respond s (record a { from = client }) names forward_query m

unfoldable pub forward_respond :
    Site → Arrival → Option (Bytes × Bytes × List Bytes) → Manager → Result Manager
forward_respond s a none m = ok m
forward_respond s a (some (client, port, names)) m =
    let answered = respond_to_forwarded s a names m (forwarded_client a.from.sa client port) in
    if a.length == (2 + length client) + (2 + length port) + (1 + sizes_of names)
    then answered
    else ok m
