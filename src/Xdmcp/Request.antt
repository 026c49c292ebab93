-- ===== src/Xdmcp/Request.antt =====
-- xdm/xdmcp.c: request_respond, which accepts or declines a display, with the session ids. XDM's own
-- authentication (XdmCheckAuthentication) and the authorization that auth.c makes
-- (SetProtoDisplayAuthorization) are arguments.
pub mod Quiet
pub mod Entered
pub mod Accepted
use xdm.Base.{
  ℕ, ◌+◌, ◌*◌, ◌%◌, ◌^◌, Bool, true, false, not, ◌&&◌, List, [], ◌∷◌, ◌==◌, ltb, if◌then◌else◌,
  Option, none, some, Bytes, begins, codes, length, get_elem?,
}
use xdm.Base.Result.{Result, ok, ◌>>=◌}
use xdm.Netaddr.{Netaddr, convert_addr}
use xdm.Wire.{sizes_of, to_card32}
use xdm.Display.{Xauth, Effect, send}
use xdm.Dpylist.{emit}
use xdm.Protodpy.{
  ProtoDisplay, Protos, find_proto_display, new_proto_display, dispose_proto_display, map_proto,
}
use xdm.Policy.{
  Connection, accept_client, select_connection_type_index, select_authorization_type_index,
}
use xdm.Policy.Willing.{Site}
use xdm.Access.Database.{is_local_address}
use xdm.Xdmcp.Send.{accept_packet, decline_packet}
use xdm.Xdmcp.Manage.{Manager, Arrival, with_daemon}

-- What a REQUEST carries.
pub record Request : Type 0 where
  pub display_number : ℕ
  pub connection_types : List ℕ
  pub connection_addresses : List Bytes
  pub authentication_name : Bytes
  pub authentication_data : Bytes
  pub authorization_names : List Bytes
  pub manufacturer_display_id : Bytes

-- The manager with the last session id that it gave.
pub record Server : Type 0 where
  pub manager : Manager
  pub session_id : ℕ

-- The authorization that SetProtoDisplayAuthorization leaves: that of XDMCP, and that of the file.
pub record Authorized : Type 0 where
  pub xdmcp : Option Xauth
  pub file : Option Xauth

-- The time; whether NewProtoDisplay has memory; ValidAuthorization, XdmCheckAuthentication with what it
-- makes of the authentication data, and SetProtoDisplayAuthorization.
pub record Keeper : Type 0 where
  pub now : ℕ
  pub memory : Bool
  pub valid_authorization : Bytes → Bool
  pub xdm_check_authentication : ProtoDisplay → Request → Option Bytes
  pub authorize : ProtoDisplay → Bytes → Authorized

abbrev pub expected_length : Request → ℕ
expected_length q =
    2
    + (1 + 2 * length q.connection_types)
    + (1 + sizes_of q.connection_addresses)
    + (2 + length q.authentication_name)
    + (2 + length q.authentication_data)
    + (1 + sizes_of q.authorization_names)
    + (2 + length q.manufacturer_display_id)

abbrev pub with_manager : Server → Manager → Server
with_manager v m = record v { manager = m }

abbrev pub tell : Arrival → Effect → Server → Server
tell a e v = with_manager v (with_daemon v.manager (emit (e ∷ []) v.manager.daemon))

abbrev pub with_protos : Server → Protos → Server
with_protos v ps = with_manager v (record (v.manager) { protos = ps })

abbrev pub out_of_memory : Bytes
out_of_memory = codes "Out of memory"

abbrev pub no_valid_addr : Bytes
no_valid_addr = codes "No valid address"

abbrev pub no_valid_auth : Bytes
no_valid_auth = codes "No valid authorization"

abbrev pub no_authentic : Bytes
no_authentic = codes "XDM has no authentication key"

-- The display is declined, and disposed of if it had been accepted.
abbrev pub decline_proto : Option ProtoDisplay → Server → Server
decline_proto none v = v
decline_proto (some p) v = with_protos v (dispose_proto_display p.addr v.manager.protos)

abbrev pub decline : Arrival → Request → Bytes → Bytes → Option ProtoDisplay → Server → Server
decline a q answer reason p v =
    decline_proto p (
      tell a (send (some a.fd) (some a.from) (decline_packet q.authentication_name answer reason))
        v)

-- `NextSessionID ()`, an unsigned long, as the CARD32 that NewProtoDisplay takes.
abbrev pub next_session_id : Server → ℕ
next_session_id v = (v.session_id + 1) % 2 ^ 64

-- Either the reason of a refusal or an accepted display.
pub data Verdict : Type 0 where
  declined : Bytes → Verdict
  accepted : ProtoDisplay → Verdict

abbrev pub enter : Keeper → Arrival → Request → Connection → Server → Verdict × Server
enter k a q c v =
    let id = next_session_id v in
    let (made, ps) =
      new_proto_display k.memory k.now a.from q.display_number c.1 c.2 (to_card32 id)
        v.manager.protos in
    let v' = record (with_protos v ps) { session_id = id } in
    (elim made [ none ↦ declined out_of_memory | some p ↦ accepted p ], v')

abbrev pub enter_chosen :
    Keeper → Arrival → Request → Server → Option Connection → Result (Verdict × Server)
enter_chosen k a q v none = ok (declined no_valid_addr, v)
enter_chosen k a q v (some c) = ok (enter k a q c v)

abbrev pub if_accepted :
    Site
    → Keeper
    → Arrival
    → Request
    → Server
    → Bytes
    → ℕ
    → Option Bytes
    → Result (Verdict × Server)
if_accepted s k a q v client t (some reason) = ok (declined reason, v)
if_accepted s k a q v client t none =
    select_connection_type_index (is_local_address s.interfaces) client t q.connection_types
      q.connection_addresses
    >>= enter_chosen k a q v

abbrev pub examine :
    Site → Keeper → Arrival → Request → Server → Bytes → Option ℕ → Result (Verdict × Server)
examine s k a q v client none = ok (declined no_valid_addr, v)
examine s k a q v client (some t) =
    accept_client s.has_access_file s.database (s.client_name client t) client t
    >>= if_accepted s k a q v client t

-- A display that was accepted before, and has not sent its MANAGE, keeps its session.
abbrev pub look_up_or_examine :
    Site → Keeper → Arrival → Request → Server → Option ProtoDisplay → Result (Verdict × Server)
look_up_or_examine s k a q v (some p) = ok (accepted p, v)
look_up_or_examine s k a q v none =
    let (t, client) = convert_addr a.from.sa in examine s k a q v client t

-- The authorization for the name chosen, if any was offered: what is kept with the accepted display, and
-- what is sent, the one for XDMCP first.
abbrev pub sent_authorization : Authorized → Bytes × Bytes
sent_authorization x = elim x.xdmcp [
  | some xdmcp ↦ (xdmcp.name, xdmcp.data_bytes)
  | none ↦ elim x.file [ none ↦ ([], []) | some file ↦ (file.name, file.data_bytes) ]
]

abbrev pub set_file_authorization : Option Xauth → ProtoDisplay → ProtoDisplay
set_file_authorization x p = record p { file_authorization = x }

abbrev pub grant :
    Keeper → Arrival → Request → Bytes → ProtoDisplay → Server → Option Bytes → Server
grant k a q answer p v none =
    tell a
      (send (some a.fd) (some a.from)
        (accept_packet p.session_id q.authentication_name answer [] []))
      v
grant k a q answer p v (some name) =
    let x = k.authorize p name in
    let sent = sent_authorization x in
    tell a
      (send (some a.fd) (some a.from)
        (accept_packet p.session_id q.authentication_name answer sent.0 sent.1))
      (with_protos v (map_proto p.addr (set_file_authorization x.file) v.manager.protos))

-- `j`: 0 without names; none is -1.
abbrev pub authorization_index : Keeper → Request → Option ℕ
authorization_index k q =
    if length q.authorization_names == 0
    then some 0
    else select_authorization_type_index k.valid_authorization q.authentication_name
        q.authorization_names

-- CheckAuthentication of xdm/policy.c; the data of the answer, none for a failure.
unfoldable pub check_authentication : Keeper → ProtoDisplay → Request → Option Bytes
check_authentication k p q =
    if not (length q.authentication_name == 0)
      && begins q.authentication_name (codes "XDM-AUTHENTICATION-1")
    then k.xdm_check_authentication p q
    else some q.authentication_data

abbrev pub authenticate :
    Keeper → Arrival → Request → ProtoDisplay → Server → ℕ → Option Bytes → Server
authenticate k a q p v j none = decline a q q.authentication_data no_authentic (some p) v
authenticate k a q p v j (some answer) = grant k a q answer p v (get_elem? q.authorization_names j)

abbrev pub authorize_display :
    Keeper → Arrival → Request → ProtoDisplay → Server → Option ℕ → Server
authorize_display k a q p v none = decline a q q.authentication_data no_valid_auth (some p) v
authorize_display k a q p v (some j) = authenticate k a q p v j (check_authentication k p q)

abbrev pub conclude : Keeper → Arrival → Request → Verdict × Server → Server
conclude k a q (declined reason, v) = decline a q q.authentication_data reason none v
conclude k a q (accepted p, v) = authorize_display k a q p v (authorization_index k q)

unfoldable pub request_respond : Site → Keeper → Arrival → Option Request → Server → Result Server
request_respond s k a none v = ok v
request_respond s k a (some q) v =
    let found = find_proto_display a.from q.display_number v.manager.protos in
    let concluded = look_up_or_examine s k a q v found >>= λ r. ok (conclude k a q r) in
    if expected_length q == a.length then concluded else ok v
