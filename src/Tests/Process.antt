-- ===== src/Tests/Process.antt =====
-- xdm/xdmcp.c and the main loop: a display asks, is accepted, and claims its session.
use xdm.Base.{
  ℕ, true, false, [], ◌∷◌, ◌++◌, none, some, codes, equal, begins, ◌≡◌, ◌⊎◌, refl, sym, none_ne,
}
use xdm.Base.Result.{Result, ok, fault}
use xdm.Netaddr.{
  Netaddr, address_equal, netaddr_address, convert_addr, convert_family, netaddr_port,
}
use xdm.Wire.{request, manage, broadcast_query}
use xdm.Dpylist.{update, deref, new_display, find_display_by_name}
use xdm.Choose.{is_indirect_client}
use xdm.Protodpy.{
  find_proto_display, new_proto_display, timeout_proto_displays, timeout_from,
  dispose_proto_display,
}
use xdm.Policy.{
  accept_client, select_connection_type_index, select_loop, select_authorization_type_index,
}
use xdm.Policy.Willing.{Site}
use xdm.Access.Database.{acceptable_display_address}
use xdm.Dm.Start.{start_display, prepare_foreign, launch}
use xdm.Xdmcp.Manage.{Manager, Arrival, admit}
use xdm.Xdmcp.Query.{direct_query_respond}
use xdm.Xdmcp.Query.Answers.{expected_reply, direct_query_respond-expected_reply}
use xdm.Xdmcp.Request.{Request, Server, check_authentication, request_respond}
use xdm.Xdmcp.Request.Quiet.{IsQuiet}
use xdm.Xdmcp.Request.Entered.{IsEntered, IsAdmitted}
use xdm.Xdmcp.Request.Accepted.{request_respond-IsAdmitted}
use xdm.Xdmcp.Spec.{view, Moves, claims}
use xdm.Xdmcp.Process.{
  Contents, Datagram, Listener, Outside, process_request_socket, packet, step, run,
}
use xdm.Xdmcp.Process.Refines.{IsGood, event, process_request_socket-Moves}
use xdm.Xdmcp.Process.Admits.{WasAdmitted}
use xdm.Xdmcp.Process.Reachable.{run-WasAdmitted, run-process_request_socket}
use xdm.Tests.Manage.{far, forking, named}
use xdm.Xdmcp.Manage

abbrev open_site : Site
open_site = record {
  has_access_file = false;
  database = [];
  client_name = λ a t. codes "far";
  interfaces = [];
  hostname = codes "here";
  willing = record { command = []; line = none };
}

abbrev site_of : Outside
site_of = record {
  site = open_site;
  route = record { get_client_address = λ a i. none; now = 9000; choice_timeout = 15 };
  keeper = record {
    now = 9000;
    memory = true;
    valid_authorization = λ name. false;
    xdm_check_authentication = λ p q. none;
    authorize = λ p name. record { xdmcp = none; file = none };
  };
  host = forking;
  surroundings = named;
}

abbrev asking : Request
asking = record {
  display_number = 0;
  connection_types = 0 ∷ [];
  connection_addresses = (10 ∷ 0 ∷ 0 ∷ 8 ∷ []) ∷ [];
  authentication_name = [];
  authentication_data = [];
  authorization_names = [];
  manufacturer_display_id = [];
}

abbrev nothing : Contents
nothing = record {
  names = none;
  forwarded = none;
  requested = none;
  managed = none;
  kept_alive = none;
}

abbrev arrival_of : ℕ → Arrival
arrival_of n = record { from = far; length = n; fd = 3 }

abbrev request_packet : Datagram
request_packet = record {
  arrival = arrival_of 19;
  version = 1;
  opcode = request;
  contents = record nothing { requested = some asking };
}

abbrev manage_packet : Datagram
manage_packet = record {
  arrival = arrival_of 11;
  version = 1;
  opcode = manage;
  contents = record nothing { managed = some (8, 0, codes "MIT") };
}

abbrev idle : Server
idle = record {
  manager = record {
    daemon = record { displays = []; next_addr = 1; forks = 0; effects = [] };
    protos = record { proto_displays = []; next_addr = 1 };
    indirect_users = [];
  };
  session_id = 7;
}

abbrev listening : Listener
listening = record { server = idle; choices = [] }

abbrev server_after : Result Server → Server
server_after (ok v) = v
server_after (fault f) = idle

abbrev listener_after : Result Listener → Listener
listener_after (ok l) = l
listener_after (fault f) = listening

abbrev accepted : Listener
accepted = listener_after (run ((site_of, packet (some request_packet)) ∷ []) listening)

abbrev managing : Listener
managing = listener_after (process_request_socket site_of (some manage_packet) accepted)

idle-IsGood : IsGood idle
idle-IsGood = record {
  distinct = tt;
  valid = record { ordered = tt; consistent = λ b x e. absurd (none_ne e) };
}

was_run : run ((site_of, packet (some request_packet)) ∷ []) listening ≡ ok accepted
unfolding run step process_request_socket request_respond find_proto_display address_equal
    convert_addr convert_family netaddr_address accept_client acceptable_display_address
    select_connection_type_index select_loop new_proto_display timeout_proto_displays timeout_from
    check_authentication equal begins select_authorization_type_index
was_run = refl

was_managed : process_request_socket site_of (some manage_packet) accepted ≡ ok managing
unfolding run step process_request_socket request_respond find_proto_display address_equal
    convert_addr convert_family netaddr_address accept_client acceptable_display_address
    select_connection_type_index select_loop new_proto_display timeout_proto_displays timeout_from
    check_authentication equal begins select_authorization_type_index Manage.manage admit
    find_display_by_name new_display is_indirect_client start_display deref update prepare_foreign
    launch dispose_proto_display netaddr_port
was_managed = refl

-- The display far:0 is accepted as session 8, which it then begins.
begun : (find_display_by_name (codes "far:0") managing.server.manager.daemon ≡ none) → ⊥
unfolding run step process_request_socket request_respond find_proto_display address_equal
    convert_addr convert_family netaddr_address accept_client acceptable_display_address
    select_connection_type_index select_loop new_proto_display timeout_proto_displays timeout_from
    check_authentication equal begins select_authorization_type_index Manage.manage admit
    find_display_by_name new_display is_indirect_client start_display deref update prepare_foreign
    launch dispose_proto_display netaddr_port
begun e = none_ne (sym e)

run-process_request_socket_example :
    (managing.server.manager.daemon.displays ≡ accepted.server.manager.daemon.displays)
    ⊎ ((b : Netaddr) × (n : ℕ) × (id : ℕ) × (event manage_packet ≡ claims b n id)
        × WasAdmitted b n ((site_of, packet (some request_packet)) ∷ []))
run-process_request_socket_example =
    run-process_request_socket ((site_of, packet (some request_packet)) ∷ []) site_of manage_packet
      listening accepted managing idle-IsGood refl was_run was_managed

run-WasAdmitted_example :
    IsGood accepted.server
    × ((b : Netaddr) (n id : ℕ)
        → (view accepted.server).session b n ≡ some id
        → WasAdmitted b n ((site_of, packet (some request_packet)) ∷ []))
run-WasAdmitted_example =
    run-WasAdmitted ((site_of, packet (some request_packet)) ∷ []) listening accepted idle-IsGood
      refl was_run

asked : process_request_socket site_of (some request_packet) listening ≡ ok accepted
unfolding run step process_request_socket request_respond find_proto_display address_equal
    convert_addr convert_family netaddr_address accept_client acceptable_display_address
    select_connection_type_index select_loop new_proto_display timeout_proto_displays timeout_from
    check_authentication equal begins select_authorization_type_index
asked = refl

process_request_socket-Moves_example :
    Moves (view idle) (view accepted.server) (event request_packet) × IsGood accepted.server
process_request_socket-Moves_example =
    process_request_socket-Moves site_of request_packet listening accepted idle-IsGood asked

abbrev entered : Server
entered = server_after (request_respond open_site site_of.keeper (arrival_of 19) (some asking) idle)

was_entered :
    request_respond open_site site_of.keeper (arrival_of 19) (some asking) idle ≡ ok entered
unfolding request_respond find_proto_display address_equal convert_addr convert_family
    netaddr_address accept_client acceptable_display_address select_connection_type_index
    select_loop new_proto_display timeout_proto_displays timeout_from check_authentication equal
    begins select_authorization_type_index
was_entered = refl

request_respond-IsAdmitted_example :
    IsQuiet idle entered
    ⊎ (((view idle).session far 0 ≡ none)
        × IsAdmitted open_site (arrival_of 19) asking
        × IsEntered (arrival_of 19) 0 idle entered)
request_respond-IsAdmitted_example =
    request_respond-IsAdmitted open_site site_of.keeper (arrival_of 19) asking idle entered tt
      was_entered

direct_query_respond-expected_reply_example :
    (m' : Manager) × (direct_query_respond open_site
        (arrival_of 1)
        (some [])
        broadcast_query
        idle.manager
      ≡ ok m')
    × (m'.daemon.effects ≡ [] ++ expected_reply open_site (arrival_of 1) broadcast_query [] true)
unfolding convert_addr convert_family netaddr_address acceptable_display_address
direct_query_respond-expected_reply_example =
    direct_query_respond-expected_reply open_site (arrival_of 1) [] broadcast_query idle.manager 0
      true refl refl refl
