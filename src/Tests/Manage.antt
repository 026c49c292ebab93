-- ===== src/Tests/Manage.antt =====
-- xdm/xdmcp.c: a MANAGE of an accepted display.
use xdm.Base.{ℕ, true, false, [], ◌∷◌, none, some, codes, equal, ◌≡◌, refl}
use xdm.Base.Result.{Result, ok, fault}
use xdm.Netaddr.{Netaddr, inet, address_equal, convert_addr}
use xdm.Dpylist.{update, deref, new_display, find_display_by_name}
use xdm.Choose.{is_indirect_client}
use xdm.Protodpy.{ProtoDisplay, find_proto_display}
use xdm.Dm.Start.{Host, start_display, prepare_foreign, launch}
use xdm.Xdmcp.Manage.{Manager, Arrival, Surroundings, manage, admit}

abbrev pub far : Netaddr
far = record { sa = inet (0 ∷ 177 ∷ []) (10 ∷ 0 ∷ 0 ∷ 8 ∷ []); len = 16 }

abbrev accepted : ProtoDisplay
accepted = record {
  addr = 1;
  address = far;
  date = 9000;
  display_number = 0;
  connection_type = 0;
  connection_address = 10 ∷ 0 ∷ 0 ∷ 8 ∷ [];
  session_id = 5;
  file_authorization = none;
}

abbrev waiting : Manager
waiting = record {
  daemon = record { displays = []; next_addr = 1; forks = 0; effects = [] };
  protos = record { proto_displays = accepted ∷ []; next_addr = 2 };
  indirect_users = [];
}

abbrev pub forking : Host
forking = record {
  fork = λ n. some 100;
  server_dead = λ n. false;
  load_server_resources = λ d. d.server;
  set_local_authorization = λ d. d.auth;
  save_server_authorizations = λ d. d.auth;
  patience = 1;
}

abbrev pub named : Surroundings
named = record {
  name_of = λ p. some (codes "far:0");
  use_chooser = λ a t. false;
  class_memory = true;
  from_memory = true;
  display_memory = true;
}

abbrev request_of : ℕ → Arrival
request_of n = record { from = far; length = n; fd = 3 }

abbrev manager_after : Result Manager → Manager
manager_after (ok m) = m
manager_after (fault f) = waiting

managed :
    manage forking named (request_of 11) (some (5, 0, codes "MIT")) waiting
    ≡ ok (manager_after (manage forking named (request_of 11) (some (5, 0, codes "MIT")) waiting))
unfolding manage find_proto_display address_equal admit find_display_by_name new_display
    is_indirect_client convert_addr start_display deref update prepare_foreign launch equal
managed = refl
