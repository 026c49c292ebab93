-- ===== src/Xdmcp/Request/Quiet.antt =====
-- What the answer to a REQUEST leaves as it is.
use xdm.Base.{ℕ, Option, none, some, Bytes, get_elem?, ◌≡◌, refl, ◌∙◌}
use xdm.Display.{Effect, Xauth}
use xdm.Protodpy.{ProtoDisplay}
use xdm.Protodpy.Drops.{
  AreDistinct, Drops, Drops-refl, Drops-trans, dispose_proto_display-Drops, map_proto-Drops,
  IsKeeping,
}
use xdm.Xdmcp.Manage.{Arrival}
use xdm.Xdmcp.Request.{
  Request, Server, Keeper, tell, decline, no_valid_auth, no_authentic, Verdict, declined, accepted,
  set_file_authorization, grant, authorization_index, check_authentication, authenticate,
  authorize_display, conclude,
}

-- Nothing is accepted, no session begins or ends; accepted displays may be forgotten.
pub record IsQuiet (v w : Server) : Type 0 where
  pub drops : Drops v.manager.protos.proto_displays w.manager.protos.proto_displays
  pub last : w.session_id ≡ v.session_id
  pub displays : w.manager.daemon.displays ≡ v.manager.daemon.displays
  pub next_addr : w.manager.daemon.next_addr ≡ v.manager.daemon.next_addr

abbrev pub AreTable : Server → Type 0
AreTable v = AreDistinct v.manager.protos.proto_displays

pub IsQuiet-trans : (u v w : Server) → IsQuiet u v → IsQuiet v w → IsQuiet u w
IsQuiet-trans u v w g h = record {
  drops =
      Drops-trans u.manager.protos.proto_displays v.manager.protos.proto_displays
        w.manager.protos.proto_displays g.drops h.drops;
  last = h.last ∙ g.last;
  displays = h.displays ∙ g.displays;
  next_addr = h.next_addr ∙ g.next_addr;
}

pub IsQuiet-refl : (v : Server) → AreTable v → IsQuiet v v
IsQuiet-refl v d = record {
  drops = Drops-refl v.manager.protos.proto_displays d;
  last = refl;
  displays = refl;
  next_addr = refl;
}

tell-IsQuiet : (a : Arrival) (e : Effect) (v : Server) → AreTable v → IsQuiet v (tell a e v)
tell-IsQuiet a e v d = record {
  drops = Drops-refl v.manager.protos.proto_displays d;
  last = refl;
  displays = refl;
  next_addr = refl;
}

decline-IsQuiet :
    (a : Arrival) (q : Request) (answer reason : Bytes) (p : Option ProtoDisplay) (v : Server)
    → AreTable v
    → IsQuiet v (decline a q answer reason p v)
decline-IsQuiet a q answer reason none v d = tell-IsQuiet a _ v d
decline-IsQuiet a q answer reason (some p) v d = record {
  drops = dispose_proto_display-Drops p.addr v.manager.protos d;
  last = refl;
  displays = refl;
  next_addr = refl;
}

set_file_authorization-IsKeeping : (x : Option Xauth) → IsKeeping (set_file_authorization x)
set_file_authorization-IsKeeping x = record {
  addresses = λ p. refl;
  numbers = λ p. refl;
  sessions = λ p. refl;
}

module _ (k : Keeper) (a : Arrival) (q : Request) where
  grant-IsQuiet :
      (answer : Bytes) (p : ProtoDisplay) (v : Server) (name : Option Bytes)
      → AreTable v
      → IsQuiet v (grant k a q answer p v name)
  grant-IsQuiet answer p v none d = tell-IsQuiet a _ v d
  grant-IsQuiet answer p v (some name) d = record {
    drops =
        map_proto-Drops p.addr _ v.manager.protos
          (set_file_authorization-IsKeeping (k.authorize p name).file) d;
    last = refl;
    displays = refl;
    next_addr = refl;
  }

  authorize_display-IsQuiet :
      (p : ProtoDisplay) (v : Server) (j : Option ℕ)
      → AreTable v
      → IsQuiet v (authorize_display k a q p v j)
  authorize_display-IsQuiet p v none d = decline-IsQuiet a q _ no_valid_auth (some p) v d
  authorize_display-IsQuiet p v (some j) d = by_answer (check_authentication k p q)
    where
      by_answer : (o : Option Bytes) → IsQuiet v (authenticate k a q p v j o)
      by_answer none = decline-IsQuiet a q _ no_authentic (some p) v d
      by_answer (some answer) = grant-IsQuiet answer p v (get_elem? q.authorization_names j) d

  pub conclude-IsQuiet : (r : Verdict × Server) → AreTable r.1 → IsQuiet r.1 (conclude k a q r)
  conclude-IsQuiet (declined reason, v) d = decline-IsQuiet a q _ reason none v d
  conclude-IsQuiet (accepted p, v) d = authorize_display-IsQuiet p v (authorization_index k q) d
