-- ===== src/Xdmcp/Process/Refines.antt =====
-- ProcessRequestSocket against the abstract protocol of Spec.antt.
use mathlib.Core.Path.{subst}
use xdm.Base.{ℕ, List, Option, none, some, Bytes, ◌==◌, ◌≡◌, inl, inr, refl, ap, ◌∙◌, Bool-cases}
use xdm.Base.Result.{ok, ok_eq, ◌>>=◌, >>=-eq-ok}
use xdm.Netaddr.{Netaddr}
use xdm.Wire.{
  Opcode, broadcast_query, query, indirect_query, forward_query, willing, unwilling, request,
  accept, decline, manage, refuse, failed, keepalive, alive, unknown, xdm_protocol_version,
}
use xdm.Display.{Daemon}
use xdm.Dm.Status.{IsValid}
use xdm.Protodpy.{find_proto_display}
use xdm.Protodpy.Drops.{AreDistinct, session}
use xdm.Xdmcp.Request.{Request, Server, with_manager, request_respond}
use xdm.Xdmcp.Request.Quiet.{IsQuiet}
use xdm.Xdmcp.Request.Entered.{IsEntered}
use xdm.Xdmcp.Request.Accepted.{request_respond-IsAdmitted}
use xdm.Xdmcp.Manage.{Manager, Arrival, with_daemon, send_alive}
use xdm.Xdmcp.Manage.Admission.{manage-IsValid, manage-find_proto_display}
use xdm.Xdmcp.Manage.Disposal.{manage-Drops}
use xdm.Xdmcp.Query.{direct_query_respond, indirect_respond, forward_respond}
use xdm.Xdmcp.Query.Answers.{
  IsSame, direct_query_respond-IsSame, indirect_respond-IsSame, forward_respond-IsSame,
}
use xdm.Xdmcp.Spec.{view, Event, asks, claims, tells, Moves, answers, accepts, begins}
use xdm.Xdmcp.Process.{
  Contents, Datagram, Listener, Outside, set_manager, dispatch, process_request_socket,
}
use xdm.Xdmcp.Manage

-- No display is entered twice in the table, and the displays' status agrees with their processes.
pub record IsGood (v : Server) : Type 0 where
  pub distinct : AreDistinct v.manager.protos.proto_displays
  pub valid : IsValid v.manager.daemon

abbrev request_event : Arrival → Option Request → Event
request_event a none = tells
request_event a (some q) = asks a.from q.display_number

abbrev pub manage_event : Arrival → Option (ℕ × ℕ × Bytes) → Event
manage_event a none = tells
manage_event a (some (id, n, class)) = claims a.from n id

abbrev pub event_of : Arrival → Contents → Opcode → Event
event_of a c request = request_event a c.requested
event_of a c manage = manage_event a c.managed
event_of a c _ = tells

-- The packet as the protocol sees it.
abbrev pub event : Datagram → Event
event d = event_of d.arrival d.contents d.opcode

IsValid-displays :
    (w w' : Daemon) → IsValid w → w'.displays ≡ w.displays → w'.next_addr ≡ w.next_addr → IsValid w'
IsValid-displays w w' v e f = record {
  ordered = rw (e, f) v.ordered;
  consistent = rw e v.consistent;
}

-- The move from one server to another, to a good one.
abbrev Step : Server → Event → Server → Type 0
Step v e v' = Moves (view v) (view v') e × IsGood v'

Step-IsSame :
    (v : Server) (m : Manager) (e : Event)
    → IsGood v
    → IsSame v.manager m
    → Step v e (with_manager v m)
Step-IsSame v m e g h = (
  answers (λ b n. inl (rw h.protos refl)) refl h.displays,
  record {
    distinct = rw h.protos g.distinct;
    valid = IsValid-displays v.manager.daemon m.daemon g.valid h.displays h.next_addr;
  },
)

Step-refl : (v : Server) (e : Event) → IsGood v → Step v e v
Step-refl v e g = (answers (λ b n. inl refl) refl refl, g)

Step-IsQuiet : (v w : Server) (e : Event) → IsGood v → IsQuiet v w → Step v e w
Step-IsQuiet v w e g h = (
  answers h.drops.found h.last h.displays,
  record {
    distinct = h.drops.distinct;
    valid = IsValid-displays v.manager.daemon w.manager.daemon g.valid h.displays h.next_addr;
  },
)

Step-IsEntered :
    (a : Netaddr) (n : ℕ) (arrival : Arrival) (v w : Server)
    → arrival.from ≡ a
    → IsGood v
    → (view v).session arrival.from n ≡ none
    → IsEntered arrival n v w
    → Step v (asks arrival.from n) w
Step-IsEntered a n arrival v w q g f h = (
  accepts f h.self h.others h.last h.displays,
  record {
    distinct = h.distinct;
    valid = IsValid-displays v.manager.daemon w.manager.daemon g.valid h.displays h.next_addr;
  },
)

module _ (o : Outside) (a : Arrival) where
  request_respond-Step :
      (r : Option Request) (v w : Server)
      → IsGood v
      → request_respond o.site o.keeper a r v ≡ ok w
      → Step v (request_event a r) w
  unfolding request_respond
  request_respond-Step none v w g e = subst (Step v tells) (ok_eq e) (Step-refl v tells g)
  request_respond-Step (some q) v w g e =
      elim (request_respond-IsAdmitted o.site o.keeper a q v w g.distinct e) [
        | inl h ↦ Step-IsQuiet v w _ g h
        | inr (f, _, h) ↦ Step-IsEntered a.from q.display_number a v w refl g f h
      ]

  manage-Step :
      (r : Option (ℕ × ℕ × Bytes)) (v : Server) (m : Manager)
      → IsGood v
      → Manage.manage o.host o.surroundings a r v.manager ≡ ok m
      → Step v (manage_event a r) (with_manager v m)
  unfolding Manage.manage find_proto_display
  manage-Step none v m g e =
      subst (λ x. Step v tells (with_manager v x)) (ok_eq e) (Step-refl v tells g)
  manage-Step (some (id, n, class)) v m g e =
      let drops = manage-Drops o.host o.surroundings a id n class v.manager m g.distinct e in
      let good : IsGood (with_manager v m) = record {
        distinct = drops.distinct;
        valid = manage-IsValid o.host o.surroundings a id n class v.manager m g.valid e;
      } in
      elim (manage-find_proto_display o.host o.surroundings a id n class v.manager m e) [
        | inl (same, _) ↦ (answers drops.found refl same, good)
        | inr (p, f, same) ↦ (begins (ap session f ∙ ap some same) drops.found refl, good)
      ]

  send_alive-IsSame :
      (r : Option (ℕ × ℕ)) (m : Manager) → IsSame m (with_daemon m (send_alive a r m.daemon))
  unfolding send_alive
  send_alive-IsSame none m = record { displays = refl; next_addr = refl; protos = refl }
  send_alive-IsSame (some (n, id)) m = elim (Bool-cases (a.length == 6)) [
    | inl y ↦ rw y (record { displays = refl; next_addr = refl; protos = refl })
    | inr ne ↦ rw ne (record { displays = refl; next_addr = refl; protos = refl })
  ]

  direct-Step :
      (names : Option (List Bytes)) (type : Opcode) (l l' : Listener)
      → IsGood l.server
      → (direct_query_respond o.site a names type l.server.manager >>= λ m. ok (set_manager l m))
        ≡ ok l'
      → Step l.server tells l'.server
  direct-Step names type l l' g e =
      let (m, e1, e2) = >>=-eq-ok (direct_query_respond o.site a names type l.server.manager) _ e in
      subst (λ (x : Listener). Step l.server tells x.server) (ok_eq e2)
        (Step-IsSame l.server m tells g
          (direct_query_respond-IsSame o.site a names type l.server.manager m e1))

  ignored-Step :
      (l l' : Listener) (e : Event) → IsGood l.server → ok l ≡ ok l' → Step l.server e l'.server
  ignored-Step l l' e g q =
      subst (λ (x : Listener). Step l.server e x.server) (ok_eq q) (Step-refl l.server e g)

  dispatch-Step :
      (c : Contents) (type : Opcode) (l l' : Listener)
      → IsGood l.server
      → dispatch o a c type l ≡ ok l'
      → Step l.server (event_of a c type) l'.server
  dispatch-Step c broadcast_query l l' g e = direct-Step c.names broadcast_query l l' g e
  dispatch-Step c query l l' g e = direct-Step c.names query l l' g e
  dispatch-Step c indirect_query l l' g e =
      let (r, e1, e2) =
        >>=-eq-ok (indirect_respond o.site o.route a c.names l.choices l.server.manager) _ e in
      subst (λ (x : Listener). Step l.server tells x.server) (ok_eq e2)
        (Step-IsSame l.server r.0 tells g
          (indirect_respond-IsSame o.site o.route a c.names l.choices l.server.manager r e1))
  dispatch-Step c forward_query l l' g e =
      let (m, e1, e2) = >>=-eq-ok (forward_respond o.site a c.forwarded l.server.manager) _ e in
      subst (λ (x : Listener). Step l.server tells x.server) (ok_eq e2)
        (Step-IsSame l.server m tells g
          (forward_respond-IsSame o.site a c.forwarded l.server.manager m e1))
  dispatch-Step c request l l' g e =
      let (v, e1, e2) = >>=-eq-ok (request_respond o.site o.keeper a c.requested l.server) _ e in
      subst (λ (x : Listener). Step l.server (request_event a c.requested) x.server) (ok_eq e2)
        (request_respond-Step c.requested l.server v g e1)
  dispatch-Step c manage l l' g e =
      let (m, e1, e2) =
        >>=-eq-ok (Manage.manage o.host o.surroundings a c.managed l.server.manager) _ e in
      subst (λ (x : Listener). Step l.server (manage_event a c.managed) x.server) (ok_eq e2)
        (manage-Step c.managed l.server m g e1)
  dispatch-Step c keepalive l l' g e =
      subst (λ (x : Listener). Step l.server tells x.server) (ok_eq e)
        (Step-IsSame l.server
          (with_daemon l.server.manager (send_alive a c.kept_alive l.server.manager.daemon)) tells g
          (send_alive-IsSame c.kept_alive l.server.manager))
  dispatch-Step c willing l l' g e = ignored-Step l l' tells g e
  dispatch-Step c unwilling l l' g e = ignored-Step l l' tells g e
  dispatch-Step c accept l l' g e = ignored-Step l l' tells g e
  dispatch-Step c decline l l' g e = ignored-Step l l' tells g e
  dispatch-Step c refuse l l' g e = ignored-Step l l' tells g e
  dispatch-Step c failed l l' g e = ignored-Step l l' tells g e
  dispatch-Step c alive l l' g e = ignored-Step l l' tells g e
  dispatch-Step c (unknown n) l l' g e = ignored-Step l l' tells g e

-- Every packet whose handler comes to its end refines a move of the abstract protocol, and keeps the table free of duplicates and
-- the displays' status in agreement with their processes. So a display enters the table of accepted ones only
-- by its own REQUEST, while it is not in the table, under the next session id; and the displays change only by a MANAGE
-- whose address, number and session id are in the table.
pub process_request_socket-Moves :
    (o : Outside) (d : Datagram) (l l' : Listener)
    → IsGood l.server
    → process_request_socket o (some d) l ≡ ok l'
    → Moves (view l.server) (view l'.server) (event d) × IsGood l'.server
unfolding process_request_socket
process_request_socket-Moves o d l l' g e = elim (Bool-cases (d.version == xdm_protocol_version)) [
  | inl y ↦ dispatch-Step o d.arrival d.contents d.opcode l l' g (rw y at e)
  | inr n ↦ ignored-Step o d.arrival l l' (event d) g (rw n at e)
]
