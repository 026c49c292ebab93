-- ===== src/Xdmcp/Request/Accepted.antt =====
-- What a REQUEST does to the table of the accepted displays and to the session ids.
use mathlib.Core.Path.{subst}
use xdm.Base.{
  ℕ, Bool, true, false, ◌==◌, ==_refl, if◌then◌else◌, Option, none, some, Bytes, codes, ◌≡◌, ◌⊎◌,
  inl, inr, refl, ap, Bool-cases, Option-cases,
}
use xdm.Base.Result.{ok, ok_eq, >>=-eq-ok}
use xdm.Netaddr.{convert_addr}
use xdm.Netaddr.Laws.{address_equal_refl}
use xdm.Wire.{to_card32, request}
use xdm.Protodpy.{ProtoDisplay, find_proto_display, new_proto_display, timeout_proto_displays}
use xdm.Protodpy.Drops.{
  AreDistinct, Drops-none, session, session-none, timeout_proto_displays-Drops,
}
use xdm.Policy.{Connection, accept_client, select_connection_type_index}
use xdm.Policy.Willing.{Site}
use xdm.Access.Database.{acceptable_display_address, is_local_address}
use xdm.Xdmcp.Manage.{Arrival}
use xdm.Xdmcp.Spec.{view}
use xdm.Xdmcp.Request.{
  Request, Server, Keeper, expected_length, next_session_id, Verdict, declined, accepted, enter,
  enter_chosen, if_accepted, examine, look_up_or_examine, conclude, request_respond,
}
use xdm.Xdmcp.Request.Quiet.{IsQuiet, AreTable, IsQuiet-trans, IsQuiet-refl, conclude-IsQuiet}
use xdm.Xdmcp.Request.Entered.{IsAdmitted, IsEntered, IsEntered-IsQuiet}

module _ (k : Keeper) (a : Arrival) (q : Request) where
  made : ℕ → Connection → Server → ProtoDisplay
  made next_addr c v = record {
    addr = next_addr;
    address = a.from;
    date = k.now;
    display_number = q.display_number;
    connection_type = c.1;
    connection_address = c.2;
    session_id = to_card32 (next_session_id v);
    file_authorization = none;
  }

  enter-IsEntered :
      (c : Connection) (v : Server)
      → AreTable v
      → find_proto_display a.from q.display_number v.manager.protos ≡ none
      → IsEntered a q.display_number v (enter k a q c v).1
  unfolding find_proto_display new_proto_display
  enter-IsEntered c v d e =
      let old = v.manager.protos.proto_displays in
      let kept = (timeout_proto_displays k.now v.manager.protos).proto_displays in
      let g = timeout_proto_displays-Drops k.now v.manager.protos d in
      let gone = Drops-none old kept a.from q.display_number g (ap session e) in
      elim (Bool-cases k.memory) [
        | inr n ↦ rw n (record {
          last = refl;
          displays = refl;
          next_addr = refl;
          distinct = g.distinct;
          self = inl gone;
          others = λ b m ne. g.found b m;
        })
        | inl y ↦ rw y (record {
          last = refl;
          displays = refl;
          next_addr = refl;
          distinct = (session-none _ gone, g.distinct);
          self = inr (rw (address_equal_refl a.from, ==_refl q.display_number) refl);
          others = λ b m ne. rw ne (g.found b m);
        })
      ]

  -- Before the authorization: a REQUEST of an unknown display is refused, or it is admitted and
  -- entered.
  abbrev Looked : Site → Server → Verdict × Server → Type 0
  Looked s v r = IsQuiet v r.1 ⊎ (IsAdmitted s a q × IsEntered a q.display_number v r.1)

  look_up_or_examine-Looked :
      (s : Site) (v : Server) (r : Verdict × Server)
      → AreTable v
      → find_proto_display a.from q.display_number v.manager.protos ≡ none
      → look_up_or_examine s k a q v none ≡ ok r
      → Looked s v r
  unfolding accept_client
  look_up_or_examine-Looked s v r d e l = elim (Option-cases (convert_addr a.from.sa).0) [
    | inl n ↦ refused (rw n at l)
    | inr (t, y) ↦ by_file t y (rw y at l)
  ]
    where
      refused : {reason : Bytes} → ok (declined reason, v) ≡ ok r → Looked s v r
      refused q = inl (subst (λ (x : Verdict × Server). IsQuiet v x.1) (ok_eq q) (IsQuiet-refl v d))

      by_connection :
          (t : ℕ) (o : Option Connection)
          → (convert_addr a.from.sa).0 ≡ some t
          → acceptable_display_address s.has_access_file s.database
              (s.client_name (convert_addr a.from.sa).1 t)
              (convert_addr a.from.sa).1
              t
              request
            ≡ ok true
          → select_connection_type_index
              (is_local_address s.interfaces)
              (convert_addr a.from.sa).1
              t
              q.connection_types
              q.connection_addresses
            ≡ ok o
          → enter_chosen k a q v o ≡ ok r
          → Looked s v r
      by_connection t none y f c l = refused l
      by_connection t (some c) y f g l = inr (
        record {
          family = t;
          client = (convert_addr a.from.sa).1;
          connection = c;
          sender = rw y refl;
          allowed = f;
          chosen = g;
        },
        subst (λ (x : Verdict × Server). IsEntered a q.display_number v x.1) (ok_eq l)
            (enter-IsEntered c v d e),
      )

      by_answer :
          (t : ℕ) (b : Bool)
          → (convert_addr a.from.sa).0 ≡ some t
          → acceptable_display_address s.has_access_file s.database
              (s.client_name (convert_addr a.from.sa).1 t)
              (convert_addr a.from.sa).1
              t
              request
            ≡ ok b
          → if_accepted s k a q v
              (convert_addr a.from.sa).1
              t
              (if b then none else some (codes "Display not authorized to connect"))
            ≡ ok r
          → Looked s v r
      by_answer t false y f l = refused l
      by_answer t true y f l =
          let (o, c, l') = >>=-eq-ok _ (enter_chosen k a q v) l in by_connection t o y f c l'

      by_file :
          (t : ℕ)
          → (convert_addr a.from.sa).0 ≡ some t
          → examine s k a q v (convert_addr a.from.sa).1 (some t) ≡ ok r
          → Looked s v r
      by_file t y l =
          let (reason, c, l') =
            >>=-eq-ok
              (accept_client s.has_access_file s.database
                (s.client_name (convert_addr a.from.sa).1 t) (convert_addr a.from.sa).1 t)
              (if_accepted s k a q v (convert_addr a.from.sa).1 t) l in
          let (b, f, g) =
            >>=-eq-ok
              (acceptable_display_address s.has_access_file s.database
                (s.client_name (convert_addr a.from.sa).1 t) (convert_addr a.from.sa).1 t request)
              _ c in
          by_answer t b y f (rw (ok_eq g) l')

Looked-concluded :
    (k : Keeper) (a : Arrival) (q : Request) (s : Site) (v : Server) (r : Verdict × Server)
    → Looked k a q s v r
    → IsQuiet v (conclude k a q r)
      ⊎ (IsAdmitted s a q × IsEntered a q.display_number v (conclude k a q r))
Looked-concluded k a q s v r (inl g) =
    inl (IsQuiet-trans v r.1 (conclude k a q r) g (conclude-IsQuiet k a q r g.drops.distinct))
Looked-concluded k a q s v r (inr (h, g)) = inr (
  h,
  IsEntered-IsQuiet a q.display_number v r.1 (conclude k a q r) g
      (conclude-IsQuiet k a q r g.distinct),
)

-- A REQUEST whose handler comes to its end either accepts nothing and uses no session id; or its display
-- was not accepted before, the access file admits its sender for requests, it offers a connection that xdm can use,
-- and the display has the next session id, if it stays accepted.
pub request_respond-IsAdmitted :
    (s : Site) (k : Keeper) (a : Arrival) (q : Request) (v w : Server)
    → AreDistinct v.manager.protos.proto_displays
    → request_respond s k a (some q) v ≡ ok w
    → IsQuiet v w
      ⊎ (((view v).session a.from q.display_number ≡ none)
          × IsAdmitted s a q
          × IsEntered a q.display_number v w)
unfolding request_respond find_proto_display
request_respond-IsAdmitted s k a q v w d e =
    elim (Option-cases (find_proto_display a.from q.display_number v.manager.protos)) [
      | inr (p, f) ↦ elim (Bool-cases (expected_length q == a.length)) [
        | inr n ↦ inl (quietly v (rw n at e) (IsQuiet-refl v d))
        | inl y ↦ inl (
            quietly (conclude k a q (accepted p, v)) (rw (f, y) at e)
              (conclude-IsQuiet k a q (accepted p, v) d))
      ]
      | inl f ↦ elim (Bool-cases (expected_length q == a.length)) [
        | inr n ↦ inl (quietly v (rw n at e) (IsQuiet-refl v d))
        | inl y ↦
            let (r, e1, e2) =
              >>=-eq-ok (look_up_or_examine s k a q v none) (λ r. ok (conclude k a q r))
                (rw (f, y) at e) in
            entered f r (ok_eq e2)
              (Looked-concluded k a q s v r (look_up_or_examine-Looked k a q s v r d f e1))
      ]
    ]
  where
    quietly : (x : Server) → ok x ≡ ok w → IsQuiet v x → IsQuiet v w
    quietly x l g = subst (IsQuiet v) (ok_eq l) g

    entered :
        find_proto_display a.from q.display_number v.manager.protos ≡ none
        → (r : Verdict × Server) → conclude k a q r ≡ w
        → IsQuiet v (conclude k a q r)
          ⊎ (IsAdmitted s a q × IsEntered a q.display_number v (conclude k a q r))
        → IsQuiet v w
          ⊎ (((view v).session a.from q.display_number ≡ none)
              × IsAdmitted s a q
              × IsEntered a q.display_number v w)
    entered f r l (inl g) = inl (subst (IsQuiet v) l g)
    entered f r l (inr (h, g)) = inr (ap session f, h, subst (IsEntered a q.display_number v) l g)
