-- ===== src/Xdmcp/Process/Admits.antt =====
-- Which packets enter a display in the table of accepted ones.
use mathlib.Core.Path.{subst}
use xdm.Base.{
  ℕ, true, ◌&&◌, List, ◌∷◌, ◌==◌, Option, none, some, Bytes, ◌≡◌, ◌⊎◌, inl, inr, refl, sym, ◌∙◌,
  Bool-cases, none_ne,
}
use xdm.Base.Result.{ok, ok_eq, >>=-eq-ok}
use xdm.Netaddr.{Netaddr, address_equal}
use xdm.Wire.{
  Opcode, broadcast_query, query, indirect_query, forward_query, willing, unwilling, request,
  accept, decline, manage, refuse, failed, keepalive, alive, unknown, xdm_protocol_version,
}
use xdm.Xdmcp.Request.{Request, Server, request_respond}
use xdm.Xdmcp.Request.Entered.{IsAdmitted}
use xdm.Xdmcp.Request.Accepted.{request_respond-IsAdmitted}
use xdm.Xdmcp.Manage.{Arrival}
use xdm.Xdmcp.Spec.{Protocol, view, Event, asks, StaysOrGoes, Moves, answers, accepts, begins}
use xdm.Xdmcp.Process.{
  Contents, Datagram, Listener, Outside, with_server, process_request_socket, Input, packet,
}
use xdm.Xdmcp.Process.Refines.{IsGood, manage_event, event_of, process_request_socket-Moves}

-- The input is a REQUEST of the display `n` of the host `b`, and the access file of that time admits its
-- sender.
pub data Admits (b : Netaddr) (n : ℕ) : Outside × Input → Type 0 where
  admits :
      {o : Outside} {d : Datagram} (q : Request)
      → d.opcode ≡ request
      → d.contents.requested ≡ some q
      → (q.display_number == n && address_equal b d.arrival.from) ≡ true
      → IsAdmitted o.site d.arrival q
      → Admits b n (o, packet (some d))

-- One of the inputs is.
pub data WasAdmitted (b : Netaddr) (n : ℕ) : List (Outside × Input) → Type 0 where
  first :
      {x : Outside × Input} {rest : List (Outside × Input)}
      → Admits b n x
      → WasAdmitted b n (x ∷ rest)
  later :
      {x : Outside × Input} {rest : List (Outside × Input)}
      → WasAdmitted b n rest
      → WasAdmitted b n (x ∷ rest)

abbrev pub IsNoAsk : Event → Type 0
IsNoAsk (asks a n) = ⊥
IsNoAsk _ = Unit

pub manage_event-IsNoAsk : (a : Arrival) (c : Contents) → IsNoAsk (event_of a c manage)
manage_event-IsNoAsk a c = by_contents c.managed
  where
    by_contents : (r : Option (ℕ × ℕ × Bytes)) → IsNoAsk (manage_event a r)
    by_contents none = tt
    by_contents (some (id, n, class)) = tt

pub Opcode-cases :
    (a : Arrival) (c : Contents) (type : Opcode) → (type ≡ request) ⊎ IsNoAsk (event_of a c type)
Opcode-cases a c request = inl refl
Opcode-cases a c manage = inr (manage_event-IsNoAsk a c)
Opcode-cases a c broadcast_query = inr tt
Opcode-cases a c query = inr tt
Opcode-cases a c indirect_query = inr tt
Opcode-cases a c forward_query = inr tt
Opcode-cases a c willing = inr tt
Opcode-cases a c unwilling = inr tt
Opcode-cases a c accept = inr tt
Opcode-cases a c decline = inr tt
Opcode-cases a c refuse = inr tt
Opcode-cases a c failed = inr tt
Opcode-cases a c keepalive = inr tt
Opcode-cases a c alive = inr tt
Opcode-cases a c (unknown n) = inr tt

pub Moves-StaysOrGoes :
    {x y : Protocol} {e : Event}
    → Moves x y e
    → IsNoAsk e
    → (b : Netaddr) (n : ℕ) → StaysOrGoes x y b n
Moves-StaysOrGoes (answers h l d) k = h
Moves-StaysOrGoes (accepts f s h l d) k = absurd k
Moves-StaysOrGoes (begins f h l) k = h

-- An entry that stays or goes, and is there, was there.
pub StaysOrGoes-some :
    (x y : Protocol) {b : Netaddr} {n id : ℕ}
    → StaysOrGoes x y b n
    → y.session b n ≡ some id
    → x.session b n ≡ some id
StaysOrGoes-some x y (inl e) f = sym e ∙ f
StaysOrGoes-some x y (inr e) f = absurd (none_ne (sym e ∙ f))

module _ (o : Outside) (d : Datagram) (b : Netaddr) (n id : ℕ) where
  pub requested-Admits :
      (r : Option Request) (v w : Server)
      → d.opcode ≡ request
      → d.contents.requested ≡ r
      → IsGood v
      → request_respond o.site o.keeper d.arrival r v ≡ ok w
      → (view w).session b n ≡ some id
      → ((view v).session b n ≡ some id) ⊎ Admits b n (o, packet (some d))
  unfolding request_respond
  requested-Admits none v w p c g e f =
      inl (subst (λ (x : Server). (view x).session b n ≡ some id) (sym (ok_eq e)) f)
  requested-Admits (some q) v w p c g e f =
      elim (request_respond-IsAdmitted o.site o.keeper d.arrival q v w g.distinct e) [
        | inl h ↦ inl (StaysOrGoes-some (view v) (view w) (h.drops.found b n) f)
        | inr (_, admitted, h) ↦
            elim (Bool-cases (q.display_number == n && address_equal b d.arrival.from)) [
              | inl y ↦ inr (admits q p c y admitted)
              | inr ne ↦ inl (StaysOrGoes-some (view v) (view w) (h.others b n ne) f)
            ]
      ]

  pub packet-Admits :
      (l l' : Listener)
      → IsGood l.server
      → process_request_socket o (some d) l ≡ ok l'
      → (view l'.server).session b n ≡ some id
      → ((view l.server).session b n ≡ some id) ⊎ Admits b n (o, packet (some d))
  unfolding process_request_socket
  packet-Admits l l' g e f = elim (Opcode-cases d.arrival d.contents d.opcode) [
    | inr k ↦ inl (
        StaysOrGoes-some (view l.server) (view l'.server)
          (Moves-StaysOrGoes (process_request_socket-Moves o d l l' g e).0 k b n) f)
    | inl p ↦ elim (Bool-cases (d.version == xdm_protocol_version)) [
      | inr ne ↦ inl (
          subst (λ (x : Listener). (view x.server).session b n ≡ some id) (sym (ok_eq (rw ne at e)))
            f)
      | inl y ↦
          let (v, e1, e2) =
            >>=-eq-ok (request_respond o.site o.keeper d.arrival d.contents.requested l.server)
              (λ w. ok (with_server l w)) (rw (y, p) at e) in
          requested-Admits d.contents.requested l.server v p refl g e1
            (subst (λ (x : Listener). (view x.server).session b n ≡ some id) (sym (ok_eq e2)) f)
    ]
  ]
