-- ===== src/Xdmcp/Query/Answers.antt =====
-- What is sent in answer to a query, and that a query changes no display and no accepted one.
use mathlib.Core.Path.{subst}
use xdm.Base.{
  ℕ, ◌+◌, Bool, true, false, List, [], ◌∷◌, ◌++◌, ◌==◌, ==_refl, if◌then◌else◌, Option, none, some,
  Bytes, length, codes, ◌≡◌, inl, inr, refl, Bool-cases,
}
use xdm.Base.Result.{Result, ok, ok_eq, ◌>>=◌, >>=-eq-ok}
use xdm.Netaddr.{Netaddr, netaddr_port, part, convert_addr}
use xdm.Wire.{Opcode, indirect_query, forward_query, sizes_of}
use xdm.Display.{Effect, send}
use xdm.Dpylist.{emit}
use xdm.Choose.{Choice}
use xdm.Policy.{choose_authentication}
use xdm.Policy.Willing.{Site, willing_text, willing}
use xdm.Access.Database.{Found, is_local_address, acceptable_display_address}
use xdm.Xdmcp.Send.{willing_packet, unwilling_packet}
use xdm.Xdmcp.Manage.{Manager, Arrival, with_daemon, client_address}
use xdm.Xdmcp.Query.{
  is_query, respond_to, all_query_respond, direct_query_respond, Route, send_forwards,
  choices_after, indirect_hosts, local_as_well, forward_to_hosts, indirect_respond,
  respond_to_forwarded, forwarded_client, forward_respond,
}

-- What a sender may be told: that the host is willing, or, if it sent a Query, that it is not.
abbrev pub expected_reply : Site → Arrival → Opcode → List Bytes → Bool → List Effect
expected_reply s a type names true =
    send (some a.fd) (some a.from)
      (willing_packet s.hostname (choose_authentication names) (willing_text s.willing))
    ∷ []
expected_reply s a type names false =
    if is_query type
    then send (some a.fd) (some a.from)
        (unwilling_packet s.hostname (codes "Display not authorized to connect"))
      ∷ []
    else []

-- A Query or BroadcastQuery of the length that its names make is answered by exactly one Willing if the
-- access file admits the sender for that type of query; if it does not, a Query gets exactly one
-- Unwilling, and a BroadcastQuery no answer at all.
pub direct_query_respond-expected_reply :
    (s : Site) (a : Arrival) (names : List Bytes) (type : Opcode) (m : Manager) (t : ℕ) (b : Bool)
    → a.length ≡ 1 + sizes_of names
    → (convert_addr a.from.sa).0 ≡ some t
    → acceptable_display_address s.has_access_file s.database
        (s.client_name (convert_addr a.from.sa).1 t)
        (convert_addr a.from.sa).1
        t
        type
      ≡ ok b
    → (m' : Manager) × (direct_query_respond s a (some names) type m ≡ ok m')
      × (m'.daemon.effects ≡ m.daemon.effects ++ expected_reply s a type names b)
unfolding direct_query_respond all_query_respond willing
direct_query_respond-expected_reply s a names type m t true e y f =
    rw (e, ==_refl (1 + sizes_of names), y, f) (_, refl, refl)
direct_query_respond-expected_reply s a names type m t false e y f =
    rw (e, ==_refl (1 + sizes_of names), y, f) (_, refl, refl)

-- The displays and the accepted displays are as they were.
pub record IsSame (m m' : Manager) : Type 0 where
  pub displays : m'.daemon.displays ≡ m.daemon.displays
  pub next_addr : m'.daemon.next_addr ≡ m.daemon.next_addr
  pub protos : m'.protos ≡ m.protos

IsSame-refl : (m : Manager) → IsSame m m
IsSame-refl m = record { displays = refl; next_addr = refl; protos = refl }

respond_to-IsSame :
    (s : Site) (a : Arrival) (names : List Bytes) (type : Opcode) (client : Bytes) (m m' : Manager)
    (t : Option ℕ)
    → respond_to s a names type client m t ≡ ok m'
    → IsSame m m'
respond_to-IsSame s a names type client m m' none e = subst (IsSame m) (ok_eq e) (IsSame-refl m)
respond_to-IsSame s a names type client m m' (some t) e =
    let (w, _, f) = >>=-eq-ok (willing s client t type) _ e in
    subst (IsSame m) (ok_eq f) (record { displays = refl; next_addr = refl; protos = refl })

all_query_respond-IsSame :
    (s : Site) (a : Arrival) (names : List Bytes) (type : Opcode) (m m' : Manager)
    → all_query_respond s a names type m ≡ ok m'
    → IsSame m m'
unfolding all_query_respond
all_query_respond-IsSame s a names type m m' e =
    respond_to-IsSame s a names type (convert_addr a.from.sa).1 m m' (convert_addr a.from.sa).0 e

pub direct_query_respond-IsSame :
    (s : Site) (a : Arrival) (names : Option (List Bytes)) (type : Opcode) (m m' : Manager)
    → direct_query_respond s a names type m ≡ ok m'
    → IsSame m m'
unfolding direct_query_respond
direct_query_respond-IsSame s a none type m m' e = subst (IsSame m) (ok_eq e) (IsSame-refl m)
direct_query_respond-IsSame s a (some names) type m m' e =
    elim (Bool-cases (a.length == 1 + sizes_of names)) [
      | inl y ↦ all_query_respond-IsSame s a names type m m' (rw y at e)
      | inr n ↦ subst (IsSame m) (ok_eq (rw n at e)) (IsSame-refl m)
    ]

local_as_well-IsSame :
    (s : Site) (a : Arrival) (names : List Bytes) (choices : List Choice) (m : Manager)
    (here : Bool) (r : Manager × List Choice)
    → local_as_well s a names choices m here ≡ ok r
    → IsSame m r.0
local_as_well-IsSame s a names choices m false r e =
    subst (λ (x : Manager × List Choice). IsSame m x.0) (ok_eq e) (IsSame-refl m)
local_as_well-IsSame s a names choices m true r e =
    let (m', f, g) = >>=-eq-ok (all_query_respond s a names indirect_query m) _ e in
    subst (λ (x : Manager × List Choice). IsSame m x.0) (ok_eq g)
      (all_query_respond-IsSame s a names indirect_query m m' f)

emit-IsSame :
    (es : List Effect) (m m' : Manager) → IsSame (with_daemon m (emit es m.daemon)) m' → IsSame m m'
emit-IsSame es m m' h = record { displays = h.displays; next_addr = h.next_addr; protos = h.protos }

forward_to_hosts-IsSame :
    (s : Site) (o : Route) (a : Arrival) (names : List Bytes) (choices : List Choice) (m : Manager)
    (r : Manager × List Choice)
    → forward_to_hosts s o a names choices m ≡ ok r
    → IsSame m r.0
forward_to_hosts-IsSame s o a names choices m r e =
    let client = (client_address a.from.sa).0 in
    let t = (client_address a.from.sa).1 in
    let (choices', _, f) =
      >>=-eq-ok (choices_after s o client t choices)
        (λ x. indirect_hosts s o client t choices >>= sent x) e in
    let (found, _, g) = >>=-eq-ok (indirect_hosts s o client t choices) (sent choices') f in
    emit-IsSame (es found) m r.0 (local_as_well-IsSame s a names choices' _ found.0 r g)
  where
    es : Found → List Effect
    es found =
        let client = (client_address a.from.sa).0 in
        let t = (client_address a.from.sa).1 in
        send_forwards o a (is_local_address s.interfaces client t) client
          (part (netaddr_port a.from.sa)) names found.1

    sent : List Choice → Found → Result (Manager × List Choice)
    sent x found = local_as_well s a names x (with_daemon m (emit (es found) m.daemon)) found.0

pub indirect_respond-IsSame :
    (s : Site) (o : Route) (a : Arrival) (names : Option (List Bytes)) (choices : List Choice)
    (m : Manager) (r : Manager × List Choice)
    → indirect_respond s o a names choices m ≡ ok r
    → IsSame m r.0
unfolding indirect_respond
indirect_respond-IsSame s o a none choices m r e =
    subst (λ (x : Manager × List Choice). IsSame m x.0) (ok_eq e) (IsSame-refl m)
indirect_respond-IsSame s o a (some names) choices m r e =
    elim (Bool-cases (a.length == 1 + sizes_of names)) [
      | inl y ↦ forward_to_hosts-IsSame s o a names choices m r (rw y at e)
      | inr n ↦
          subst (λ (x : Manager × List Choice). IsSame m x.0) (ok_eq (rw n at e)) (IsSame-refl m)
    ]

respond_to_forwarded-IsSame :
    (s : Site) (a : Arrival) (names : List Bytes) (m m' : Manager) (o : Option Netaddr)
    → respond_to_forwarded s a names m o ≡ ok m'
    → IsSame m m'
respond_to_forwarded-IsSame s a names m m' none e = subst (IsSame m) (ok_eq e) (IsSame-refl m)
respond_to_forwarded-IsSame s a names m m' (some client) e =
    all_query_respond-IsSame s (record a { from = client }) names forward_query m m' e

pub forward_respond-IsSame :
    (s : Site) (a : Arrival) (f : Option (Bytes × Bytes × List Bytes)) (m m' : Manager)
    → forward_respond s a f m ≡ ok m'
    → IsSame m m'
unfolding forward_respond
forward_respond-IsSame s a none m m' e = subst (IsSame m) (ok_eq e) (IsSame-refl m)
forward_respond-IsSame s a (some (client, port, names)) m m' e =
    elim (Bool-cases (a.length == (2 + length client) + (2 + length port) + (1 + sizes_of names))) [
      | inl y ↦
          respond_to_forwarded-IsSame s a names m m' (forwarded_client a.from.sa client port)
            (rw y at e)
      | inr n ↦ subst (IsSame m) (ok_eq (rw n at e)) (IsSame-refl m)
    ]
