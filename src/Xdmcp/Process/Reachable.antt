-- ===== src/Xdmcp/Process/Reachable.antt =====
-- The main loop from its start on: who gets a session.
use mathlib.Core.Path.{subst}
use xdm.Base.{ℕ, List, [], ◌∷◌, none, some, ◌≡◌, ◌⊎◌, inl, inr, refl, none_ne}
use xdm.Base.Result.{ok, ok_eq, >>=-eq-ok}
use xdm.Netaddr.{Netaddr}
use xdm.Display.{Daemon}
use xdm.Dm.Status.{IsValid}
use xdm.Dm.Start.{add_display}
use xdm.Dm.Child.{wait_for_child, rescan_servers}
use xdm.Dm.Child.Rounds.{wait_for_child-IsValid, rescan_servers-IsValid, add_display-IsValid}
use xdm.Xdmcp.Request.{Server}
use xdm.Xdmcp.Spec.{Protocol, view, Event, claims, Moves, answers, accepts, begins}
use xdm.Xdmcp.Process.{
  Datagram, Listener, Outside, set_daemon, process_request_socket, Input, packet, children, rescan,
  add_one, step, run,
}
use xdm.Xdmcp.Process.Refines.{IsGood, event, process_request_socket-Moves}
use xdm.Xdmcp.Process.Admits.{first, later, Admits, WasAdmitted, packet-Admits}

-- The reaping of children and the rescan change the displays only.
set_daemon-IsGood :
    (l : Listener) (w : Daemon) → IsGood l.server → IsValid w → IsGood (set_daemon l w).server
set_daemon-IsGood l w g v = record { distinct = g.distinct; valid = v }

-- Where the step leads: to a good server, whose table has no entry that was not there or is admitted by
-- the step.
pub record Arrives (x : Outside × Input) (v w : Server) : Type 0 where
  pub good : IsGood w
  pub admitted :
      (b : Netaddr) (n id : ℕ)
      → (view w).session b n ≡ some id
      → ((view v).session b n ≡ some id) ⊎ Admits b n x

step-Arrives :
    (x : Outside × Input) (l l' : Listener)
    → IsGood l.server
    → step x.0 x.1 l ≡ ok l'
    → Arrives x l.server l'.server
unfolding step process_request_socket
step-Arrives (o, packet none) l l' g e =
    subst (λ (y : Listener). Arrives (o, packet none) l.server y.server) (ok_eq e)
      (record { good = g; admitted = λ b n id f. inl f })
step-Arrives (o, packet (some d)) l l' g e = record {
  good = (process_request_socket-Moves o d l l' g e).1;
  admitted = λ b n id f. packet-Admits o d b n id l l' g e f;
}
step-Arrives (o, children rounds) l l' g e =
    let (w, e1, e2) = >>=-eq-ok (wait_for_child o.host rounds l.server.manager.daemon) _ e in
    subst (λ (y : Listener). Arrives (o, children rounds) l.server y.server) (ok_eq e2)
      (record {
        good =
            set_daemon-IsGood l w g
              (wait_for_child-IsValid o.host rounds l.server.manager.daemon w g.valid e1);
        admitted = λ b n id f. inl f;
      })
step-Arrives (o, add_one) l l' g e =
    let (w, e1, e2) = >>=-eq-ok (add_display o.host l.server.manager.daemon) _ e in
    subst (λ (y : Listener). Arrives (o, add_one) l.server y.server) (ok_eq e2)
      (record {
        good =
            set_daemon-IsGood l w g
              (add_display-IsValid o.host l.server.manager.daemon w g.valid e1);
        admitted = λ b n id f. inl f;
      })
step-Arrives (o, rescan lines) l l' g e =
    let (w, e1, e2) = >>=-eq-ok (rescan_servers o.host lines l.server.manager.daemon) _ e in
    subst (λ (y : Listener). Arrives (o, rescan lines) l.server y.server) (ok_eq e2)
      (record {
        good =
            set_daemon-IsGood l w g
              (rescan_servers-IsValid o.host lines l.server.manager.daemon w g.valid e1);
        admitted = λ b n id f. inl f;
      })

run-admitted :
    (log : List (Outside × Input)) (l l' : Listener)
    → IsGood l.server
    → run log l ≡ ok l'
    → IsGood l'.server
      × ((b : Netaddr) (n id : ℕ)
          → (view l'.server).session b n ≡ some id
          → ((view l.server).session b n ≡ some id) ⊎ WasAdmitted b n log)
unfolding run
run-admitted [] l l' g e =
    subst
      (λ (y : Listener).
        IsGood y.server
        × ((b : Netaddr) (n id : ℕ)
            → (view y.server).session b n ≡ some id
            → ((view l.server).session b n ≡ some id) ⊎ WasAdmitted b n []))
      (ok_eq e) (g, λ b n id f. inl f)
run-admitted (x ∷ log) l l' g e =
    let (l1, e1, e2) = >>=-eq-ok (step x.0 x.1 l) (run log) e in
    let h = step-Arrives x l l1 g e1 in
    let (good, rest) = run-admitted log l1 l' h.good e2 in
    (
      good,
      λ b n id f. elim (rest b n id f) [
        | inr k ↦ inr (later k)
        | inl k ↦ elim (h.admitted b n id k) [ inl j ↦ inl j | inr j ↦ inr (first j) ]
      ],
    )

-- From a good server with no accepted displays, whatever sequence of packets, ends of children and rescans the main loop takes, if its
-- handlers come to their ends: the displays' status agrees with their processes, no display is accepted twice, and every
-- accepted display has sent a REQUEST that the access file of its time admitted.
pub run-WasAdmitted :
    (log : List (Outside × Input)) (l l' : Listener)
    → IsGood l.server
    → l.server.manager.protos.proto_displays ≡ []
    → run log l ≡ ok l'
    → IsGood l'.server
      × ((b : Netaddr) (n id : ℕ) → (view l'.server).session b n ≡ some id → WasAdmitted b n log)
run-WasAdmitted log l l' g empty e =
    let (good, rest) = run-admitted log l l' g e in
    (
      good,
      λ b n id f. elim (rest b n id f) [ inr k ↦ k | inl k ↦ absurd (none_ne (rw empty at k)) ],
    )

-- Who claims a session of the table.
record Claims (x : Protocol) (e : Event) : Type 0 where
  address : Netaddr
  number : ℕ
  session_id : ℕ
  claim : e ≡ claims address number session_id
  entry : x.session address number ≡ some session_id

Moves-Claims : {x y : Protocol} {e : Event} → Moves x y e → (y.displays ≡ x.displays) ⊎ Claims x e
Moves-Claims (answers h l d) = inl d
Moves-Claims (accepts f s h l d) = inl d
Moves-Claims {x} (begins {a} {n} {id} f h l) =
    inr (record { address = a; number = n; session_id = id; claim = refl; entry = f })

-- After any such sequence, a packet changes the displays only if it is a MANAGE of a display that has sent a REQUEST which the
-- access file of its time admitted.
pub run-process_request_socket :
    (log : List (Outside × Input)) (o : Outside) (d : Datagram) (l l1 l2 : Listener)
    → IsGood l.server
    → l.server.manager.protos.proto_displays ≡ []
    → run log l ≡ ok l1
    → process_request_socket o (some d) l1 ≡ ok l2
    → (l2.server.manager.daemon.displays ≡ l1.server.manager.daemon.displays)
      ⊎ ((b : Netaddr) × (n : ℕ) × (id : ℕ) × (event d ≡ claims b n id) × WasAdmitted b n log)
run-process_request_socket log o d l l1 l2 g empty e f =
    let (good, admitted) = run-WasAdmitted log l l1 g empty e in
    elim (Moves-Claims (process_request_socket-Moves o d l1 l2 good f).0) [
      | inl same ↦ inl same
      | inr c ↦ inr (
        c.address,
        c.number,
        c.session_id,
        c.claim,
        admitted c.address c.number c.session_id c.entry,
      )
    ]
