-- ===== src/Xdmcp/Manage/Admission.antt =====
-- Who gets a session by a MANAGE, and that the list of displays stays valid.
use mathlib.Core.Path.{subst}
use xdm.Base.{
  ℕ, ◌+◌, List, true, not, ◌&&◌, ◌==◌, ==_iff, Option, some, Bytes, codes, length, ◌≡◌, ◌⊎◌, inl,
  inr, refl, sym, ap, ◌∙◌, Bool-cases, Option-cases, some_eq,
}
use xdm.Base.Result.{Result, ok, ok_eq, >>=-eq-ok}
use xdm.Display.{Effect, Daemon}
use xdm.Dpylist.{
  emit, update, find_display_by_name, find_display_by_address, new_display, blank_display,
}
use xdm.Dpylist.Laws.{find?-at_addr}
use xdm.Dpylist.Changes.{Changes-update, new_display-Changes}
use xdm.Protodpy.{ProtoDisplay, find_proto_display}
use xdm.Dm.Start.{Host, start_display}
use xdm.Dm.Start.Spec.{start_display-IsValid}
use xdm.Dm.Status.{IsConsistent, IsValid, IsValid-but, Changes-IsValid, stop_display-IsValid}
use xdm.Xdmcp.Manage.{
  Manager, Arrival, Surroundings, with_daemon, answer, refuse, set_client, stop_named, class_of,
  wants_chooser, begin_session, make_display, go_on, admit, refuse_unknown, manage,
}

-- The manager's daemon is valid, if the step comes to its end.
abbrev EndsValid : Result Manager → Type 0
EndsValid r = (m' : Manager) → r ≡ ok m' → IsValid m'.daemon

emit-IsValid : {w : Daemon} → IsValid w → (es : List Effect) → IsValid (emit es w)
emit-IsValid v es = record { ordered = v.ordered; consistent = v.consistent }

ok-EndsValid : (m : Manager) → IsValid m.daemon → EndsValid (ok m)
ok-EndsValid m v m' e = subst (λ (x : Manager). IsValid x.daemon) (ok_eq e) v

stop_named-IsValid :
    (name : Bytes) (w w' : Daemon) → IsValid w → stop_named name w ≡ ok w' → IsValid w'
unfolding find_display_by_name
stop_named-IsValid name w w' v e = elim (Option-cases (find_display_by_name name w)) [
  | inl n ↦ subst IsValid (ok_eq (rw (n, stop_named) at e)) v
  | inr (d, q) ↦
      let (w1, e1, good) =
        stop_display-IsValid d.addr w d (IsValid-but d.addr v)
          (find?-at_addr _ w.next_addr w.displays v.ordered q) in
      subst IsValid (ok_eq (sym e1 ∙ (rw (q, stop_named) at e))) good
]

module _ (h : Host) (s : Surroundings) where
  begin_session-EndsValid :
      (a : Arrival) (m : Manager) (p : ProtoDisplay) (name : Bytes) (class : Option Bytes)
      → IsValid m.daemon
      → EndsValid
          (begin_session h s a m p (new_display true name class m.daemon).1 m.daemon.next_addr)
  begin_session-EndsValid a m p name class v m' e =
      let at = m.daemon.next_addr in
      let f = set_client a p (wants_chooser h s a m) in
      let w = (new_display true name class m.daemon).1 in
      let c =
        Changes-update f (blank_display at name class) (λ x. refl)
          (new_display-Changes name class m.daemon v.ordered) in
      let good : IsValid (update at f w) =
        Changes-IsValid (IsValid-but at v) c (λ x q. subst IsConsistent (some_eq q) refl) in
      let (w', e1, e2) = >>=-eq-ok (start_display h at (update at f w)) _ e in
      subst (λ (x : Manager). IsValid x.daemon) (ok_eq e2)
        (start_display-IsValid h at (update at f w) (f (blank_display at name class)) good c.self
          refl e1)

  make_display-EndsValid :
      (a : Arrival) (m : Manager) (p : ProtoDisplay) (id : ℕ) (name class : Bytes)
      → IsValid m.daemon
      → EndsValid (make_display h s a m p id name class)
  unfolding new_display
  make_display-EndsValid a m p id name class v m' e = elim (Bool-cases s.display_memory) [
    | inl y ↦ begin_session-EndsValid a m p name (class_of class) v m' (rw y at e)
    | inr n ↦
        ok-EndsValid (answer a m id name (codes "out of memory")) (emit-IsValid v _) m' (rw n at e)
  ]

  go_on-EndsValid :
      (a : Arrival) (m : Manager) (p : ProtoDisplay) (id : ℕ) (name class : Bytes) (w : Daemon)
      → IsValid w
      → EndsValid (go_on h s a m p id name class w)
  go_on-EndsValid a m p id name class w v m' e =
      elim (Bool-cases (not (s.class_memory && s.from_memory))) [
        | inl y ↦
            ok-EndsValid (answer a (with_daemon m w) id name (codes "out of memory"))
              (emit-IsValid v _) m' (rw y at e)
        | inr n ↦ make_display-EndsValid a (with_daemon m w) p id name class v m' (rw n at e)
      ]

  admit-EndsValid :
      (a : Arrival) (m : Manager) (p : ProtoDisplay) (id : ℕ) (class : Bytes)
      → IsValid m.daemon
      → EndsValid (admit h s a m p id class)
  unfolding admit
  admit-EndsValid a m p id class v m' e = elim (Option-cases (s.name_of p)) [
    | inl n ↦
        ok-EndsValid (answer a m id (codes "(no name)") (codes "out of memory")) (emit-IsValid v _)
          m' (rw (n, admit) at e)
    | inr (name, q) ↦
        let (w, e1, e2) =
          >>=-eq-ok (stop_named name m.daemon) (go_on h s a m p id name class)
            (rw (q, admit) at e) in
        go_on-EndsValid a m p id name class w (stop_named-IsValid name m.daemon w v e1) m' e2
  ]

  pub refuse_unknown-either :
      (a : Arrival) (m : Manager) (id n : ℕ)
      → (refuse_unknown h s a m id n ≡ m) ⊎ (refuse_unknown h s a m id n ≡ refuse a m id)
  refuse_unknown-either a m id n = elim (Option-cases (find_display_by_address a.from n m.daemon)) [
    | inl q ↦ inr (rw (q, refuse_unknown) refl)
    | inr (d, q) ↦ elim (Bool-cases (d.session_id == id)) [
      | inl y ↦ inl (rw (q, refuse_unknown, y) refl)
      | inr ne ↦ inr (rw (q, refuse_unknown, ne) refl)
    ]
  ]

  -- A MANAGE either leaves the displays and the accepted ones as they are, or its sender, display number
  -- and session are those of a display that was accepted and has not begun its session yet.
  pub manage-find_proto_display :
      (a : Arrival) (id n : ℕ) (class : Bytes) (m m' : Manager)
      → manage h s a (some (id, n, class)) m ≡ ok m'
      → ((m'.daemon.displays ≡ m.daemon.displays) × (m'.protos ≡ m.protos))
        ⊎ ((p : ProtoDisplay) × (find_proto_display a.from n m.protos ≡ some p)
            × (p.session_id ≡ id))
  unfolding manage
  manage-find_proto_display a id n class m m' e =
      elim (Bool-cases (4 + 2 + 2 + length class == a.length)) [
        | inr bad ↦ inl (same m (rw bad at e))
        | inl good ↦ elim (Option-cases (find_proto_display a.from n m.protos)) [
          | inl q ↦ inl (by_display (rw (good, q) at e))
          | inr (p, q) ↦ elim (Bool-cases (p.session_id == id)) [
            | inl y ↦ inr (p, q, (==_iff p.session_id id).0 y)
            | inr ne ↦ inl (same (refuse a m id) (rw (good, q, ne) at e))
          ]
        ]
      ]
    where
      same :
          (x : Manager)
          → ok x ≡ ok m'
          → (m'.daemon.displays ≡ x.daemon.displays) × (m'.protos ≡ x.protos)
      same x q = (
        ap (λ (y : Manager). y.daemon.displays) (sym (ok_eq q)),
        ap (λ (y : Manager). y.protos) (sym (ok_eq q)),
      )

      by_display :
          ok (refuse_unknown h s a m id n) ≡ ok m'
          → (m'.daemon.displays ≡ m.daemon.displays) × (m'.protos ≡ m.protos)
      by_display e = elim (refuse_unknown-either a m id n) [
        | inl q ↦ same m (ap ok (sym q) ∙ e)
        | inr q ↦ same (refuse a m id) (ap ok (sym q) ∙ e)
      ]

  -- A MANAGE keeps every display's status in agreement with its processes, whatever it asks for, when
  -- its handler comes to its end.
  pub manage-IsValid :
      (a : Arrival) (id n : ℕ) (class : Bytes) (m m' : Manager)
      → IsValid m.daemon
      → manage h s a (some (id, n, class)) m ≡ ok m'
      → IsValid m'.daemon
  unfolding manage
  manage-IsValid a id n class m m' v e = elim (Bool-cases (4 + 2 + 2 + length class == a.length)) [
    | inr bad ↦ ok-EndsValid m v m' (rw bad at e)
    | inl good ↦ elim (Option-cases (find_proto_display a.from n m.protos)) [
      | inl q ↦ by_display (rw (good, q) at e)
      | inr (p, q) ↦ elim (Bool-cases (p.session_id == id)) [
        | inl y ↦ admit-EndsValid a m p id class v m' (rw (good, q, y) at e)
        | inr ne ↦ ok-EndsValid (refuse a m id) (emit-IsValid v _) m' (rw (good, q, ne) at e)
      ]
    ]
  ]
    where
      by_display : ok (refuse_unknown h s a m id n) ≡ ok m' → IsValid m'.daemon
      by_display e = elim (refuse_unknown-either a m id n) [
        | inl q ↦ ok-EndsValid m v m' (ap ok (sym q) ∙ e)
        | inr q ↦ ok-EndsValid (refuse a m id) (emit-IsValid v _) m' (ap ok (sym q) ∙ e)
      ]
