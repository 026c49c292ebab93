-- ===== src/Xdmcp/Manage/Disposal.antt =====
-- A MANAGE disposes of the accepted display at most, whatever becomes of the session.
use mathlib.Core.Path.{subst}
use xdm.Base.{
  ℕ, ◌+◌, not, ◌&&◌, ◌==◌, some, Bytes, codes, length, ◌≡◌, inl, inr, refl, sym, ap, ◌∙◌,
  Bool-cases, Option-cases,
}
use xdm.Base.Result.{Result, ok, ok_eq, >>=-eq-ok}
use xdm.Display.{Daemon}
use xdm.Dpylist.{update, new_display}
use xdm.Protodpy.{ProtoDisplay, Protos, find_proto_display, dispose_proto_display}
use xdm.Protodpy.Drops.{AreDistinct, Drops, Drops-refl, dispose_proto_display-Drops}
use xdm.Dm.Start.{Host, start_display}
use xdm.Xdmcp.Manage.{
  Manager, Arrival, Surroundings, with_daemon, answer, refuse, set_client, stop_named,
  wants_chooser, begin_session, make_display, go_on, admit, manage,
}
use xdm.Xdmcp.Manage.Admission.{refuse_unknown-either}

-- The accepted displays at the end, if the step comes to it, are those that were there, or some of them.
abbrev Ends : Protos → Result Manager → Type 0
Ends ps r = (m' : Manager) → r ≡ ok m' → Drops ps.proto_displays m'.protos.proto_displays

module _ (ps : Protos) (d : AreDistinct ps.proto_displays) where
  ok-Ends : (m : Manager) → m.protos ≡ ps → Ends ps (ok m)
  ok-Ends m q m' e =
      subst (λ (x : Protos). Drops ps.proto_displays x.proto_displays)
        (sym q ∙ ap (λ (x : Manager). x.protos) (ok_eq e)) (Drops-refl ps.proto_displays d)

  module _ (h : Host) (s : Surroundings) (a : Arrival) (p : ProtoDisplay) where
    begin_session-Ends :
        (m : Manager) (w : Daemon) (at : ℕ) → m.protos ≡ ps → Ends ps (begin_session h s a m p w at)
    begin_session-Ends m w at q m' e =
        let (w', e1, e2) =
          >>=-eq-ok (start_display h at (update at (set_client a p (wants_chooser h s a m)) w)) _
            e in
        subst (λ (x : Manager). Drops ps.proto_displays x.protos.proto_displays) (ok_eq e2)
          (subst
            (λ (x : Protos).
              Drops ps.proto_displays (dispose_proto_display p.addr x).proto_displays)
            (sym q) (dispose_proto_display-Drops p.addr ps d))

    make_display-Ends :
        (m : Manager) (id : ℕ) (name class : Bytes)
        → m.protos ≡ ps
        → Ends ps (make_display h s a m p id name class)
    unfolding new_display
    make_display-Ends m id name class q m' e = elim (Bool-cases s.display_memory) [
      | inl y ↦ begin_session-Ends m _ _ q m' (rw y at e)
      | inr n ↦ ok-Ends (answer a m id name (codes "out of memory")) q m' (rw n at e)
    ]

    go_on-Ends :
        (m : Manager) (id : ℕ) (name class : Bytes) (w : Daemon)
        → m.protos ≡ ps
        → Ends ps (go_on h s a m p id name class w)
    go_on-Ends m id name class w q m' e =
        elim (Bool-cases (not (s.class_memory && s.from_memory))) [
          | inl y ↦
              ok-Ends (answer a (with_daemon m w) id name (codes "out of memory")) q m' (rw y at e)
          | inr n ↦ make_display-Ends (with_daemon m w) id name class q m' (rw n at e)
        ]

    admit-Ends :
        (m : Manager) (id : ℕ) (class : Bytes) → m.protos ≡ ps → Ends ps (admit h s a m p id class)
    unfolding admit
    admit-Ends m id class q m' e = elim (Option-cases (s.name_of p)) [
      | inl n ↦
          ok-Ends (answer a m id (codes "(no name)") (codes "out of memory")) q m'
            (rw (n, admit) at e)
      | inr (name, f) ↦
          let (w, e1, e2) =
            >>=-eq-ok (stop_named name m.daemon) (go_on h s a m p id name class)
              (rw (f, admit) at e) in
          go_on-Ends m id name class w q m' e2
    ]

pub manage-Drops :
    (h : Host) (s : Surroundings) (a : Arrival) (id n : ℕ) (class : Bytes) (m m' : Manager)
    → AreDistinct m.protos.proto_displays
    → manage h s a (some (id, n, class)) m ≡ ok m'
    → Drops m.protos.proto_displays m'.protos.proto_displays
unfolding manage
manage-Drops h s a id n class m m' d e = elim (Bool-cases (4 + 2 + 2 + length class == a.length)) [
  | inr bad ↦ ok-Ends m.protos d m refl m' (rw bad at e)
  | inl good ↦ elim (Option-cases (find_proto_display a.from n m.protos)) [
    | inr (p, q) ↦ elim (Bool-cases (p.session_id == id)) [
      | inl y ↦ admit-Ends m.protos d h s a p m id class refl m' (rw (good, q, y) at e)
      | inr ne ↦ ok-Ends m.protos d (refuse a m id) refl m' (rw (good, q, ne) at e)
    ]
    | inl q ↦ elim (refuse_unknown-either h s a m id n) [
      | inl f ↦ ok-Ends m.protos d m refl m' (ap ok (sym f) ∙ (rw (good, q) at e))
      | inr f ↦ ok-Ends m.protos d (refuse a m id) refl m' (ap ok (sym f) ∙ (rw (good, q) at e))
    ]
  ]
]
