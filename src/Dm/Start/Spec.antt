-- ===== src/Dm/Start/Spec.antt =====
-- What StartDisplay does to an idle display: it is removed, or left idle, or running with a session.
use mathlib.Core.Path.{subst}
use xdm.Base.{
  ℕ, Bool, true, false, if◌then◌else◌, Option, none, some, ℤ, ◌≡◌, refl, sym, ap, inl, inr,
  Bool-cases, Option-cases, some_eq, none_ne,
}
use xdm.Base.Result.{ok, >>=-eq-ok, ok_eq}
use xdm.Display.{Display, not_running, Daemon}
use xdm.Dpylist.Changes.{
  Changes, update-Changes, remove_display-Changes, deref-ok, Changes-update, Changes-trans,
}
use xdm.Dpylist.{update, remove_display}
use xdm.Dpylist.Laws.{at_addr, IsOrdered}
use xdm.Dm.Stop.{is_some}
use xdm.Dm.Status.{Processes, IsConsistent, IsValid, IsValid-but, Changes-IsValid}
use xdm.Dm.Start.{
  Host, start_server, authorize_local, prepare_local, prepare_foreign, launch, start_display,
  set_server, set_auth, no_ping, set_running, is_local, keep_if_up, prepare, launch_if_ready,
}
use xdm.Dm.Start.Steps.{
  IsIdle, Stage, Stage-emit, Stage-fork, Stage-update, start_server_loop-Stage,
}

-- After the preparation the display is still idle, or it is gone.
abbrev Prepared : ℕ → Daemon → Bool × Daemon → Type 0
Prepared a w (true, w') = Stage a w w'
Prepared a w (false, w') = Changes a none w w'

abbrev Launched : ℕ → Daemon → Daemon → Type 0
Launched a w w' =
    (out : Option Display) × Changes a out w w' × ((x : Display) → out ≡ some x → IsConsistent x)

idle-IsConsistent : (d : Display) → IsIdle d → IsConsistent d
idle-IsConsistent d (p, q) = subst (λ s. Processes s d.pid d.server_pid) (sym q) (ap is_some p)

is_some-false {ℓ} : {A : Type ℓ} (o : Option A) → is_some o ≡ false → o ≡ none
is_some-false none e = refl
is_some-false (some x) e = cc

pub IsIdle-of_status : (d : Display) → IsConsistent d → d.status ≡ not_running → IsIdle d
IsIdle-of_status d c e = (is_some-false d.pid (subst (λ s. Processes s d.pid d.server_pid) e c), e)

pub if-Stage :
    {a : ℕ} {w x y : Daemon} (b : Bool) → Stage a w x → Stage a w y → Stage a w (if b then x else y)
if-Stage true s t = s
if-Stage false s t = t

remove-Prepared : {a : ℕ} {w w' : Daemon} → Stage a w w' → Changes a none w (remove_display a w')
remove-Prepared {a} {w} {w'} s =
    let c = remove_display-Changes a w' s.now s.changes.ordered s.changes.self in
    Changes-trans s.changes c

module _ (h : Host) (a : ℕ) where
  pub authorize_local-Stage :
      {w w' : Daemon} (d : Display) → Stage a w w' → Stage a w (authorize_local h a d w')
  unfolding authorize_local
  authorize_local-Stage d s =
      if-Stage d.server.authorize
        (Stage-emit _
          (Stage-update (set_auth (h.set_local_authorization d)) (λ x. refl) (λ x i. i) s))
        s

  keep_if_up-Prepared :
      {w : Daemon} (r : Bool × Daemon)
      → Stage a w r.1
      → (r' : Bool × Daemon) → keep_if_up h a r ≡ ok r'
      → Prepared a w r'
  keep_if_up-Prepared {w} (true, w1) s r' e = subst (Prepared a w) (ok_eq e) s
  keep_if_up-Prepared {w} (false, w1) s r' e = subst (Prepared a w) (ok_eq e) (remove-Prepared s)

  start_server-Stage :
      (attempts : ℤ) {w : Daemon} (w' : Daemon)
      → Stage a w w'
      → (r : Bool × Daemon) → start_server h a attempts w' ≡ ok r
      → Stage a w r.1
  unfolding start_server
  start_server-Stage = start_server_loop-Stage h a h.patience 0

  prepare_local-Prepared :
      {w w' : Daemon} (d : Display)
      → Stage a w w'
      → (r : Bool × Daemon) → prepare_local h a d w' ≡ ok r
      → Prepared a w r
  unfolding prepare_local
  prepare_local-Prepared {w} {w'} d s r e =
      let s1 = authorize_local-Stage d (Stage-update no_ping (λ x. refl) (λ x i. i) s) in
      elim (Bool-cases (is_some d.server_pid)) [
        | inl up ↦ subst (Prepared a w) (ok_eq (rw up at e)) s1
        | inr down ↦
            let ready = authorize_local h a d (update a no_ping w') in
            let (r1, e1, e2) =
              >>=-eq-ok (start_server h a d.server.server_attempts ready) (keep_if_up h a)
                (rw down at e) in
            keep_if_up-Prepared r1 (start_server-Stage d.server.server_attempts ready s1 r1 e1) r e2
      ]

  prepare_foreign-Prepared :
      {w w' : Daemon} (d : Display)
      → Stage a w w'
      → (r : Bool × Daemon) → prepare_foreign h a d w' ≡ ok r
      → Prepared a w r
  unfolding prepare_foreign
  prepare_foreign-Prepared {w} d s r e = subst (Prepared a w) (ok_eq e) (
      if-Stage (is_some d.auth.authorizations)
        (Stage-update (set_auth (h.save_server_authorizations d)) (λ x. refl) (λ x i. i) s) s)

  launch-Launched : {w w' : Daemon} → Stage a w w' → Launched a w (launch h a w')
  unfolding launch
  launch-Launched {w} {w'} s = elim (Option-cases (h.fork w'.forks)) [
    | inl n ↦
        rw (n, launch)
          (let t = Stage-fork s in
            (
              some t.now,
              t.changes,
              λ x q. subst IsConsistent (some_eq q) (idle-IsConsistent t.now t.idle),
            ))
    | inr (p, e) ↦
        rw (e, launch)
          (let t = Stage-fork s in
            (
              some (set_running p t.now),
              Changes-update (set_running p) t.now (λ x. refl) t.changes,
              λ x q. subst IsConsistent (some_eq q) refl,
            ))
  ]

  launch_if_ready-Launched :
      {w : Daemon} (r : Bool × Daemon)
      → Prepared a w r
      → (w' : Daemon) → launch_if_ready h a r ≡ ok w'
      → Launched a w w'
  launch_if_ready-Launched {w} (true, w1) s w' e =
      subst (Launched a w) (ok_eq e) (launch-Launched s)
  launch_if_ready-Launched {w} (false, w1) c w' e =
      subst (Launched a w) (ok_eq e) (none, c, λ x q. absurd (none_ne q))

  prepare-Prepared :
      {w w' : Daemon} (d : Display)
      → Stage a w w'
      → (r : Bool × Daemon) → prepare h a d w' ≡ ok r
      → Prepared a w r
  prepare-Prepared d s r e = elim (Bool-cases (is_local d.display_type.location)) [
    | inl l ↦ prepare_local-Prepared d s r (rw l at e)
    | inr f ↦ prepare_foreign-Prepared d s r (rw f at e)
  ]

  start_display-Launched :
      (w : Daemon) (d : Display) {w' : Daemon}
      → IsOrdered w.next_addr w.displays
      → at_addr a w.displays ≡ some d
      → IsIdle d
      → start_display h a w ≡ ok w'
      → Launched a w w'
  unfolding start_display
  start_display-Launched w d {w'} o at idle e =
      let load = set_server (h.load_server_resources d) in
      let c = update-Changes a load w d (λ x. refl) o at in
      let loaded = update a load w in
      let s : Stage a w loaded = record { now = load d; changes = c; idle = idle } in
      let (r, e1, e2) =
        >>=-eq-ok (prepare h a (load d) loaded) (launch_if_ready h a)
          (rw (deref-ok a w d at, deref-ok a loaded (load d) c.self) at e) in
      launch_if_ready-Launched r (prepare-Prepared (load d) s r e1) w' e2

  -- StartDisplay on an idle display keeps the daemon valid, when it comes to its end, whatever the
  -- outcome of the forks, of the server and of the authorization.
  pub start_display-IsValid :
      (w : Daemon) (d : Display) {w' : Daemon}
      → IsValid w
      → at_addr a w.displays ≡ some d
      → d.status ≡ not_running
      → start_display h a w ≡ ok w'
      → IsValid w'
  start_display-IsValid w d v at st e =
      let idle = IsIdle-of_status d (v.consistent a d at) st in
      let (out, c, good) = start_display-Launched w d v.ordered at idle e in
      Changes-IsValid (IsValid-but a v) c good
