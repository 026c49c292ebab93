-- ===== src/Dm/Start/Progress.antt =====
-- StartDisplay on a host where forks and X servers succeed.
use xdm.Base.{ℕ, suc, true, false, some, ℤ, ◌≡◌, refl, inl, inr, Bool-cases}
use xdm.Base.Result.{ok}
use xdm.Display.{Display, running, Daemon}
use xdm.Dpylist.Changes.{Changes, update-Changes, deref-ok, Changes-update}
use xdm.Dpylist.{update}
use xdm.Dpylist.Laws.{at_addr, IsOrdered}
use xdm.Dm.Stop.{is_some}
use xdm.Dm.Start.{
  Host, start_server_once, start_server_loop, start_server, prepare_local, prepare_foreign, launch,
  start_display, may_try, set_server, set_server_pid, set_auth, no_ping, set_running, is_local,
  prepare,
}
use xdm.Dm.Start.Steps.{IsIdle, Stage, Stage-fork, Stage-update}
use xdm.Dm.Start.Spec.{authorize_local-Stage, if-Stage}

-- Every fork succeeds, a server that is started stays up, and the server's resources allow for an
-- attempt.
pub record IsWorking (h : Host) : Type 0 where
  pub forks : (n : ℕ) → (pid : ℕ) × (h.fork n ≡ some pid)
  pub lives : (n : ℕ) → h.server_dead n ≡ false
  pub tries : (d : Display) → may_try (h.load_server_resources d).server_attempts 0 ≡ true
  pub patient : (n : ℕ) × (h.patience ≡ suc n)

-- The display runs a session.
abbrev pub IsUp : Display → Type 0
IsUp d = (d.status ≡ running) × (is_some d.pid ≡ true)

module _ (h : Host) (works : IsWorking h) (a : ℕ) where
  start_server_once-up :
      {w w' : Daemon}
      → Stage a w w'
      → (w1 : Daemon) × (start_server_once h a w' ≡ ok (true, w1)) × Stage a w w1
  unfolding start_server_once
  start_server_once-up {w} {w'} s =
      let (pid, e) = works.forks w'.forks in
      rw (e, start_server_once, works.lives w'.forks)
        (_, refl, Stage-update (set_server_pid (some pid)) (λ x. refl) (λ x i. i) (Stage-fork s))

  start_server-up :
      (attempts : ℤ) {w w' : Daemon}
      → may_try attempts 0 ≡ true
      → Stage a w w'
      → (w1 : Daemon) × (start_server h a attempts w' ≡ ok (true, w1)) × Stage a w w1
  unfolding start_server start_server_loop
  start_server-up attempts {w} {w'} m s =
      let (w1, e, s1) = start_server_once-up s in
      let (n, p) = works.patient in rw (p, m, e) (w1, refl, s1)

  prepare_foreign-up :
      (d : Display) {w w' : Daemon}
      → Stage a w w'
      → (w1 : Daemon) × (prepare_foreign h a d w' ≡ ok (true, w1)) × Stage a w w1
  unfolding prepare_foreign
  prepare_foreign-up d s = (
    _,
    refl,
    if-Stage (is_some d.auth.authorizations)
        (Stage-update (set_auth (h.save_server_authorizations d)) (λ x. refl) (λ x i. i) s) s,
  )

  prepare_local-up :
      (d : Display) {w w' : Daemon}
      → may_try d.server.server_attempts 0 ≡ true
      → Stage a w w'
      → (w1 : Daemon) × (prepare_local h a d w' ≡ ok (true, w1)) × Stage a w w1
  unfolding prepare_local
  prepare_local-up d {w} {w'} m s =
      let s1 = authorize_local-Stage h a d (Stage-update no_ping (λ x. refl) (λ x i. i) s) in
      elim (Bool-cases (is_some d.server_pid)) [
        | inl up ↦ rw up (_, refl, s1)
        | inr down ↦
            let (w1, e, s2) = start_server-up d.server.server_attempts m s1 in
            rw (down, e) (w1, refl, s2)
      ]

  prepare-up :
      (d : Display) {w w' : Daemon}
      → may_try d.server.server_attempts 0 ≡ true
      → Stage a w w'
      → (w1 : Daemon) × (prepare h a d w' ≡ ok (true, w1)) × Stage a w w1
  prepare-up d m s = elim (Bool-cases (is_local d.display_type.location)) [
    | inl y ↦ rw y (prepare_local-up d m s)
    | inr n ↦ rw n (prepare_foreign-up d s)
  ]

  launch-IsUp :
      {w w' : Daemon} → Stage a w w' → (d : Display) × Changes a (some d) w (launch h a w') × IsUp d
  unfolding launch
  launch-IsUp {w} {w'} s =
      let (pid, e) = works.forks w'.forks in
      let f = Stage-fork s in
      rw (e, launch)
        (
          set_running pid f.now,
          Changes-update (set_running pid) f.now (λ x. refl) f.changes,
          (refl, refl),
        )

  -- On a host where forks and servers succeed, StartDisplay comes to its end with an idle display's session
  -- running, and changes no other display.
  pub start_display-IsUp :
      (w : Daemon) (d : Display)
      → IsOrdered w.next_addr w.displays
      → at_addr a w.displays ≡ some d
      → IsIdle d
      → (w' : Daemon) × (start_display h a w ≡ ok w')
        × ((d' : Display) × Changes a (some d') w w' × IsUp d')
  unfolding start_display
  start_display-IsUp w d o at idle =
      let load = set_server (h.load_server_resources d) in
      let loaded = update a load w in
      let c = update-Changes a load w d (λ x. refl) o at in
      let s : Stage a w loaded = record { now = load d; changes = c; idle = idle } in
      let (w1, e, s1) = prepare-up (load d) (works.tries d) s in
      rw (deref-ok a w d at, deref-ok a loaded (load d) c.self, e)
        (launch h a w1, refl, launch-IsUp s1)
