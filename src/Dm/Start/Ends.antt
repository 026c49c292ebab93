-- ===== src/Dm/Start/Ends.antt =====
-- StartDisplay comes to its end.
use xdm.Base.{ℤ, ℕ, ◌<◌, Bool, true, false, some, pos, ◌≡◌, refl, arith, inl, inr, Bool-cases}
use xdm.Base.Result.{Result, ok}
use xdm.Display.{Display, Daemon}
use xdm.Dpylist.{update}
use xdm.Dpylist.Laws.{at_addr, IsOrdered}
use xdm.Dpylist.Changes.{update-Changes, deref-ok}
use xdm.Dm.Stop.{is_some}
use xdm.Dm.Start.{
  Host, set_server, no_ping, authorize_local, is_local, start_server, keep_if_up, prepare_local,
  prepare_foreign, prepare, launch_if_ready, start_display,
}
use xdm.Dm.Start.Steps.{start_server_loop-returns}

abbrev Ends : {A : Type 0} → Result A → Type 0
Ends {A} r = (a : A) × (r ≡ ok a)

module _ (h : Host) (a : ℕ) where
  keep_if_up-Ends : (r : Bool × Daemon) → Ends (keep_if_up h a r)
  keep_if_up-Ends (true, w) = (_, refl)
  keep_if_up-Ends (false, w) = (_, refl)

  launch_if_ready-Ends : (r : Bool × Daemon) → Ends (launch_if_ready h a r)
  launch_if_ready-Ends (true, w) = (_, refl)
  launch_if_ready-Ends (false, w) = (_, refl)

  start_server-Ends :
      (attempts : ℤ) (n : ℕ) (w : Daemon)
      → attempts ≡ pos n
      → 0 < n
      → n < h.patience
      → Ends (start_server h a attempts w)
  unfolding start_server
  start_server-Ends attempts n w e p lt =
      rw e (start_server_loop-returns h a h.patience 0 n w (omega arith) (omega arith) p)

  prepare-Ends :
      (d : Display) (n : ℕ) (w : Daemon)
      → d.server.server_attempts ≡ pos n
      → 0 < n
      → n < h.patience
      → Ends (prepare h a d w)
  unfolding prepare_local prepare_foreign
  prepare-Ends d n w e p lt = elim (Bool-cases (is_local d.display_type.location)) [
    | inr f ↦ rw f (_, refl)
    | inl l ↦ rw l (elim (Bool-cases (is_some d.server_pid)) [
      | inl y ↦ rw y (_, refl)
      | inr m ↦
          let (r, q) =
            start_server-Ends d.server.server_attempts n
              (authorize_local h a d (update a no_ping w)) e p lt in
          rw (m, q) (keep_if_up-Ends r)
    ])
  ]

  -- StartDisplay of a display of the list comes to its end, with no use of freed memory, when the
  -- resources set serverAttempts and the fuel is more than that, whatever the forks, the servers and the
  -- authorization do.
  pub start_display-returns :
      (w : Daemon) (d : Display) (n : ℕ)
      → IsOrdered w.next_addr w.displays
      → at_addr a w.displays ≡ some d
      → (h.load_server_resources d).server_attempts ≡ pos n
      → 0 < n
      → n < h.patience
      → (w' : Daemon) × (start_display h a w ≡ ok w')
  unfolding start_display
  start_display-returns w d n o at e p lt =
      let load = set_server (h.load_server_resources d) in
      let loaded = update a load w in
      let c = update-Changes a load w d (λ x. refl) o at in
      let (r, q) = prepare-Ends (load d) n loaded e p lt in
      rw (deref-ok a w d at, deref-ok a loaded (load d) c.self, q) (launch_if_ready-Ends r)
