-- ===== src/Dm/Child/Rounds.antt =====
-- The whole of WaitForChild and of RescanServers keeps the list of displays valid.
use mathlib.Core.Path.{subst}
use xdm.Base.{
  ℕ, Bool, true, not, ◌&&◌, List, [], ◌∷◌, Option, none, some, Bytes, ◌≡◌, refl, sym, ◌∙◌, inl, inr,
  Bool-cases, arith, Option-cases, and_true, some_eq,
}
use xdm.Base.Result.{ok, ◌>>=◌, ok_eq, fault_ne, >>=-eq-ok}
use xdm.Display.{
  Display, DisplayStatus, running, not_running, zombie, phoenix, FileState, new_entry, old_entry,
  missing_entry, Daemon,
}
use xdm.Dpylist.{
  deref, update, find_display_by_pid, find_display_by_server_pid, for_each_display, until_display,
  is_xdmcp,
}
use xdm.Dpylist.Changes.{update-Changes, deref-ok}
use xdm.Dpylist.Laws.{at_addr, find?-at_addr}
use xdm.Dpylist.Each.{Keeps, deref-at_addr, deref-none, for_each_display-Keeps, until_display-Keeps}
use xdm.Dm.Stop.{stop_display}
use xdm.Dm.Start.{
  Host, set_state, is_not_running, is_permanent, start_display, start_if_idle, check_display_status,
  start_displays, add_dynamic_display, add_display,
}
use xdm.Dm.Start.Spec.{start_display-IsValid}
use xdm.Dm.Status.{IsConsistent, IsValid, IsValid-but, Changes-IsValid, stop_display-IsValid}
use xdm.File.{parse_display}
use xdm.File.Parse.{parse_display-IsValid}
use xdm.Dm.Child.{
  write, mark_display, scan_servers, rescan_servers, rescan_if_mod, reap, reap_all, wait_for_child,
  acceptable_types, Round,
}
use xdm.Dm.Child.Outcome.{reap_session-Outcome}
use xdm.Dm.Child.Server.{reap_server-IsValid}

update-IsValid :
    (a : ℕ) (f : Display → Display) (w : Daemon) (d : Display)
    → ((x : Display) → (f x).addr ≡ x.addr)
    → ((x : Display) → IsConsistent x → IsConsistent (f x))
    → IsValid w
    → at_addr a w.displays ≡ some d
    → IsValid (update a f w)
update-IsValid a f w d keeps good v h =
    Changes-IsValid (IsValid-but a v) (update-Changes a f w d keeps v.ordered h)
      (λ x q. subst IsConsistent (some_eq q) (good d (v.consistent a d h)))

mark_display-Keeps : (a : ℕ) → Keeps IsValid (mark_display a)
unfolding mark_display write
mark_display-Keeps a w w' v e =
    let (d, e1, e2) = >>=-eq-ok (deref a w) (λ d. ok (update a (set_state missing_entry) w)) e in
    subst IsValid (ok_eq e2) (
      update-IsValid a (set_state missing_entry) w d (λ x. refl) (λ x c. c) v
        (deref-at_addr a w e1))

scan_servers-Keeps : (lines : List (Bool × Bytes)) → Keeps IsValid (scan_servers lines)
unfolding scan_servers
scan_servers-Keeps [] w w' v e = subst IsValid (ok_eq e) v
scan_servers-Keeps ((memory, line) ∷ rest) w w' v e =
    let (w1, e1, e2) =
      >>=-eq-ok (parse_display memory acceptable_types line w) (scan_servers rest) e in
    scan_servers-Keeps rest w1 w' (parse_display-IsValid memory acceptable_types line w v e1) e2

rescan_if_mod-Keeps :
    (h : Host) (file : Option (List (Bool × Bytes))) → Keeps IsValid (rescan_if_mod h file)
unfolding rescan_if_mod
rescan_if_mod-Keeps h none w w' v e = subst IsValid (ok_eq e) v
rescan_if_mod-Keeps h (some lines) w w' v e =
    let (w1, e1, e2) = >>=-eq-ok (for_each_display mark_display w) (scan_servers lines) e in
    scan_servers-Keeps lines w1 w'
      (for_each_display-Keeps IsValid mark_display mark_display-Keeps w w1 v e1) e2

stop_display-Keeps :
    (a : ℕ) (d : Display) (w : Daemon) {w' : Daemon}
    → IsValid w
    → at_addr a w.displays ≡ some d
    → stop_display a w ≡ ok w'
    → IsValid w'
stop_display-Keeps a d w v h e =
    let (w1, e1, good) = stop_display-IsValid a w d (IsValid-but a v) h in
    subst IsValid (ok_eq (sym e1 ∙ e)) good

not_running-eq : (s : DisplayStatus) → is_not_running s ≡ true → s ≡ not_running
not_running-eq running e = ground arith
not_running-eq not_running e = refl
not_running-eq zombie e = ground arith
not_running-eq phoenix e = ground arith

pub by_pid :
    (pid : ℕ) (w : Daemon) {d : Display}
    → IsValid w
    → find_display_by_pid pid w ≡ some d
    → at_addr d.addr w.displays ≡ some d
unfolding find_display_by_pid
by_pid pid w v q = find?-at_addr _ w.next_addr w.displays v.ordered q

pub by_server_pid :
    (pid : ℕ) (w : Daemon) {d : Display}
    → IsValid w
    → find_display_by_server_pid pid w ≡ some d
    → at_addr d.addr w.displays ≡ some d
unfolding find_display_by_server_pid
by_server_pid pid w v q = find?-at_addr _ w.next_addr w.displays v.ordered q

module _ (h : Host) where
  start_if_idle-Keeps : (a : ℕ) → Keeps IsValid (start_if_idle h a)
  unfolding start_if_idle
  start_if_idle-Keeps a w w' v e = elim (Option-cases (at_addr a w.displays)) [
    | inl n ↦ absurd (fault_ne (rw (deref-none a w n) at e))
    | inr (d, q) ↦
        elim (Bool-cases (is_permanent d.display_type.lifetime && is_not_running d.status)) [
          | inl y ↦
              start_display-IsValid h a w d v q (not_running-eq d.status (and_true _ _ y).1)
                (rw (deref-ok a w d q, y) at e)
          | inr n ↦ subst IsValid (ok_eq (rw (deref-ok a w d q, n) at e)) v
        ]
  ]

  check_display_status-Keeps : (a : ℕ) → Keeps IsValid (check_display_status h a)
  unfolding check_display_status
  check_display_status-Keeps a w w' v e = elim (Option-cases (at_addr a w.displays)) [
    | inl n ↦ absurd (fault_ne (rw (deref-none a w n) at e))
    | inr (d, q) ↦ elim (Bool-cases (is_xdmcp d.display_type.origin)) [
      | inl y ↦ subst IsValid (ok_eq (rw (deref-ok a w d q, y) at e)) v
      | inr n ↦ by_state d q d.state (rw (deref-ok a w d q, n) at e)
    ]
  ]
    where
      by_state :
          (d : Display)
          → at_addr a w.displays ≡ some d
          → (s : FileState)
          → elim s [
            | missing_entry ↦ stop_display a w
            | new_entry ↦ start_if_idle h a (update a (set_state old_entry) w)
            | old_entry ↦ start_if_idle h a w
          ]
            ≡ ok w'
          → IsValid w'
      by_state d q missing_entry e = stop_display-Keeps a d w v q e
      by_state d q new_entry e =
          start_if_idle-Keeps a (update a (set_state old_entry) w) w'
            (update-IsValid a (set_state old_entry) w d (λ x. refl) (λ x c. c) v q) e
      by_state d q old_entry e = start_if_idle-Keeps a w w' v e

  start_displays-Keeps : Keeps IsValid (start_displays h)
  unfolding start_displays
  start_displays-Keeps w w' v e =
      for_each_display-Keeps IsValid (check_display_status h) check_display_status-Keeps w w' v e

  -- RescanServers keeps every display's status in agreement with its processes, whatever the new
  -- servers file says and however the servers and sessions start, when it comes to its end.
  pub rescan_servers-IsValid :
      (lines : List (Bool × Bytes)) (w w' : Daemon)
      → IsValid w
      → rescan_servers h lines w ≡ ok w'
      → IsValid w'
  unfolding rescan_servers
  rescan_servers-IsValid lines w w' v e =
      let (w1, e1, e2) =
        >>=-eq-ok (for_each_display mark_display w)
          (λ marked. scan_servers lines marked >>= start_displays h) e in
      let (w2, e3, e4) = >>=-eq-ok (scan_servers lines w1) (start_displays h) e2 in
      start_displays-Keeps w2 w'
        (scan_servers-Keeps lines w1 w2
          (for_each_display-Keeps IsValid mark_display mark_display-Keeps w w1 v e1) e3)
        e4

  add_dynamic_display-Keeps :
      (a : ℕ) (w : Daemon) (r : Bool × Daemon)
      → IsValid w
      → add_dynamic_display h a w ≡ ok r
      → IsValid r.1
  unfolding add_dynamic_display
  add_dynamic_display-Keeps a w r v e = elim (Option-cases (at_addr a w.displays)) [
    | inl n ↦ absurd (fault_ne (rw (deref-none a w n) at e))
    | inr (d, q) ↦
        elim (Bool-cases (
          not (is_xdmcp d.display_type.origin)
          && (not (is_permanent d.display_type.lifetime) && is_not_running d.status))) [
            | inl y ↦
                let (w', e1, e2) =
                  >>=-eq-ok (start_display h a w) (λ w'. ok (true, w'))
                    (rw (deref-ok a w d q, y) at e) in
                subst (λ (x : Bool × Daemon). IsValid x.1) (ok_eq e2)
                  (start_display-IsValid h a w d v q
                    (not_running-eq d.status (and_true _ _ (and_true _ _ y).1).1) e1)
            | inr n ↦
                subst (λ (x : Bool × Daemon). IsValid x.1) (ok_eq (rw (deref-ok a w d q, n) at e)) v
          ]
  ]

  pub add_display-IsValid : (w w' : Daemon) → IsValid w → add_display h w ≡ ok w' → IsValid w'
  unfolding add_display
  add_display-IsValid w w' v e =
      let (r, e1, e2) = >>=-eq-ok (until_display (add_dynamic_display h) w) (λ r. ok r.1) e in
      subst IsValid (ok_eq e2)
        (until_display-Keeps IsValid (add_dynamic_display h) add_dynamic_display-Keeps w r v e1)

  reap-Keeps : (now val pid : ℕ) → Keeps IsValid (reap now val pid)
  unfolding reap
  reap-Keeps now val pid w w' v e = elim (Option-cases (find_display_by_pid pid w)) [
    | inr (d, q) ↦ elim (reap_session-Outcome now val d.addr w d v (by_pid pid w v q)) [
      | inl (w1, e1, good) ↦ subst IsValid (ok_eq (sym e1 ∙ (rw (q, reap) at e))) good
      | inr (lost, bad) ↦ absurd (fault_ne (sym bad ∙ (rw (q, reap) at e)))
    ]
    | inl n ↦ elim (Option-cases (find_display_by_server_pid pid w)) [
      | inr (d, q) ↦
          let (w1, e1, good) = reap_server-IsValid d.addr w d v (by_server_pid pid w v q) in
          subst IsValid (ok_eq (sym e1 ∙ (rw (n, q, reap) at e))) good
      | inl m ↦ subst IsValid (ok_eq (rw (n, m, reap) at e)) v
    ]
  ]

  reap_all-Keeps : (rounds : List Round) → Keeps IsValid (reap_all h rounds)
  unfolding reap_all
  reap_all-Keeps [] w w' v e = subst IsValid (ok_eq e) v
  reap_all-Keeps ((file, now, val, pid) ∷ rest) w w' v e =
      let (w1, e1, e2) =
        >>=-eq-ok (rescan_if_mod h file w) (λ s. reap now val pid s >>= reap_all h rest) e in
      let (w2, e3, e4) = >>=-eq-ok (reap now val pid w1) (reap_all h rest) e2 in
      reap_all-Keeps rest w2 w'
        (reap-Keeps now val pid w1 w2 (rescan_if_mod-Keeps h file w w1 v e1) e3) e4

  -- WaitForChild, over any sequence of terminated children and of changes of the servers file in
  -- between, keeps every display's status in agreement with its processes, when it comes to its end.
  pub wait_for_child-IsValid :
      (rounds : List Round) (w w' : Daemon)
      → IsValid w
      → wait_for_child h rounds w ≡ ok w'
      → IsValid w'
  unfolding wait_for_child
  wait_for_child-IsValid rounds w w' v e =
      let (w1, e1, e2) = >>=-eq-ok (reap_all h rounds w) (start_displays h) e in
      start_displays-Keeps w1 w' (reap_all-Keeps rounds w w1 v e1) e2
