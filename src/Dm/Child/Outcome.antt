-- ===== src/Dm/Child/Outcome.antt =====
-- What the end of a session does to the list of displays.
use mathlib.Core.Path.{subst}
use xdm.Base.{
  ℕ, ◌+◌, Bool, true, false, ◌||◌, ◌==◌, if◌then◌else◌, Option, none, some, codes, ◌≡◌, ◌⊎◌, refl,
  ap, ◌∙◌, inl, inr, Bool-cases, or_false, some_eq,
}
use xdm.Base.Result.{Result, ok, fault, use_after_free, ◌>>=◌}
use xdm.Display.{Display, zombie, Daemon}
use xdm.Dpylist.{deref, update, is_xdmcp}
use xdm.Dpylist.Laws.{at_addr}
use xdm.Dpylist.Changes.{Changes, update-Changes, deref-ok, Changes-update}
use xdm.Dm.Stop.{is_some, is_zombie, set_status, stop_display, restart_display, send_failed}
use xdm.Dm.Stop.Spec.{stop_display_lem, restarted, restart_display_lem}
use xdm.Dm.Status.{
  IsConsistent, IsValid, IsValidBut, IsValid-but, Changes-IsValid, Changes-IsValidBut,
  restarted-IsConsistent, stop_display-IsValid, restart_display-IsValid,
}
use xdm.Dm.Child.{
  clear_pid, set_start_tries, set_reserv_tries, set_last_reserv, write, obey_session, stop_or_retry,
  open_failed, is_crash, too_many, reserver, remanage, session_exit, reap_session, unmanage_display,
  obeysess_display, openfailed_display, reserver_display, remanage_display, wait_compose,
}

-- The step is taken, and leaves a valid daemon.
abbrev pub Succeeds : Result Daemon → Type 0
Succeeds r = (w' : Daemon) × (r ≡ ok w') × IsValid w'

-- The display at `a` is `d`, whose session is over, and the rest of the daemon is valid.
record IsOver (a : ℕ) (d : Display) (w : Daemon) : Type 0 where
  valid : IsValidBut a w
  here : at_addr a w.displays ≡ some d
  idle : is_some d.pid ≡ false

IsOver-update :
    {a : ℕ} {d : Display} {w : Daemon} (f : Display → Display)
    → ((x : Display) → (f x).addr ≡ x.addr)
    → ((x : Display) → (f x).pid ≡ x.pid)
    → IsOver a d w
    → IsOver a (f d) (update a f w)
IsOver-update {a} {d} {w} f keeps same o =
    let c = update-Changes a f w d keeps o.valid.ordered o.here in
    record {
      valid = Changes-IsValidBut o.valid c;
      here = c.self;
      idle = ap is_some (same d) ∙ o.idle;
    }

stop-Succeeds : {a : ℕ} {d : Display} {w : Daemon} → IsOver a d w → Succeeds (stop_display a w)
stop-Succeeds {a} {d} {w} o = stop_display-IsValid a w d o.valid o.here

restart-Succeeds :
    {a : ℕ} {d : Display} {w : Daemon} (force : Bool)
    → IsOver a d w
    → Succeeds (restart_display a force w)
restart-Succeeds {a} {d} {w} force o = restart_display-IsValid a force w d o.valid o.here o.idle

if-Succeeds :
    (b : Bool) {r s : Result Daemon} → Succeeds r → Succeeds s → Succeeds (if b then r else s)
if-Succeeds true p q = p
if-Succeeds false p q = q

tries-Over :
    {a : ℕ} {d : Display} {w : Daemon} (n : ℕ)
    → IsOver a d w
    → IsOver a (set_start_tries n d) (update a (set_start_tries n) w)
tries-Over n o = IsOver-update (set_start_tries n) (λ x. refl) (λ x. refl) o

reserv-Over :
    {a : ℕ} {d : Display} {w : Daemon} (n : ℕ)
    → IsOver a d w
    → IsOver a (set_reserv_tries n d) (update a (set_reserv_tries n) w)
reserv-Over n o = IsOver-update (set_reserv_tries n) (λ x. refl) (λ x. refl) o

obey_session-Succeeds :
    {a : ℕ} {d : Display} {w : Daemon} → IsOver a d w → Succeeds (obey_session a d w)
unfolding obey_session
obey_session-Succeeds {a} {d} {w} o =
    let p = reserv-Over 0 (tries-Over 0 o) in
    if-Succeeds _ (stop-Succeeds p) (restart-Succeeds false p)

remanage-Succeeds : {a : ℕ} {d : Display} {w : Daemon} → IsOver a d w → Succeeds (remanage a d w)
unfolding remanage
remanage-Succeeds o =
    let p = tries-Over 0 o in if-Succeeds _ (stop-Succeeds p) (restart-Succeeds false p)

stop_or_retry-Succeeds :
    {a : ℕ} {d : Display} {w : Daemon} → IsOver a d w → Succeeds (stop_or_retry a d w)
unfolding stop_or_retry
stop_or_retry-Succeeds {a} {d} o =
    let p = tries-Over (d.start_tries + 1) o in
    if-Succeeds _ (stop-Succeeds o) (if-Succeeds _ (stop-Succeeds p) (restart-Succeeds true p))

open_failed-Succeeds :
    {a : ℕ} {d : Display} {w : Daemon} → IsOver a d w → Succeeds (open_failed a d w)
unfolding open_failed send_failed
open_failed-Succeeds {a} {d} {w} o =
    if-Succeeds _ {r = send_failed a (codes "Cannot open display") w >>= stop_or_retry a d}
      (rw (deref-ok a w d o.here) (
        stop_or_retry-Succeeds (record {
          valid = record { ordered = o.valid.ordered; consistent = o.valid.consistent };
          here = o.here;
          idle = o.idle;
        })))
      (stop_or_retry-Succeeds o)

-- A session asks for a new server too often, while the display has no server: the code then stores
-- through the pointer to the display that StopDisplay has freed.
pub record IsLost (now : ℕ) (d : Display) : Type 0 where
  pub not_xdmcp : is_xdmcp d.display_type.origin ≡ false
  pub not_zombie : is_zombie d.status ≡ false
  pub crashes : too_many now d ≡ true
  pub no_server : is_some d.server_pid ≡ false

abbrev Outcome : ℕ → Display → Result Daemon → Type 0
Outcome now d r = Succeeds r ⊎ (IsLost now d × (r ≡ fault use_after_free))

write-Succeeds :
    {a : ℕ} {out : Option Display} {w w' : Daemon} (now : ℕ) (x : Display)
    → out ≡ some x
    → IsConsistent x
    → IsValidBut a w
    → Changes a out w w'
    → Succeeds (write a (set_last_reserv now) w')
unfolding write
write-Succeeds {a} {out} {w} {w'} now x e good v c = rw (deref-ok a w' x (c.self ∙ e)) (
  update a (set_last_reserv now) w',
  refl,
  Changes-IsValid v
      (Changes-update (set_last_reserv now) x (λ x. refl) (subst (λ y. Changes a y w w') e c))
      (λ y q. subst IsConsistent (some_eq q) good),
)

write-fault :
    {a : ℕ} {w w' : Daemon} (now : ℕ)
    → Changes a none w w'
    → write a (set_last_reserv now) w' ≡ fault use_after_free
unfolding write deref
write-fault {a} {w} {w'} now c = rw (c.self, write, deref)

stop_write-Outcome :
    {a : ℕ} {d : Display} {w : Daemon} (now : ℕ)
    → IsOver a d w
    → Succeeds (stop_display a w >>= write a (set_last_reserv now))
      ⊎ ((is_some d.server_pid ≡ false)
          × ((stop_display a w >>= write a (set_last_reserv now)) ≡ fault use_after_free))
stop_write-Outcome {a} {d} {w} now o =
    let (w', e, c, es) = stop_display_lem a w d o.valid.ordered o.here in
    rw e (elim (Bool-cases (is_some d.server_pid)) [
      | inl s ↦ inl (write-Succeeds now (set_status zombie d) (rw s) s o.valid c)
      | inr n ↦ inr (n, write-fault now (subst (λ y. Changes a y w w') (rw n) c))
    ])

restart_write-Succeeds :
    {a : ℕ} {d : Display} {w : Daemon} (now : ℕ)
    → IsOver a d w
    → Succeeds (restart_display a true w >>= write a (set_last_reserv now))
restart_write-Succeeds {a} {d} {w} now o =
    let (w', e, c, es) = restart_display_lem a true w d o.valid.ordered o.here in
    rw e (
      write-Succeeds now (set_status (restarted true d) d) refl
        (restarted-IsConsistent d true o.idle) o.valid c)

reserver-Outcome :
    {a : ℕ} {d : Display} {w : Daemon} (now : ℕ) → IsOver a d w → Outcome now d (reserver now a d w)
unfolding reserver
reserver-Outcome {a} {d} {w} now o =
    let p = tries-Over 0 o in
    let tries = if is_crash now d then d.reserv_tries + 1 else 0 in
    elim (Bool-cases (is_xdmcp d.display_type.origin || is_zombie d.status)) [
      | inl e ↦ rw e (inl (stop-Succeeds p))
      | inr e ↦ rw e (elim (Bool-cases (too_many now d)) [
        | inr few ↦ rw few (inl (restart_write-Succeeds now (reserv-Over tries p)))
        | inl many ↦ rw many (elim (stop_write-Outcome now (reserv-Over tries p)) [
          | inl good ↦ inl good
          | inr (n, bad) ↦ inr (
            record {
              not_xdmcp = (or_false _ _ e).0;
              not_zombie = (or_false _ _ e).1;
              crashes = many;
              no_server = n;
            },
            bad,
          )
        ])
      ])
    ]

if-Outcome :
    (now : ℕ) (d : Display) (b : Bool) {r s : Result Daemon}
    → Outcome now d r
    → Outcome now d s
    → Outcome now d (if b then r else s)
if-Outcome now d true p q = p
if-Outcome now d false p q = q

unless-Outcome :
    (now val : ℕ) (d : Display) (code : ℕ) {r s : Result Daemon}
    → Succeeds r
    → Outcome now d s
    → Outcome now d (if val == code then r else s)
unless-Outcome now val d code p q = if-Outcome now d (val == code) (inl p) q

session_exit-Outcome :
    {a : ℕ} {d : Display} {w : Daemon} (now val : ℕ)
    → IsOver a d w
    → Outcome now d (session_exit now val a d w)
unfolding session_exit
session_exit-Outcome {a} {d} {w} now val o =
    unless-Outcome now val d unmanage_display (stop-Succeeds o) (
      unless-Outcome now val d obeysess_display (obey_session-Succeeds o) (
        unless-Outcome now val d openfailed_display (open_failed-Succeeds o) (
          if-Outcome now d (val == reserver_display) (reserver-Outcome now o) (
            unless-Outcome now val d (wait_compose 15 0 0) (stop_or_retry-Succeeds o) (
              unless-Outcome now val d remanage_display (remanage-Succeeds o)
                (inl (stop-Succeeds o)))))))

-- However a session of a display on the list of a valid daemon ends, WaitForChild either handles it and leaves every
-- display's status in agreement with its processes, or it stores through a freed pointer; and the
-- latter only if a display of the servers file, not a zombie and without a server, has crashed its
-- server too often.
pub reap_session-Outcome :
    (now val a : ℕ) (w : Daemon) (d : Display)
    → IsValid w
    → at_addr a w.displays ≡ some d
    → ((w' : Daemon) × (reap_session now val a w ≡ ok w') × IsValid w')
      ⊎ (IsLost now (clear_pid d) × (reap_session now val a w ≡ fault use_after_free))
unfolding reap_session
reap_session-Outcome now val a w d v h =
    let c = update-Changes a clear_pid w d (λ x. refl) v.ordered h in
    let o : IsOver a (clear_pid d) (update a clear_pid w) = record {
      valid = Changes-IsValidBut (IsValid-but a v) c;
      here = c.self;
      idle = refl;
    } in
    rw (deref-ok a (update a clear_pid w) (clear_pid d) c.self) (session_exit-Outcome now val o)
