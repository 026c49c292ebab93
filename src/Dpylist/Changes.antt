-- ===== src/Dpylist/Changes.antt =====
-- A record of what an operation on one display does to the list: that display changes, all others
-- stay, and the order of the list is kept.
use xdm.Base.{Bytes, ℕ, true, false, List, ◌==◌, Option, none, some, ◌≡◌, ◌∙◌, arith, ==_refl}
use xdm.Base.Result.{ok}
use xdm.Display.{Display, Effect, Daemon}
use xdm.Dpylist.{new_display, blank_display, deref, update, emit, remove_display}
use xdm.Dpylist.Laws.{
  at_addr, IsOrdered, at_addr-update, at_addr-remove_self, at_addr-remove_ne, update_list-IsOrdered,
  remove_list-IsOrdered,
}

-- One display changes as `out` says, all others stay as they are.
pub record Changes (a : ℕ) (out : Option Display) (w w' : Daemon) : Type 0 where
  pub self : at_addr a w'.displays ≡ out
  pub others : (b : ℕ) → (a == b) ≡ false → at_addr b w'.displays ≡ at_addr b w.displays
  pub ordered : IsOrdered w'.next_addr w'.displays

pub deref-ok : (a : ℕ) (w : Daemon) (d : Display) → at_addr a w.displays ≡ some d → deref a w ≡ ok d
unfolding deref
deref-ok a w d h = rw (h, deref)

pub update-Changes :
    (a : ℕ) (f : Display → Display) (w : Daemon) (d : Display)
    → ((x : Display) → (f x).addr ≡ x.addr)
    → IsOrdered w.next_addr w.displays
    → at_addr a w.displays ≡ some d
    → Changes a (some (f d)) w (update a f w)
unfolding update
update-Changes a f w d keeps o h = record {
  self = ground (arith, at_addr-update f keeps a a w.displays);
  others = λ b ne. at_addr-update f keeps a b w.displays ∙ rw ne;
  ordered = update_list-IsOrdered f keeps a w.next_addr w.displays o;
}

pub remove_display-Changes :
    (a : ℕ) (w : Daemon) (d : Display)
    → IsOrdered w.next_addr w.displays
    → at_addr a w.displays ≡ some d
    → Changes a none w (remove_display a w)
unfolding remove_display
remove_display-Changes a w d o h =
    rw (h, remove_display)
      (record {
        self = at_addr-remove_self a w.next_addr w.displays o;
        others = λ b ne. at_addr-remove_ne a b w.displays (ground arith);
        ordered = remove_list-IsOrdered a w.next_addr w.displays o;
      })

-- Effects move no display.
pub Changes-emit :
    {a : ℕ} {out : Option Display} {w w' : Daemon} (es : List Effect)
    → Changes a out w w'
    → Changes a out w (emit es w')
Changes-emit es c = record { self = c.self; others = c.others; ordered = c.ordered }

pub Changes-before :
    {a : ℕ} {out : Option Display} {w w' : Daemon} (es : List Effect)
    → Changes a out (emit es w) w'
    → Changes a out w w'
Changes-before es c = record { self = c.self; others = c.others; ordered = c.ordered }

pub Changes-update :
    {a : ℕ} {w w' : Daemon} (f : Display → Display) (d : Display)
    → ((x : Display) → (f x).addr ≡ x.addr)
    → Changes a (some d) w w'
    → Changes a (some (f d)) w (update a f w')
Changes-update {a} {w} {w'} f d keeps c =
    let u = update-Changes a f w' d keeps c.ordered c.self in
    record { self = u.self; others = λ b ne. u.others b ne ∙ c.others b ne; ordered = u.ordered }

pub Changes-trans :
    {a : ℕ} {o o' : Option Display} {w w' w'' : Daemon}
    → Changes a o w w'
    → Changes a o' w' w''
    → Changes a o' w w''
Changes-trans c d = record {
  self = d.self;
  others = λ b ne. d.others b ne ∙ c.others b ne;
  ordered = d.ordered;
}

-- NewDisplay puts the blank display at the heap's next pointer.
pub new_display-Changes :
    (name : Bytes) (class_name : Option Bytes) (w : Daemon)
    → IsOrdered w.next_addr w.displays
    → Changes w.next_addr
        (some (blank_display w.next_addr name class_name))
        w
        (new_display true name class_name w).1
unfolding new_display
new_display-Changes name class_name w o = record {
  self = rw (==_refl w.next_addr);
  others = λ b ne. rw ne;
  ordered = (omega arith, o);
}
