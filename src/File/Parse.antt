-- ===== src/File/Parse.antt =====
-- What a line of the servers file does to the list of displays.
use mathlib.Core.Path.{subst}
use xdm.Base.{
  any, find?, Bool, true, false, List, [], ◌∷◌, Option, none, some, Bytes, equal, equal_iff, ◌≡◌,
  ◌≢◌, ◌⊎◌, refl, sym, ◌∙◌, arith, inl, inr, Bool-cases, Option-cases, some_eq, none_ne,
}
use xdm.Base.Result.{ok, fault, null_pointer, ok_eq, fault_ne}
use xdm.Display.{Display, DisplayType, Daemon, old_entry}
use xdm.Dpylist.Changes.{Changes, update-Changes, Changes-update, new_display-Changes}
use xdm.Dpylist.{find_display_by_name, new_display, update, blank_display}
use xdm.Dm.Status.{IsConsistent, IsValid, IsValid-but, Changes-IsValid}
use xdm.Dpylist.Laws.{at_addr, IsOrdered, find?-at_addr}
use xdm.File.{
  display_type_match, split_into_words, read_fields, Fields, renew, old_with_class, renew_display,
  add_new_display, install, check_type, parse_words, parse_display, change_class, free_file_args,
}

change_class-ok :
    (c old : Option Bytes)
    → (c ≡ none) ⊎ (old ≢ none)
    → change_class c old ≡ ok (elim c [ none ↦ old | some x ↦ some x ])
unfolding change_class
change_class-ok none old r = refl
change_class-ok (some x) none r = ground arith
change_class-ok (some x) (some y) r = ground (arith, equal_iff y x)

free_file_args-ok : (args : Option (List Bytes)) → args ≢ none → free_file_args args ≡ ok tt
unfolding free_file_args
free_file_args-ok none ne = absurd (ne refl)
free_file_args-ok (some args) ne = refl

change_class-fault :
    (c old : Option Bytes) → c ≢ none → old ≡ none → change_class c old ≡ fault null_pointer
unfolding change_class
change_class-fault none old ne e = absurd (ne refl)
change_class-fault (some x) none ne e = refl
change_class-fault (some x) (some y) ne e = cc

change_class-either :
    (c old : Option Bytes)
    → (change_class c old ≡ fault null_pointer) ⊎ ((x : Option Bytes) × (change_class c old ≡ ok x))
unfolding change_class
change_class-either none old = inr (old, refl)
change_class-either (some x) none = inl refl
change_class-either (some x) (some y) = inr (_, refl)

free_file_args-fault :
    (args : Option (List Bytes)) → args ≡ none → free_file_args args ≡ fault null_pointer
unfolding free_file_args
free_file_args-fault none e = refl
free_file_args-fault (some args) e = cc

-- The display of that name can take a new line: its old arguments are there, and so is its old
-- class if the line names one.
pub record IsRenewable (c : Option Bytes) (d : Display) : Type 0 where
  pub has_args : d.argv ≢ none
  pub has_class : (c ≡ none) ⊎ (d.class ≢ none)

-- The class after the line.
abbrev pub new_class : Option Bytes → Display → Option Bytes
new_class c d = elim c [ none ↦ d.class | some x ↦ some x ]

-- The display that a line with these fields asks for: its type, its class if it names one, and its
-- arguments, in an entry that is not removed at the end of the reading.
abbrev pub renewed : Fields → Display → Display
renewed f d = record d {
  display_type = f.0;
  class = new_class f.1 d;
  argv = some f.2;
  state = old_entry;
}

-- A line for a display that is on the list, which is in the order of its pointers, gives that display the
-- line's type and arguments, the line's class if it names one, and the mark of an old entry, and changes
-- nothing else of it and no other display. The display has an argument vector, and has a class if the line
-- names one.
pub renew_display_lem :
    (d : Display) (f : Fields) (w : Daemon)
    → IsOrdered w.next_addr w.displays
    → at_addr d.addr w.displays ≡ some d
    → IsRenewable f.1 d
    → (w' : Daemon) × (renew_display d f w ≡ ok w') × Changes d.addr (some (renewed f d)) w w'
unfolding renew_display
renew_display_lem d (t, c, args) w o h r =
    let old = old_with_class (new_class c d) in
    (
      update d.addr (renew t args) (update d.addr old w),
      rw (change_class-ok c d.class r.has_class, free_file_args-ok d.argv r.has_args),
      Changes-update (renew t args) (old d) (λ x. refl)
          (update-Changes d.addr old w d (λ x. refl) o h),
    )

pub renew_display-ok :
    (d : Display) (f : Fields) (w : Daemon)
    → IsRenewable f.1 d
    → (w' : Daemon) × (renew_display d f w ≡ ok w')
unfolding renew_display
renew_display-ok d (t, c, args) w r = (
  update d.addr (renew t args) (update d.addr (old_with_class (new_class c d)) w),
  rw (change_class-ok c d.class r.has_class, free_file_args-ok d.argv r.has_args) refl,
)

-- A null `argv`, and a class for a display without one, are followed as null pointers.
pub renew_display-fault :
    (d : Display) (f : Fields) (w : Daemon)
    → (d.argv ≡ none) ⊎ ((f.1 ≢ none) × (d.class ≡ none))
    → renew_display d f w ≡ fault null_pointer
unfolding renew_display
renew_display-fault d (t, c, args) w (inl e) = elim (change_class-either c d.class) [
  | inl q ↦ rw q
  | inr (x, q) ↦ rw (q, free_file_args-fault d.argv e)
]
renew_display-fault d (t, c, args) w (inr (ne, e)) = rw (change_class-fault c d.class ne e)

-- What the daemon is after a line for a name that is not on the list.
add_new_display-false :
    (name : Bytes) (f : Fields) (w : Daemon) {w' : Daemon}
    → add_new_display false name f w ≡ ok w'
    → fault null_pointer ≡ ok w'
unfolding add_new_display new_display
add_new_display-false name f w e = e

pub renewable :
    (d : Display) (f : Fields)
    → IsRenewable f.1 d ⊎ ((d.argv ≡ none) ⊎ ((f.1 ≢ none) × (d.class ≡ none)))
renewable d (t, c, args) = elim (Option-cases d.argv) [
  | inl e ↦ inr (inl e)
  | inr (x, e) ↦ has_class c (λ q. none_ne (sym q ∙ e))
]
  where
    has_class :
        (c : Option Bytes)
        → d.argv ≢ none
        → IsRenewable c d ⊎ ((d.argv ≡ none) ⊎ ((c ≢ none) × (d.class ≡ none)))
    has_class none a = inl (record { has_args = a; has_class = inl refl })
    has_class (some x) a = elim (Option-cases d.class) [
      | inl e ↦ inr (inr (λ q. none_ne (sym q), e))
      | inr (y, e) ↦ inl (record { has_args = a; has_class = inr (λ q. none_ne (sym q ∙ e)) })
    ]

pub add_new_display_lem :
    (name : Bytes) (f : Fields) (w : Daemon)
    → IsOrdered w.next_addr w.displays
    → (w' : Daemon) × (add_new_display true name f w ≡ ok w')
      × Changes w.next_addr (some (renew f.0 f.2 (blank_display w.next_addr name f.1))) w w'
unfolding add_new_display new_display
add_new_display_lem name (t, c, args) w o = (
  update w.next_addr (renew t args) (new_display true name c w).1,
  refl,
  Changes-update (renew t args) (blank_display w.next_addr name c) (λ x. refl)
      (new_display-Changes name c w o),
)

add_new_display-IsValid :
    (memory : Bool) (name : Bytes) (f : Fields) (w : Daemon) {w' : Daemon}
    → IsValid w
    → add_new_display memory name f w ≡ ok w'
    → IsValid w'
add_new_display-IsValid true name f w v e =
    let (w1, e1, c) = add_new_display_lem name f w v.ordered in
    subst IsValid (ok_eq (sym e1 ∙ e))
      (Changes-IsValid (IsValid-but w.next_addr v) c (λ x q. subst IsConsistent (some_eq q) refl))
add_new_display-IsValid false name f w v e = absurd (fault_ne (add_new_display-false name f w e))

renew_display-IsValid :
    (d : Display) (f : Fields) (w : Daemon) {w' : Daemon}
    → IsValid w
    → at_addr d.addr w.displays ≡ some d
    → renew_display d f w ≡ ok w'
    → IsValid w'
renew_display-IsValid d f w v h e = elim (renewable d f) [
  | inl r ↦
      let (w1, e1, c) = renew_display_lem d f w v.ordered h r in
      subst IsValid (ok_eq (sym e1 ∙ e)) (
        Changes-IsValid (IsValid-but d.addr v) c
          (λ x q. subst IsConsistent (some_eq q) (v.consistent d.addr d h)))
  | inr b ↦ absurd (fault_ne (sym (renew_display-fault d f w b) ∙ e))
]

check_type-IsValid :
    (acceptable : List DisplayType) (name : Bytes) (t : DisplayType) {w : Daemon}
    → IsValid w
    → IsValid (check_type acceptable name t w)
check_type-IsValid acceptable name t v =
    elim (Bool-cases (any (λ a. display_type_match a t) acceptable)) [
      | inl e ↦ rw e v
      | inr e ↦ rw e (record { ordered = v.ordered; consistent = v.consistent })
    ]

find_by :
    (name : Bytes) (w : Daemon) {d : Display}
    → find_display_by_name name w ≡ some d
    → find? (λ x. equal name x.name) w.displays ≡ some d
unfolding find_display_by_name
find_by name w e = e

install-IsValid :
    (memory : Bool) (name : Bytes) (f : Fields) (w : Daemon) {w' : Daemon}
    → IsValid w
    → install memory name f w ≡ ok w'
    → IsValid w'
unfolding install
install-IsValid memory name f w v e = elim (Option-cases (find_display_by_name name w)) [
  | inl n ↦ add_new_display-IsValid memory name f w v (rw (n, install) at e)
  | inr (d, q) ↦
      renew_display-IsValid d f w v
        (find?-at_addr _ w.next_addr w.displays v.ordered (find_by name w q)) (rw (q, install) at e)
]

parse_words-IsValid :
    (memory : Bool) (acceptable : List DisplayType) (words : List Bytes) (w : Daemon) {w' : Daemon}
    → IsValid w
    → parse_words memory acceptable words w ≡ ok w'
    → IsValid w'
unfolding parse_words
parse_words-IsValid memory acceptable [] w v e = subst IsValid (ok_eq e) v
parse_words-IsValid memory acceptable (name ∷ []) w v e = subst IsValid (ok_eq e) v
parse_words-IsValid memory acceptable (name ∷ second ∷ rest) w v e =
    install-IsValid memory name (read_fields second rest) _ (check_type-IsValid acceptable name _ v)
      e

-- Whatever a line of the servers file says, when the daemon survives reading it, the list of displays
-- is as well formed as before, and every display's status still agrees with its processes.
pub parse_display-IsValid :
    (memory : Bool) (acceptable : List DisplayType) (source : Bytes) (w : Daemon) {w' : Daemon}
    → IsValid w
    → parse_display memory acceptable source w ≡ ok w'
    → IsValid w'
unfolding parse_display
parse_display-IsValid memory acceptable source w v e =
    elim (Option-cases (split_into_words source)) [
      | inl n ↦ subst IsValid (ok_eq (rw (n, parse_display) at e)) v
      | inr (words, q) ↦
          parse_words-IsValid memory acceptable words w v (rw (q, parse_display) at e)
    ]
