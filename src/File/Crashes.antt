-- ===== src/File/Crashes.antt =====
-- Which lines of the servers file end the daemon.
use xdm.Base.{
  Bool, true, false, List, [], ◌∷◌, Option, none, some, Bytes, ◌≡◌, ◌≢◌, ◌⊎◌, inl, inr, refl, sym,
  any, Bool-cases, Option-cases, arith,
}
use xdm.Base.Result.{ok, fault, null_pointer}
use xdm.Display.{Display, DisplayType, Daemon}
use xdm.Dpylist.{find_display_by_name, new_display}
use xdm.File.{
  split_into_words, display_type_match, read_fields, Fields, add_new_display, install, check_type,
  parse_words, parse_display,
}
use xdm.File.Parse.{IsRenewable, renewable, renew_display-ok, renew_display-fault}

-- There is no display of that name, and no memory for one; or it has no argument vector, as one of
-- XDMCP; or it has no class, and the line names one.
abbrev pub IsFatal : Bool → Option Bytes → Option Display → Type 0
IsFatal memory class_name none = memory ≡ false
IsFatal memory class_name (some d) = (d.argv ≡ none) ⊎ ((class_name ≢ none) × (d.class ≡ none))

-- The words have a name and a type, and are fatal for the display of that name.
abbrev pub AreFatal : Bool → Daemon → Option (List Bytes) → Type 0
AreFatal memory w (some (name ∷ second ∷ rest)) =
    IsFatal memory (read_fields second rest).1 (find_display_by_name name w)
AreFatal memory w _ = ⊥

abbrev pub Crashes : Bool → Bytes → Daemon → Type 0
Crashes memory source w = AreFatal memory w (split_into_words source)

true_ne_false : true ≡ false → ⊥
true_ne_false q = ground arith

IsRenewable-alive : (d : Display) (c : Option Bytes) → IsRenewable c d → ¬ IsFatal true c (some d)
IsRenewable-alive d c r (inl e) = r.has_args e
IsRenewable-alive d c r (inr (ne, e)) = elim r.has_class [ inl q ↦ ne q | inr q ↦ q e ]

module _ (name : Bytes) (w : Daemon) where
  add_new_display-ok : (f : Fields) → (w' : Daemon) × (add_new_display true name f w ≡ ok w')
  unfolding add_new_display new_display
  add_new_display-ok (t, c, args) = (_, refl)

  add_new_display-fault : (f : Fields) → add_new_display false name f w ≡ fault null_pointer
  unfolding add_new_display new_display
  add_new_display-fault (t, c, args) = refl

  install-either :
      (memory : Bool) (f : Fields)
      → (IsFatal memory f.1 (find_display_by_name name w)
          × (install memory name f w ≡ fault null_pointer))
        ⊎ ((¬ IsFatal memory f.1 (find_display_by_name name w))
            × ((w' : Daemon) × (install memory name f w ≡ ok w')))
  unfolding install
  install-either memory f = elim (Option-cases (find_display_by_name name w)) [
    | inl n ↦ elim (Bool-cases memory) [
      | inl y ↦ inr (rw (n, y) (λ q. true_ne_false q), rw (install, n, y) (add_new_display-ok f))
      | inr e ↦ inl (rw n e, rw (install, n, e) (add_new_display-fault f))
    ]
    | inr (d, q) ↦ elim (renewable d f) [
      | inl r ↦ inr (rw q (IsRenewable-alive d f.1 r), rw (install, q) (renew_display-ok d f w r))
      | inr b ↦ inl (rw q b, rw (install, q) (renew_display-fault d f w b))
    ]
  ]

  -- A complaint changes no display.
  find-check_type :
      (acceptable : List DisplayType) (t : DisplayType)
      → find_display_by_name name (check_type acceptable name t w) ≡ find_display_by_name name w
  unfolding find_display_by_name
  find-check_type acceptable t = elim (Bool-cases (any (λ a. display_type_match a t) acceptable)) [
    | inl e ↦ rw e refl
    | inr e ↦ rw e refl
  ]

module _ (memory : Bool) (acceptable : List DisplayType) where
  parse_words-either :
      (words : List Bytes) (w : Daemon)
      → (AreFatal memory w (some words)
          × (parse_words memory acceptable words w ≡ fault null_pointer))
        ⊎ ((¬ AreFatal memory w (some words))
            × ((w' : Daemon) × (parse_words memory acceptable words w ≡ ok w')))
  unfolding parse_words
  parse_words-either [] w = inr (λ c. c, (w, refl))
  parse_words-either (name ∷ []) w = inr (λ c. c, (w, refl))
  parse_words-either (name ∷ second ∷ rest) w =
      let f = read_fields second rest in
      rw (sym (find-check_type name w acceptable f.0))
        (install-either name (check_type acceptable name f.0 w) memory f)

  -- A line of the servers file ends the daemon, at a null pointer, just when it has a name and a type and there
  -- is no memory for a new display of that name, or the display of that name has no argument vector, or it has
  -- no class and the line names one. After every other line the daemon goes on.
  pub parse_display-fault :
      (source : Bytes) (w : Daemon)
      → (Crashes memory source w × (parse_display memory acceptable source w ≡ fault null_pointer))
        ⊎ ((¬ Crashes memory source w)
            × ((w' : Daemon) × (parse_display memory acceptable source w ≡ ok w')))
  unfolding parse_display
  parse_display-fault source w = elim (Option-cases (split_into_words source)) [
    | inl n ↦ rw (parse_display, n) (inr (λ c. c, (w, refl)))
    | inr (words, q) ↦ rw (parse_display, q) (parse_words-either words w)
  ]
