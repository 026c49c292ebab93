-- ===== src/Tests/Servers.antt =====
-- xdm/file.c on lines of a servers file.
use xdm.Base.{
  ℕ, true, List, [], ◌∷◌, ◌++◌, none, some, Bytes, codes, equal, ◌≡◌, refl, sym, arith, ◌⊎◌, inl,
  none_ne,
}
use xdm.Base.Result.{ok, fault, null_pointer}
use xdm.Display.{Display, Daemon}
use xdm.Dpylist.{blank_display, update, new_display, find_display_by_name}
use xdm.Dpylist.Changes.{Changes}
use xdm.Dm.Status.{IsValid}
use xdm.File.{
  local_type, foreign_type, Fields, parse_display, parse_words, read_fields, parse_display_type,
  install, renew_display, add_new_display, split_into_words, display_type_match,
}
use xdm.File.Parse.{renewed, renew_display_lem, parse_display-IsValid}
use xdm.File.Crashes.{Crashes, parse_display-fault}
use xdm.File.Words.{spaced, split_into_words-spaced}

abbrev file_display : Display
file_display = record (blank_display 3 (codes ":0") none) {
  display_type = local_type;
  argv = some (codes "X" ∷ []);
}

abbrev bare_display : Display
bare_display = blank_display 3 (codes ":0") none

abbrev file_daemon : Display → Daemon
file_daemon d = record { displays = d ∷ []; next_addr = 4; forks = 0; effects = [] }

abbrev empty_daemon : Daemon
empty_daemon = record { displays = []; next_addr = 1; forks = 0; effects = [] }

empty_daemon-IsValid : IsValid empty_daemon
empty_daemon-IsValid = record { ordered = tt; consistent = λ b x e. absurd (none_ne e) }

abbrev a_line : Bytes
a_line = codes ":0 local /usr/bin/X :0"

abbrev one_display : Daemon
one_display = record {
  displays =
      record (blank_display 1 (codes ":0") none) {
        display_type = local_type;
        argv = some (codes "/usr/bin/X" ∷ codes ":0" ∷ []);
      }
      ∷ [];
  next_addr = 2;
  forks = 0;
  effects = [];
}

parsed : parse_display true (local_type ∷ []) a_line empty_daemon ≡ ok one_display
unfolding parse_display parse_words split_into_words read_fields parse_display_type install
    add_new_display new_display display_type_match find_display_by_name equal update
parsed = refl

parse_display-IsValid_example : IsValid one_display
parse_display-IsValid_example =
    parse_display-IsValid true (local_type ∷ []) a_line empty_daemon empty_daemon-IsValid parsed

abbrev new_fields : Fields
new_fields = (foreign_type, none, [])

renew_display_lem_example :
    (w' : Daemon) × (renew_display file_display new_fields (file_daemon file_display) ≡ ok w')
    × Changes 3 (some (renewed new_fields file_display)) (file_daemon file_display) w'
renew_display_lem_example =
    renew_display_lem file_display new_fields (file_daemon file_display) (omega arith, tt) refl
      (record { has_args = λ e. none_ne (sym e); has_class = inl refl })

-- A line for a display without an argument vector.
parse_display-fault_example :
    (Crashes true (codes ":0 foreign") (file_daemon bare_display)
      × (parse_display true [] (codes ":0 foreign") (file_daemon bare_display)
          ≡ fault null_pointer))
    ⊎ ((¬ Crashes true (codes ":0 foreign") (file_daemon bare_display))
        × ((w' : Daemon) × (parse_display true [] (codes ":0 foreign") (file_daemon bare_display)
              ≡ ok w')))
parse_display-fault_example =
    parse_display-fault true [] (codes ":0 foreign") (file_daemon bare_display)

bare_crash : Crashes true (codes ":0 foreign") (file_daemon bare_display)
unfolding split_into_words read_fields find_display_by_name equal
bare_crash = inl refl

-- The first word begins the line, and two blanks of different kinds stand before the second.
abbrev words : List (Bytes × Bytes)
words = ([], codes ":0") ∷ (32 ∷ 9 ∷ [], codes "local") ∷ []

word_ne : (c : ℕ) (s : Bytes) → (c ∷ s) ≡ [] → ⊥
word_ne c s e = ground arith

split_into_words-spaced_example :
    split_into_words (spaced words ((32 ∷ []) ++ codes "# the console"))
    ≡ some (codes ":0" ∷ codes "local" ∷ [])
split_into_words-spaced_example =
    split_into_words-spaced words (32 ∷ []) (codes "# the console")
      (
        (tt, (word_ne _ _, (refl, (refl, tt)))),
        (((refl, (refl, tt)), (word_ne _ _, (refl, (refl, (refl, (refl, (refl, tt))))))), tt),
      )
      (word_ne _ _, tt) (refl, tt) refl
