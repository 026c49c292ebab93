-- ===== src/File.antt =====
-- xdm/file.c: a line of the servers file, as words and as a display. Allocations succeed, but for those
-- of NewDisplay.
pub mod Words
pub mod Parse
pub mod Crashes
use xdm.Base.{
  ℕ, zero, suc, ◌+◌, Bool, true, false, not, ◌&&◌, ◌||◌, List, [], ◌∷◌, ◌++◌, ◌==◌, if◌then◌else◌,
  Option, none, some, Bytes, codes, equal, length, isspace, any,
}
use xdm.Base.Result.{Result, ok, fault, null_pointer, ◌>>=◌}
use xdm.Display.{
  Display, DisplayType, Location, local, foreign, Lifetime, permanent, transient, Origin, from_file,
  from_xdmcp, old_entry, Effect, complain, Daemon,
}
use xdm.Dpylist.{find_display_by_name, new_display, update}

abbrev pub same_location : Location → Location → Bool
same_location local local = true
same_location foreign foreign = true
same_location _ _ = false

abbrev pub same_lifetime : Lifetime → Lifetime → Bool
same_lifetime permanent permanent = true
same_lifetime transient transient = true
same_lifetime _ _ = false

abbrev pub same_origin : Origin → Origin → Bool
same_origin from_file from_file = true
same_origin from_xdmcp from_xdmcp = true
same_origin _ _ = false

unfoldable pub display_type_match : DisplayType → DisplayType → Bool
display_type_match d1 d2 =
    same_location d1.location d2.location
    && (same_lifetime d1.lifetime d2.lifetime && same_origin d1.origin d2.origin)

-- `while (*s && isspace (*s)) ++s;`
abbrev pub skip_spaces : Bytes → Bytes
skip_spaces [] = []
skip_spaces (c ∷ s) = if isspace c then skip_spaces s else c ∷ s

abbrev pub ends_word : ℕ → Bool
ends_word c = c == b'#' || isspace c

-- `while (*s && *s != '#' && !isspace (*s)) ++s;`, the characters passed and the rest.
abbrev pub take_word : Bytes → Bytes
take_word [] = []
take_word (c ∷ s) = if ends_word c then [] else c ∷ take_word s

abbrev pub drop_word : Bytes → Bytes
drop_word [] = []
drop_word (c ∷ s) = if ends_word c then c ∷ s else drop_word s

-- Each round of the outer loop takes at least one character, so `length s` rounds are enough.
split_loop : ℕ → Bytes → List Bytes
split_loop zero s = []
split_loop (suc fuel) s = elim (skip_spaces s) [
  | [] ↦ []
  | c ∷ r ↦ if c == b'#' then [] else take_word (c ∷ r) ∷ split_loop fuel (drop_word (c ∷ r))
]

-- The null pointer stands for no words at all.
unfoldable pub split_into_words : Bytes → Option (List Bytes)
unfolding split_loop
split_into_words s = elim (split_loop (length s) s) [ [] ↦ none | w ∷ ws ↦ some (w ∷ ws) ]

abbrev pub local_type : DisplayType
local_type = record { location = local; lifetime = permanent; origin = from_file }

abbrev pub foreign_type : DisplayType
foreign_type = record { location = foreign; lifetime = permanent; origin = from_file }

abbrev pub dynamic_type : DisplayType
dynamic_type = record { location = local; lifetime = transient; origin = from_file }

abbrev pub display_types : List (Bytes × DisplayType)
display_types =
    (codes "local", local_type)
    ∷ (codes "foreign", foreign_type)
    ∷ (codes "dynamic", dynamic_type)
    ∷ []

-- The walk of `displayTypes`; its last row, with the null name, is the default.
look_up : List (Bytes × DisplayType) → Bytes → DisplayType × Bool
look_up [] string = (local_type, true)
look_up ((name, t) ∷ rest) string = if equal name string then (t, false) else look_up rest string

-- The type, and `usedDefault`.
unfoldable pub parse_display_type : Bytes → DisplayType × Bool
unfolding look_up
parse_display_type string = look_up display_types string

-- What `ParseDisplay` reads off the words behind the name: the type, the class, the arguments.
abbrev pub Fields : Type 0
Fields = DisplayType × Option Bytes × List Bytes

third_word : Bytes → DisplayType × Bool → Bytes → List Bytes → Fields
third_word second (t, used_default) third rest =
    if used_default then (t, none, third ∷ rest) else (t, some second, rest)

-- The extended syntax: a second word that is no type is the class if the third word is a type.
second_word : Bytes → DisplayType × Bool → List Bytes → Fields
second_word second (t, used_default) [] = (t, none, [])
second_word second (t, used_default) (third ∷ rest) =
    if used_default
    then third_word second (parse_display_type third) third rest
    else (t, none, third ∷ rest)

unfoldable pub read_fields : Bytes → List Bytes → Fields
unfolding second_word third_word
read_fields second rest = second_word second (parse_display_type second) rest

abbrev pub set_class : Option Bytes → Display → Display
set_class class_name d = record d { class = class_name }

-- `if (class && strcmp (d->class, class)) d->class = strdup (class);`
change_class : Option Bytes → Option Bytes → Result (Option Bytes)
change_class none old = ok old
change_class (some c) none = fault null_pointer
change_class (some c) (some old) = ok (if equal old c then some old else some c)

abbrev pub renew : DisplayType → List Bytes → Display → Display
renew t args d = record d { display_type = t; argv = some args }

abbrev pub old_with_class : Option Bytes → Display → Display
old_with_class class_name d = record d { class = class_name; state = old_entry }

-- `freeFileArgs (d->argv)` walks the old arguments.
free_file_args : Option (List Bytes) → Result (Unit {0})
free_file_args none = fault null_pointer
free_file_args (some args) = ok tt

-- The display of that name is on the list.
unfoldable pub renew_display : Display → Fields → Daemon → Result Daemon
unfolding change_class free_file_args
renew_display d (t, class_name, args) w = do
  c ← change_class class_name d.class
  u ← free_file_args d.argv
  ok (update d.addr (renew t args) (update d.addr (old_with_class c) w))

-- `d = NewDisplay (name, class)`, whose null pointer is followed at once.
unfoldable pub add_new_display : Bool → Bytes → Fields → Daemon → Result Daemon
add_new_display memory name (t, class_name, args) w =
    let (made, w') = new_display memory name class_name w in
    elim made [ none ↦ fault null_pointer | some d ↦ ok (update d.addr (renew t args) w') ]

-- An unacceptable type is complained of, and used.
abbrev pub check_type : List DisplayType → Bytes → DisplayType → Daemon → Daemon
check_type acceptable name t w =
    if any (λ a. display_type_match a t) acceptable
    then w
    else record w { effects = w.effects ++ complain name ∷ [] }

unfoldable pub install : Bool → Bytes → Fields → Daemon → Result Daemon
install memory name f w = elim (find_display_by_name name w) [
  | some d ↦ renew_display d f w
  | none ↦ add_new_display memory name f w
]

unfoldable pub parse_words : Bool → List DisplayType → List Bytes → Daemon → Result Daemon
parse_words memory acceptable [] w = ok w
parse_words memory acceptable (name ∷ []) w = ok w
parse_words memory acceptable (name ∷ second ∷ rest) w =
    let f = read_fields second rest in install memory name f (check_type acceptable name f.0 w)

unfoldable pub parse_display : Bool → List DisplayType → Bytes → Daemon → Result Daemon
unfolding parse_words
parse_display memory acceptable source w = elim (split_into_words source) [
  | none ↦ ok w
  | some args ↦ parse_words memory acceptable args w
]
