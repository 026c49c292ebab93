-- ===== src/Login/Keys.antt =====
-- The keys of greeter/Login.c: InsertChar with the rows of loginActionsTable for editing and moving.
use xdm.Base.{ℕ, [], ◌∷◌, Bytes, length, ltb, if◌then◌else◌}
use xdm.Base.Result.{Result, ok, fault, out_of_bounds, ◌>>=◌}
use xdm.Login.{
  Login, Screen, realize_delete_char, edit, delete_backward, move_backward, move_forward,
  move_to_beginning, move_to_end, erase_to_end_of_line, finish_field, tab_field, insert_text,
}

-- The key symbols that InsertChar names, and the rest.
pub data KeySym : Type 0 where
  return_key : KeySym
  backspace_key : KeySym
  delete_key : KeySym
  left_key : KeySym
  right_key : KeySym
  end_key : KeySym
  home_key : KeySym
  other_key : KeySym

-- What the lookup of a key event gives: the symbol, and the characters in `strbuf`.
pub record Key : Type 0 where
  pub keysym : KeySym
  pub characters : Bytes

abbrev pub strbuf_size : ℕ
strbuf_size = 128

-- The rows of the table whose handlers edit a value or move on.
pub data Action : Type 0 where
  delete_previous_character : Action
  delete_character : Action
  move_backward_character : Action
  move_forward_character : Action
  move_to_begining : Action
  move_to_end_action : Action
  erase_to_end : Action
  erase_line : Action
  finish : Action
  tab : Action
  insert_char_action : Key → Action

abbrev insert_characters : Screen → Bytes → Login → Result Login
insert_characters s [] w = ok w
insert_characters s (x ∷ xs) w = edit (λ n. insert_text s n (x ∷ xs)) w

abbrev pub press_key : Screen → KeySym → Bytes → Login → Result Login
press_key s return_key str w = ok (finish_field w)
press_key s backspace_key str w = edit (delete_backward s) w
press_key s delete_key str w = edit (realize_delete_char s) w
press_key s left_key str w = edit (move_backward s) w
press_key s right_key str w = edit (move_forward s) w
press_key s end_key str w = edit (move_to_end s) w
press_key s home_key str w = edit (move_to_beginning s) w
press_key s other_key str w = insert_characters s str w

-- A NUL is written behind the characters, out of bounds if they fill the buffer.
unfoldable pub insert_char : Screen → Key → Login → Result Login
insert_char s k w =
    let pressed = press_key s k.keysym k.characters w in
    if ltb (length k.characters) strbuf_size then pressed else fault out_of_bounds

unfoldable pub perform : Screen → Action → Login → Result Login
unfolding insert_char
perform s delete_previous_character w = edit (delete_backward s) w
perform s delete_character w = edit (realize_delete_char s) w
perform s move_backward_character w = edit (move_backward s) w
perform s move_forward_character w = edit (move_forward s) w
perform s move_to_begining w = edit (move_to_beginning s) w
perform s move_to_end_action w = edit (move_to_end s) w
perform s erase_to_end w = edit erase_to_end_of_line w
perform s erase_line w = edit (move_to_beginning s) w >>= edit erase_to_end_of_line
perform s finish w = ok (finish_field w)
perform s tab w = tab_field w
perform s (insert_char_action k) w = insert_char s k w
