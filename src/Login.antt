-- ===== src/Login.antt =====
-- greeter/Login.c: what the login widget's keys do to the prompts. The widths of texts and of the
-- fields are given; what is drawn is left out, but the part of a value that is shown is kept.
pub mod Keys
pub mod Line
pub mod Buffer
pub mod Holds
pub mod Edits
pub mod Actions
use xdm.Base.{
  any, c_string, ◌==◌, ℕ, zero, suc, ◌+◌, ◌-◌, Bool, true, false, ◌&&◌, List, [], ◌∷◌, ◌++◌, ltb,
  leb, if◌then◌else◌, Option, none, some, Bytes, length, take, drop, find?, map,
}
use xdm.Base.Result.{Result, ok, fault, out_of_bounds, no_return, ◌>>=◌}

pub data PromptState : Type 0 where
  not_shown : PromptState
  echo_on : PromptState
  echo_off : PromptState
  text_info : PromptState

pub data LoginState : Type 0 where
  initializing : LoginState
  prompting : LoginState
  show_message : LoginState
  done : LoginState

-- `loginPromptData`: the value is the whole array, of `value_text_max` bytes.
pub record Prompt : Type 0 where
  pub value_text : Bytes
  pub value_text_max : ℕ
  pub value_shown_start : ℕ
  pub value_shown_end : ℕ
  pub cursor : ℕ
  pub state : PromptState

-- `login.fail_up`, the prompts LOGIN_PROMPT_USERNAME and LOGIN_PROMPT_PASSWORD, and whether
-- notify_done was called with NOTIFY_OK.
pub record Login : Type 0 where
  pub login_state : LoginState
  pub active_prompt : ℕ
  pub username : Prompt
  pub password : Prompt
  pub fail_up : Bool
  pub notified : Bool

-- The measures of the font and of the fields, and the resources echoPasswd and echoPasswdChar.
pub record Screen : Type 0 where
  pub text_width : Bytes → ℕ
  pub max_value_w : ℕ → ℕ
  pub echo_passwd : Bool
  pub echo_passwd_char : ℕ

abbrev pub prompt : ℕ → Login → Prompt
prompt zero w = w.username
prompt (suc n) w = w.password

abbrev pub with_prompt : ℕ → Prompt → Login → Login
with_prompt zero p w = record w { username = p }
with_prompt (suc n) p w = record w { password = p }

abbrev pub is_echoed : Screen → PromptState → Bool
is_echoed s not_shown = false
is_echoed s echo_on = true
is_echoed s echo_off = s.echo_passwd
is_echoed s text_info = true

-- `strlen` of the value.
abbrev pub value_length : Prompt → ℕ
value_length p = length (c_string p.value_text)

-- The string from an index on.
abbrev pub string_at : ℕ → Bytes → Bytes
string_at i t = c_string (drop i t)

-- The buffer that is drawn from: the array, or asterisks for a password.
abbrev pub drawn : Screen → PromptState → Bytes → Bytes
drawn s echo_off t =
    if s.echo_passwd then map (λ c. s.echo_passwd_char) (c_string t) ++ 0 ∷ [] else t
drawn s _ t = t

-- The loop that finds where to begin and how many characters fit.
unfoldable pub fit : Screen → ℕ → ℕ → Bytes → ℕ → ℕ → ℕ × ℕ
fit s width c t offset zero = (offset, 0)
fit s width c t offset (suc len) =
    let rest = fit s width c t (if ltb offset c then suc offset else offset) len in
    if ltb width (s.text_width (take (suc len) (drop offset t))) then rest else (offset, suc len)

-- The new start and end of what is shown.
abbrev pub scroll : ℕ × ℕ → Prompt → Prompt
scroll (offset, len) p = record p { value_shown_start = offset; value_shown_end = offset + len }

-- Where the text begins that is drawn from `from` on, and whether it is too wide for what is left of the
-- field.
abbrev pub draw_offset : ℕ → Prompt → ℕ
draw_offset from p = if ltb p.value_shown_start from then from else p.value_shown_start

abbrev pub overflows : Screen → ℕ → ℕ → Bytes → Prompt → Bool
overflows s n from t p =
    let curoff = if ltb p.value_shown_start from then s.text_width (take from t) else 0 in
    ltb (s.max_value_w n) (s.text_width (string_at (draw_offset from p) t) + curoff)

abbrev pub is_nul : ℕ → Bool
is_nul c = c == 0

-- DrawValue; EraseValue changes nothing here. Without a NUL from the offset on, the buffer is read
-- out of bounds.
unfoldable pub draw_value : Screen → ℕ → ℕ → Prompt → Result Prompt
unfolding fit
draw_value s n from p =
    let t = drawn s p.state p.value_text in
    let start = p.value_shown_start in
    let q =
      if overflows s n from t p
      then scroll (fit s (s.max_value_w n) p.cursor t start (length (string_at start t))) p
      else p in
    if is_echoed s p.state
    then if any is_nul (drop (draw_offset from p) t) then ok q else fault out_of_bounds
    else ok p

-- `strcpy` of the string behind a character onto it.
abbrev pub cut_char : ℕ → Bytes → Bytes
cut_char c t =
    let rest = string_at (suc c) t in take c t ++ (rest ++ 0 ∷ drop (suc (c + length rest)) t)

unfoldable pub realize_delete_char : Screen → ℕ → Prompt → Result Prompt
realize_delete_char s n p =
    let c = p.cursor in
    let cut = record p { value_text = cut_char c p.value_text } in
    if ltb c (value_length p)
    then if ltb c p.value_shown_start
      then draw_value s n 0 (record cut { value_shown_start = c })
      else draw_value s n c cut
    else ok p

abbrev pub remove_fail : Login → Login
remove_fail w = record w { fail_up = false }

-- The early return of the handlers when the widget does not prompt.
abbrev pub if_prompting {ℓ} : {A : Type ℓ} → LoginState → A → A → A
if_prompting prompting x y = x
if_prompting initializing x y = y
if_prompting show_message x y = y
if_prompting done x y = y

-- A handler that changes the active prompt while the widget prompts.
unfoldable pub edit : (ℕ → Prompt → Result Prompt) → Login → Result Login
edit f w =
    let w' = remove_fail w in
    let n = w.active_prompt in
    if_prompting w.login_state (do p ← f n (prompt n w'); ok (with_prompt n p w')) (ok w')

unfoldable pub delete_backward : Screen → ℕ → Prompt → Result Prompt
delete_backward s n p =
    if ltb 0 p.cursor then realize_delete_char s n (record p { cursor = p.cursor - 1 }) else ok p

-- The start of what is shown follows the cursor to the left.
abbrev pub show_from_cursor : Screen → ℕ → Prompt → Result Prompt
show_from_cursor s n p =
    if ltb p.cursor p.value_shown_start
    then draw_value s n 0 (record p { value_shown_start = p.cursor })
    else ok p

unfoldable pub move_backward : Screen → ℕ → Prompt → Result Prompt
move_backward s n p =
    show_from_cursor s n (if ltb 0 p.cursor then record p { cursor = p.cursor - 1 } else p)

abbrev pub show_to_cursor : Screen → ℕ → Prompt → Result Prompt
show_to_cursor s n p = if ltb p.value_shown_end p.cursor then draw_value s n 0 p else ok p

unfoldable pub move_forward : Screen → ℕ → Prompt → Result Prompt
move_forward s n p =
    if ltb p.cursor (value_length p)
    then show_to_cursor s n (record p { cursor = p.cursor + 1 })
    else ok p

unfoldable pub move_to_beginning : Screen → ℕ → Prompt → Result Prompt
move_to_beginning s n p =
    if ltb 0 p.value_shown_start
    then draw_value s n 0 (record p { cursor = 0; value_shown_start = 0 })
    else ok (record p { cursor = 0 })

unfoldable pub move_to_end : Screen → ℕ → Prompt → Result Prompt
move_to_end s n p = show_to_cursor s n (record p { cursor = value_length p })

abbrev pub zeros : ℕ → Bytes
zeros zero = []
zeros (suc n) = 0 ∷ zeros n

-- `bzero` from the cursor on; a cursor behind the array makes its size wrap around.
unfoldable pub erase_to_end_of_line : ℕ → Prompt → Result Prompt
erase_to_end_of_line n p =
    let c = p.cursor in
    if leb c p.value_text_max
    then ok (record p { value_text = take c p.value_text ++ zeros (p.value_text_max - c) })
    else fault out_of_bounds

abbrev pub is_input : Login → ℕ → Bool
is_input w n = elim (prompt n w).state [ echo_on ↦ true | echo_off ↦ true | _ ↦ false ]

-- The prompts behind one, up to LAST_PROMPT.
abbrev pub later_prompts : ℕ → List ℕ
later_prompts zero = 1 ∷ []
later_prompts (suc n) = []

unfoldable pub finish_field : Login → Login
finish_field w =
    let w' = remove_fail w in
    if_prompting w.login_state
      (elim (find? (is_input w) (later_prompts w.active_prompt)) [
        | some next ↦ record w' { active_prompt = next }
        | none ↦ record w' { login_state = done; notified = true }
      ])
      w'

-- From the last prompt the loop ends when it is back there; from the first one, which it tests as the
-- second, it goes on for ever when neither takes input.
abbrev pub next_field : Login → ℕ → Result ℕ
next_field w zero = elim (find? (is_input w) (1 ∷ 0 ∷ [])) [
  | some n ↦ ok n
  | none ↦ fault no_return
]
next_field w (suc n) = if is_input w 0 then ok 0 else ok (suc n)

unfoldable pub tab_field : Login → Result Login
tab_field w =
    let w' = remove_fail w in
    if_prompting w.login_state
      (do n ← next_field w w.active_prompt; ok (record w' { active_prompt = n })) (ok w')

-- The string at the cursor is moved up with its NUL, and the characters are copied in front of it.
abbrev pub put_at : ℕ → Bytes → Bytes → Bytes
put_at c str t =
    let rest = string_at c t in
    take c t ++ (str ++ (rest ++ 0 ∷ drop (suc (c + length str + length rest)) t))

abbrev pub move_cursor : ℕ → Prompt → Prompt
move_cursor c p = record p { cursor = c }

-- DrawValue is called before the cursor moves on.
abbrev pub insert_at_cursor : Screen → ℕ → Bytes → Prompt → Result Prompt
insert_at_cursor s n [] p = ok p
insert_at_cursor s n (x ∷ xs) p =
    let c = p.cursor in
    let str = x ∷ xs in
    let rest = string_at c p.value_text in
    let drawn_prompt = draw_value s n c (record p { value_text = put_at c str p.value_text }) in
    if ltb (c + length str + length rest) p.value_text_max
    then (drawn_prompt >>= λ q. ok (move_cursor (c + length str) q))
    else fault out_of_bounds

-- As many as there is room for; a negative length is out of bounds.
unfoldable pub insert_text : Screen → ℕ → Bytes → Prompt → Result Prompt
insert_text s n str p =
    let used = value_length p in
    if leb (p.value_text_max - 1) (length str + used)
    then if leb (used + 2) p.value_text_max
      then insert_at_cursor s n (take (p.value_text_max - used - 2) str) p
      else fault out_of_bounds
    else insert_at_cursor s n str p

abbrev pub reset_prompt : Prompt → Prompt
reset_prompt p = record p { value_text = zeros p.value_text_max; value_shown_start = 0; cursor = 0 }

unfoldable pub reset_login : Login → Login
reset_login w = record w {
  username = reset_prompt w.username;
  password = reset_prompt w.password;
  login_state = prompting;
  active_prompt = 0;
}
