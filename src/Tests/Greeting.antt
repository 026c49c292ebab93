-- ===== src/Tests/Greeting.antt =====
-- greeter/Login.c: keys in the user name's prompt.
use xdm.Base.{◌*◌, true, false, [], ◌∷◌, ◌++◌, Bytes, codes, length, ◌≡◌, refl}
use xdm.Base.Result.{ok, fault, out_of_bounds}
use xdm.Login.{
  Prompt, Login, Screen, echo_on, echo_off, prompting, zeros, draw_value, fit, edit, insert_text,
}
use xdm.Login.Keys.{other_key, left_key, Action, insert_char_action, perform, insert_char}

-- Every character is ten wide, and three of them fit.
abbrev narrow : Screen
narrow = record {
  text_width = λ t. 10 * length t;
  max_value_w = λ n. 35;
  echo_passwd = false;
  echo_passwd_char = 42;
}

-- "ron" is in a buffer of eight bytes, the cursor behind it.
abbrev name_prompt : Prompt
name_prompt = record {
  value_text = codes "ron" ++ zeros 5;
  value_text_max = 8;
  value_shown_start = 0;
  value_shown_end = 0;
  cursor = 3;
  state = echo_on;
}

abbrev passwd_prompt : Prompt
passwd_prompt = record {
  value_text = zeros 8;
  value_text_max = 8;
  value_shown_start = 0;
  value_shown_end = 0;
  cursor = 0;
  state = echo_off;
}

abbrev at_name : Login
at_name = record {
  login_state = prompting;
  active_prompt = 0;
  username = name_prompt;
  password = passwd_prompt;
  fail_up = true;
  notified = false;
}

abbrev typed : Bytes → Action
typed s = insert_char_action (record { keysym = other_key; characters = s })

-- Of four characters three are taken; what is drawn stands at the old cursor.
type_aldo :
    perform narrow (typed (codes "aldo")) at_name
    ≡ ok (record at_name {
      username = record name_prompt {
        value_text = codes "ronald" ++ zeros 2;
        cursor = 6;
        value_shown_start = 3;
        value_shown_end = 6;
      };
      fail_up = false;
    })
unfolding perform insert_char edit insert_text draw_value fit
type_aldo = refl

-- A typed NUL ends the value, and the cursor stands behind it.
type_nul :
    perform narrow (typed (0 ∷ [])) at_name
    ≡ ok (record at_name {
      username = record name_prompt { value_text = codes "ron" ++ zeros 5; cursor = 4 };
      fail_up = false;
    })
unfolding perform insert_char edit insert_text draw_value fit
type_nul = refl

-- As many characters as the buffer has bytes leave none for its NUL.
type_too_much :
    insert_char narrow (record { keysym = left_key; characters = zeros 128 }) at_name
    ≡ fault out_of_bounds
unfolding insert_char
type_too_much = refl

-- A value that leaves one byte of its array free makes the length to insert negative.
type_in_full :
    insert_text narrow 0
      (codes "x")
      (record name_prompt { value_text = codes "longish" ++ zeros 1 })
    ≡ fault out_of_bounds
unfolding insert_text
type_in_full = refl
