-- ===== src/Login/Actions.antt =====
-- What the actions of the login widget do to the line of the active prompt.
use xdm.Base.{ℕ, zero, suc, ◌-◌, ◌≤◌, ◌<◌, length, [], ◌≡◌, refl, arith}
use xdm.Base.Result.{Result, ok}
use xdm.Login.{reset_login, reset_prompt, zeros, Prompt, Login, Screen, prompting, prompt}
use xdm.Login.Keys.{strbuf_size, Action, insert_char_action}
use xdm.Login.Line.{Line}
use xdm.Login.Buffer.{Clean, zeros-suc}
use xdm.Login.Holds.{Holds, Shows}

-- An action is an edit of the line in the prompt that is active when it begins.
abbrev Turns : Screen → ℕ → Login → Result Login → Line → Type 0
Turns s max w r y = (w' : Login) × (r ≡ ok w') × Shows max (prompt w.active_prompt w') y

-- A key event whose characters leave room for a NUL in `strbuf`, and are none.
abbrev pub IsTyped : Action → Type 0
IsTyped (insert_char_action k) = (length k.characters < strbuf_size) × Clean k.characters
IsTyped _ = Unit

reset_prompt-Holds :
    (p : Prompt) → 2 ≤ p.value_text_max → Holds p.value_text_max (reset_prompt p) ([], [])
reset_prompt-Holds p le = record {
  rest = zeros (p.value_text_max - 1);
  text = zeros-suc p.value_text_max (omega arith);
  before = tt;
  behind = tt;
  at = refl;
  limit = refl;
  room = le;
}

-- After ResetLogin the widget prompts for the user's name, and both prompts hold the empty line.
pub reset_login-Shows :
    (n : ℕ) (w : Login)
    → 2 ≤ (prompt n w).value_text_max
    → ((reset_login w).login_state ≡ prompting)
      × ((reset_login w).active_prompt ≡ 0)
      × Shows (prompt n w).value_text_max (prompt n (reset_login w)) ([], [])
unfolding reset_login
reset_login-Shows zero w le = (refl, refl, (reset_prompt-Holds w.username le, omega arith))
reset_login-Shows (suc n) w le = (refl, refl, (reset_prompt-Holds w.password le, omega arith))
