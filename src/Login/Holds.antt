-- ===== src/Login/Holds.antt =====
-- What it is for a prompt to hold a line with a cursor, and that drawing it keeps that.
use xdm.Base.{
  ℕ, zero, suc, ◌+◌, ◌≤◌, true, ◌∷◌, ◌++◌, any, ltb, if◌then◌else◌, Bytes, length, take, drop,
  c_string, Bool-split, ◌≡◌, refl, sym, ap, ◌∙◌, arith,
}
use xdm.Base.Result.{Result, ok}
use xdm.Login.{
  Prompt, Screen, value_length, drawn, draw_offset, string_at, is_nul, draw_value, overflows,
  is_echoed, fit, scroll,
}
use xdm.Login.Line.{Line, onto, length-onto, onto-append}
use xdm.Login.Buffer.{Clean, Clean-onto, c_string-onto, drawn-nul}

-- The prompt's array holds the line and a NUL behind it, and the line leaves two of its bytes free.
pub record Holds (max : ℕ) (p : Prompt) (z : Line) : Type 0 where
  pub rest : Bytes
  pub text : p.value_text ≡ onto z.0 (z.1 ++ 0 ∷ rest)
  pub before : Clean z.0
  pub behind : Clean z.1
  pub at : p.cursor ≡ length z.0
  pub limit : p.value_text_max ≡ max
  pub room : length z.0 + length z.1 + 2 ≤ max

-- What is shown begins at or before the cursor, too.
abbrev pub Shows : ℕ → Prompt → Line → Type 0
Shows max p z = Holds max p z × (p.value_shown_start ≤ p.cursor)

-- A handler returns a prompt that holds the line.
abbrev pub Gives : ℕ → Result Prompt → Line → Type 0
Gives max r z = (q : Prompt) × (r ≡ ok q) × Shows max q z

pub value_length-Holds :
    {max : ℕ} {p : Prompt} {z : Line} → Holds max p z → value_length p ≡ length z.0 + length z.1
value_length-Holds {max} {p} {z} h =
    ap (λ t. length (c_string t)) h.text
    ∙ (ap length (c_string-onto z.0 z.1 h.rest h.before h.behind) ∙ length-onto z.0 z.1)

-- The cursor goes to another place of the same text.
pub moved :
    {max : ℕ} {p : Prompt} {z : Line} (y : Line) (c from to : ℕ) (h : Holds max p z)
    → Clean y.0
    → Clean y.1
    → onto z.0 (z.1 ++ 0 ∷ h.rest) ≡ onto y.0 (y.1 ++ 0 ∷ h.rest)
    → length y.0 + length y.1 ≡ length z.0 + length z.1
    → c ≡ length y.0
    → Holds max (record p { cursor = c; value_shown_start = from; value_shown_end = to }) y
moved y c from to h before behind e size l =
    let room = h.room in
    record {
      rest = h.rest;
      text = h.text ∙ e;
      before = before;
      behind = behind;
      at = l;
      limit = h.limit;
      room = omega arith;
    }

-- Other characters behind the cursor.
pub retyped :
    {max : ℕ} {p : Prompt} (b a c : Bytes) {t : Bytes} (rest : Bytes)
    → Holds max p (b, c)
    → Clean a
    → t ≡ onto b (a ++ 0 ∷ rest)
    → length b + length a + 2 ≤ max
    → Holds max (record p { value_text = t }) (b, a)
retyped b a c rest h clean e r = record {
  rest = rest;
  text = e;
  before = h.before;
  behind = clean;
  at = h.at;
  limit = h.limit;
  room = r;
}

fit-le : (s : Screen) (width c : ℕ) (t : Bytes) (o len : ℕ) → o ≤ c → (fit s width c t o len).0 ≤ c
unfolding fit
fit-le s width c t o zero h = h
fit-le s width c t o (suc len) h =
    Bool-split (ltb width (s.text_width (take (suc len) (drop o t))))
      (λ y. rw y (fit-le s width c t (if ltb o c then suc o else o) len (ground arith)))
      (λ n. rw n h)

module _ (s : Screen) (n : ℕ) {max : ℕ} where
  pub draw_value-Gives :
      (from : ℕ) {p : Prompt} {z : Line}
      → Shows max p z
      → from ≤ length z.0 + length z.1
      → Gives max (draw_value s n from p) z
  unfolding draw_value
  draw_value-Gives from {p} {z} (h, le) within =
      let t = drawn s p.state p.value_text in
      let at = h.at in
      let o : draw_offset from p ≤ length (onto z.0 z.1) = ground (arith, length-onto z.0 z.1) in
      let whole : onto z.0 z.1 ++ 0 ∷ h.rest ≡ p.value_text =
        onto-append z.0 z.1 (0 ∷ h.rest) ∙ sym h.text in
      let nul : any is_nul (drop (draw_offset from p) t) ≡ true =
        ap (λ x. any is_nul (drop (draw_offset from p) (drawn s p.state x))) (sym whole)
        ∙ drawn-nul s p.state (onto z.0 z.1) h.rest (draw_offset from p)
            (Clean-onto z.0 z.1 h.before h.behind) o in
      Bool-split (is_echoed s p.state)
        (λ y.
          Bool-split (overflows s n from t p)
            (λ v. (
              scroll
                  (fit s (s.max_value_w n) p.cursor t p.value_shown_start
                    (length (string_at p.value_shown_start t)))
                  p,
              rw (y, nul, v) refl,
              (scrolled _ h, fit-le s (s.max_value_w n) p.cursor _ _ _ le),
            ))
            (λ v. (p, rw (y, nul, v) refl, (h, le))))
        (λ e. (p, rw e refl, (h, le)))
    where
      scrolled : (l : ℕ × ℕ) → Holds max p z → Holds max (scroll l p) z
      scrolled l h = record {
        rest = h.rest;
        text = h.text;
        before = h.before;
        behind = h.behind;
        at = h.at;
        limit = h.limit;
        room = h.room;
      }
