-- ===== src/Xdmauth/Keys.antt =====
-- The keys that XdmGetKey finds.
use mathlib.Core.Path.{ap₂}
use xdm.Base.{
  c_string, ℕ, ◌+◌, ◌*◌, ◌/◌, ◌%◌, ◌<◌, true, false, List, [], ◌∷◌, ◌++◌, ◌==◌, some, Bytes, codes,
  ◌⊎◌, ◌≢◌, inl, inr, none, equal, equal_iff, Bool-split, equal_refl, begins, isspace, length, All,
  ◌≡◌, refl, ap, ◌∙◌, arith,
}
use xdm.Choose.{hex_char, hex}
use xdm.Xdmauth.{
  is_comment, atox, hex_to_binary, skip_white, word_of, behind_word, both_words, scan_line,
  key_of_string, key_of, xdm_get_key,
}

atox-hex_char : (n : ℕ) → n < 16 → atox (hex_char n) ≡ some n
atox-hex_char n lt = ground arith

hex_to_binary-hex : (bs : Bytes) → All (λ b. b < 256) bs → hex_to_binary (hex bs) ≡ some bs
unfolding hex_to_binary
hex_to_binary-hex [] h = refl
hex_to_binary-hex (b ∷ bs) (lt, h) =
    let whole : (b / 16) % 16 * 16 + b % 16 ≡ b = omega arith in
    rw
      (
        atox-hex_char ((b / 16) % 16) (omega arith),
        atox-hex_char (b % 16) (omega arith),
        hex_to_binary-hex bs h,
        whole,
      )
      refl

-- Without white space.
abbrev Dark : Bytes → Type 0
Dark w = All (λ c. isspace c ≡ false) w

word_of-append : (w rest : Bytes) (c : ℕ) → Dark w → isspace c ≡ true → word_of (w ++ c ∷ rest) ≡ w
word_of-append [] rest c d e = rw e refl
word_of-append (x ∷ w) rest c (n, d) e = rw (n, word_of-append w rest c d e) refl

behind_word-append :
    (w rest : Bytes) (c : ℕ) → Dark w → isspace c ≡ true → behind_word (w ++ c ∷ rest) ≡ c ∷ rest
behind_word-append [] rest c d e = rw e refl
behind_word-append (x ∷ w) rest c (n, d) e = rw (n, behind_word-append w rest c d e) refl

skip_white-dark : (c : ℕ) (cs : Bytes) → isspace c ≡ false → skip_white (c ∷ cs) ≡ c ∷ cs
skip_white-dark c cs e = rw e refl

hex-Dark : (bs : Bytes) → Dark (hex bs)
hex-Dark [] = tt
hex-Dark (b ∷ bs) =
    (digit-Dark ((b / 16) % 16) (omega arith), (digit-Dark (b % 16) (omega arith), hex-Dark bs))
  where
    digit-Dark : (n : ℕ) → n < 16 → isspace (hex_char n) ≡ false
    digit-Dark n lt = ground arith

-- A line of the keys file: a display's id and its key.
abbrev pub key_line : Bytes → Bytes → Bytes
key_line id key = id ++ 32 ∷ (key ++ 10 ∷ [])

scan_line-key_line :
    (x : ℕ) (xs : Bytes) (y : ℕ) (ys : Bytes)
    → Dark (x ∷ xs)
    → Dark (y ∷ ys)
    → scan_line (key_line (x ∷ xs) (y ∷ ys)) ≡ some (x ∷ xs, y ∷ ys)
unfolding scan_line
scan_line-key_line x xs y ys d f =
    let line = key_line (x ∷ xs) (y ∷ ys) in
    let key = y ∷ (ys ++ 10 ∷ []) in
    let s = skip_white-dark x (xs ++ 32 ∷ key) d.0 in
    ap₂ both_words (ap word_of s ∙ word_of-append (x ∷ xs) key 32 d refl) (
      ap (λ l. word_of (skip_white (behind_word l))) s
      ∙ (ap (λ l. word_of (skip_white l)) (behind_word-append (x ∷ xs) key 32 d refl)
          ∙ (ap word_of (skip_white-dark y (ys ++ 10 ∷ []) f.0)
              ∙ word_of-append (y ∷ ys) [] 10 f refl)))

-- A line that is no entry for the display: a comment, a line without two words, or the entry of
-- another display.
abbrev pub IsOther : Bytes → Bytes → Type 0
IsOther id line =
    (is_comment line ≡ true)
    ⊎ (scan_line line ≡ none)
    ⊎ ((name : Bytes) × (key : Bytes) × (scan_line line ≡ some (name, key)) × (name ≢ id))

xdm_get_key-other :
    (line : Bytes) (rest : List Bytes) (id : Bytes)
    → IsOther id line
    → xdm_get_key (line ∷ rest) id ≡ xdm_get_key rest id
unfolding xdm_get_key
xdm_get_key-other line rest id (inl c) = rw c refl
xdm_get_key-other line rest id (inr (inl n)) =
    Bool-split (is_comment line) (λ c. rw c refl) (λ c. rw (c, n) refl)
xdm_get_key-other line rest id (inr (inr (name, key, e, ne))) =
    let differs : equal name id ≡ false = ground (arith, equal_iff name id) in
    Bool-split (is_comment line) (λ c. rw c refl) (λ c. rw (c, e, differs) refl)

-- A key that is written as a hexadecimal number is found under its display's id, wherever its line stands
-- behind lines that are comments, have no two words or are for other displays: it is a NUL, and the first
-- seven bytes of the number up to its first zero byte, with NULs behind them. The id has no white space
-- and does not begin with '#'.
pub xdm_get_key-hex :
    (before : List Bytes) (x : ℕ) (xs bs : Bytes) (after : List Bytes)
    → All (IsOther (x ∷ xs)) before
    → Dark (x ∷ xs)
    → (x == b'#') ≡ false
    → All (λ b. b < 256) bs
    → xdm_get_key (before ++ key_line (x ∷ xs) (codes "0x" ++ hex bs) ∷ after) (x ∷ xs)
      ≡ some (key_of_string (c_string bs))
unfolding xdm_get_key key_of begins
xdm_get_key-hex [] x xs bs after others d ne h =
    rw
      (
        ne,
        scan_line-key_line x xs b'0' (b'x' ∷ hex bs) d (refl, (refl, hex-Dark bs)),
        equal_refl (x ∷ xs),
        hex_to_binary-hex bs h,
      )
      refl
xdm_get_key-hex (line ∷ before) x xs bs after (other, others) d ne h =
    xdm_get_key-other line (before ++ key_line (x ∷ xs) (codes "0x" ++ hex bs) ∷ after) (x ∷ xs)
      other
    ∙ xdm_get_key-hex before x xs bs after others d ne h

key_of_string-length : (s : Bytes) → length (key_of_string s) ≡ 8
key_of_string-length [] = refl
key_of_string-length (a ∷ []) = refl
key_of_string-length (a ∷ b ∷ []) = refl
key_of_string-length (a ∷ b ∷ c ∷ []) = refl
key_of_string-length (a ∷ b ∷ c ∷ d ∷ []) = refl
key_of_string-length (a ∷ b ∷ c ∷ d ∷ e ∷ []) = refl
key_of_string-length (a ∷ b ∷ c ∷ d ∷ e ∷ f ∷ []) = refl
key_of_string-length (a ∷ b ∷ c ∷ d ∷ e ∷ f ∷ g ∷ s) = refl
