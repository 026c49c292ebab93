-- ===== src/Access/Words.antt =====
-- xdm/access.c: ReadWord. A file is the characters that are still to be read, with `nextIsEOF`.
use xdm.Base.{
  ℕ, Bool, true, false, [], ◌∷◌, ◌++◌, ◌==◌, ltb, if◌then◌else◌, Option, none, some, Bytes, length,
}

pub record File : Type 0 where
  pub chars : Bytes
  pub next_is_eof : Bool

-- What the next character is taken for: as it is, behind a backslash, or in a comment.
pub data Mode : Type 0 where
  plain quoted comment : Mode

-- What a character does: it ends the call, with the word or the null pointer and `nextIsEOF`, or is
-- consumed.
pub data Scanned : Type 0 where
  ends : Option Bytes → Bool → Scanned
  goes_on : Mode → Bytes → Scanned

abbrev pub is_empty : Bytes → Bool
is_empty [] = true
is_empty (c ∷ cs) = false

-- The end of the file, or of a line that counts as one: with `ungetc`.
abbrev pub at_end : Bytes → Scanned
at_end word = if is_empty word then ends none false else ends (some word) true

abbrev pub at_space : Bytes → Scanned
at_space word = if is_empty word then goes_on plain [] else ends (some word) false

-- `EOFatEOL && !quoted`
abbrev pub at_newline : Bool → Bytes → Scanned
at_newline eof_at_eol word = if eof_at_eol then at_end word else at_space word

-- The cases of the switch, with the fall-throughs.
abbrev pub at_char : Bool → Mode → Bytes → ℕ → Scanned
at_char eof_at_eol comment word c =
    if c == 10 then at_newline eof_at_eol word else goes_on comment word
at_char eof_at_eol plain word c =
    if c == b'#'
    then goes_on comment word
    else if c == 10
    then at_newline eof_at_eol word
    else if c == 32
    then at_space word
    else if c == 9
    then at_space word
    else if c == 92
    then goes_on quoted word
    else goes_on plain (word ++ c ∷ [])
at_char eof_at_eol quoted word c =
    if c == 10
    then at_space word
    else if c == 32
    then at_space word
    else if c == 9
    then at_space word
    else goes_on plain (word ++ c ∷ [])

-- `sizeof (wordBuffer) - 2`
abbrev pub longest_word : ℕ
longest_word = 254

abbrev pub finish : Bytes → Scanned → Option Bytes × File
finish left (ends word eof) = (word, record { chars = left; next_is_eof = eof })
finish left (goes_on m word) = (none, record { chars = left; next_is_eof = false })

-- The loop of ReadWord; a word that fills the buffer ends it with the null pointer.
unfoldable pub scan_word : Bool → Mode → Bytes → Bytes → Option Bytes × File
scan_word eof_at_eol m word [] =
    finish [] (if ltb (length word) longest_word then at_end word else ends none false)
scan_word eof_at_eol m word (c ∷ cs) =
    elim (if ltb (length word) longest_word then at_char eof_at_eol m word c else ends none false) [
      | ends found eof ↦ (found, record { chars = c ∷ cs; next_is_eof = eof })
      | goes_on m' word' ↦ scan_word eof_at_eol m' word' cs
    ]

unfoldable pub read_word : Bool → File → Option Bytes × File
read_word eof_at_eol f =
    if f.next_is_eof
    then (none, record f { next_is_eof = false })
    else scan_word eof_at_eol plain [] f.chars
