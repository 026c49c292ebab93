-- ===== src/Access/Read/Spelling.antt =====
-- ReadWord on words that stand for themselves.
use mathlib.Core.List.{append_assoc, append-nil}
use xdm.Base.{
  ℕ, ◌+◌, ◌<◌, Bool, true, false, ◌&&◌, not, List, [], ◌∷◌, ◌++◌, ◌==◌, ltb, none, some, Bytes,
  length, length-append, All, ◌≡◌, refl, ap, ◌∙◌, arith,
}
use xdm.Access.Words.{plain, goes_on, is_empty, at_char, longest_word, scan_word, read_word}
use xdm.Access.Database.{HostEntry}

-- A character that stands for itself.
abbrev is_literal : ℕ → Bool
is_literal c =
    not (c == b'#') && (not (c == 10) && (not (c == 32) && (not (c == 9) && not (c == 92))))

-- A word that fits in the buffer.
abbrev pub IsWord : Bytes → Type 0
IsWord w = (is_empty w ≡ false) × All (λ c. is_literal c ≡ true) w × (length w < longest_word)

at_char-literal :
    (b : Bool) (word : Bytes) (c : ℕ)
    → is_literal c ≡ true
    → at_char b plain word c ≡ goes_on plain (word ++ c ∷ [])
at_char-literal b word c e = ground arith

scan_word-step :
    (b : Bool) (acc : Bytes) (c : ℕ) (cs : Bytes)
    → ltb (length acc) longest_word ≡ true
    → is_literal c ≡ true
    → scan_word b plain acc (c ∷ cs) ≡ scan_word b plain (acc ++ c ∷ []) cs
unfolding scan_word
scan_word-step b acc c cs fits e = rw (fits, at_char-literal b acc c e, scan_word) refl

scan_word-literals :
    (b : Bool) (acc w rest : Bytes)
    → All (λ c. is_literal c ≡ true) w
    → length acc + length w < longest_word
    → scan_word b plain acc (w ++ rest) ≡ scan_word b plain (acc ++ w) rest
unfolding scan_word
scan_word-literals b acc [] rest a lt = rw (append-nil acc) refl
scan_word-literals b acc (c ∷ w) rest (e, a) lt =
    let fits : ltb (length acc) longest_word ≡ true = ground arith in
    let count : length (acc ++ c ∷ []) ≡ length acc + 1 =
      omega (arith, length-append acc (c ∷ [])) in
    scan_word-step b acc c (w ++ rest) fits e
    ∙ (scan_word-literals b (acc ++ c ∷ []) w rest a (omega arith)
        ∙ ap (λ x. scan_word b plain x rest) (append_assoc acc (c ∷ []) w))

-- Where a word ends.
scan_word-space :
    (b : Bool) (w cs : Bytes)
    → is_empty w ≡ false
    → length w < longest_word
    → scan_word b plain w (32 ∷ cs) ≡ (some w, record { chars = 32 ∷ cs; next_is_eof = false })
unfolding scan_word
scan_word-space b w cs e lt =
    let fits : ltb (length w) longest_word ≡ true = ground arith in rw (fits, e, scan_word) refl

scan_word-newline :
    (b : Bool) (w cs : Bytes)
    → is_empty w ≡ false
    → length w < longest_word
    → scan_word b plain w (10 ∷ cs) ≡ (some w, record { chars = 10 ∷ cs; next_is_eof = b })
unfolding scan_word
scan_word-newline true w cs e lt =
    let fits : ltb (length w) longest_word ≡ true = ground arith in rw (fits, e, scan_word) refl
scan_word-newline false w cs e lt =
    let fits : ltb (length w) longest_word ≡ true = ground arith in rw (fits, e, scan_word) refl

-- The hosts of a line, each word with what it stands for.
abbrev pub Hosts : Type 0
Hosts = List (Bytes × HostEntry)

-- The words with a space in front of each, and the end of the line.
abbrev pub behind : Hosts → Bytes → Bytes
behind [] rest = 10 ∷ rest
behind ((w, h) ∷ hs) rest = 32 ∷ (w ++ behind hs rest)

abbrev pub entries : Hosts → List HostEntry
entries [] = []
entries ((w, h) ∷ hs) = h ∷ entries hs

abbrev pub is_last : Hosts → Bool
is_last [] = true
is_last (x ∷ hs) = false

-- `nextIsEOF` is on at most behind the last word.
abbrev pub Ready : Bool → Hosts → Type 0
Ready eof [] = Unit
Ready eof (x ∷ hs) = eof ≡ false

pub is_last-Ready : (hs : Hosts) → Ready (is_last hs) hs
is_last-Ready [] = tt
is_last-Ready (x ∷ hs) = refl

pub after_word :
    (b : Bool) (w rest : Bytes) (hs : Hosts)
    → IsWord w
    → scan_word b plain [] (w ++ behind hs rest)
      ≡ (some w, record { chars = behind hs rest; next_is_eof = b && is_last hs })
after_word true w rest [] (e, a, lt) =
    scan_word-literals true [] w (behind [] rest) a (omega (arith, lt))
    ∙ scan_word-newline true w rest e lt
after_word false w rest [] (e, a, lt) =
    scan_word-literals false [] w (behind [] rest) a (omega (arith, lt))
    ∙ scan_word-newline false w rest e lt
after_word true w rest ((w', h) ∷ hs) (e, a, lt) =
    scan_word-literals true [] w (behind ((w', h) ∷ hs) rest) a (omega (arith, lt))
    ∙ scan_word-space true w (w' ++ behind hs rest) e lt
after_word false w rest ((w', h) ∷ hs) (e, a, lt) =
    scan_word-literals false [] w (behind ((w', h) ∷ hs) rest) a (omega (arith, lt))
    ∙ scan_word-space false w (w' ++ behind hs rest) e lt

pub read_word-host :
    (w rest : Bytes) (hs : Hosts)
    → IsWord w
    → read_word true (record { chars = 32 ∷ (w ++ behind hs rest); next_is_eof = false })
      ≡ (some w, record { chars = behind hs rest; next_is_eof = is_last hs })
unfolding read_word scan_word
read_word-host w rest hs g = after_word true w rest hs g

pub read_word-last :
    (rest : Bytes) (eof : Bool)
    → read_word true (record { chars = 10 ∷ rest; next_is_eof = eof })
      ≡ (none, record { chars = 10 ∷ rest; next_is_eof = false })
unfolding read_word scan_word
read_word-last rest true = refl
read_word-last rest false = refl
