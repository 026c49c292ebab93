-- ===== src/File/Words.antt =====
-- The words of a line: words that are parted by white space come out as they were.
use xdm.Base.{
  ℕ, zero, suc, ◌≤◌, true, false, List, [], ◌∷◌, ◌++◌, ◌==◌, none, some, Bytes, length, isspace,
  ◌≡◌, ◌≢◌, refl, ap, ◌∙◌, arith, or_false, All, length-append,
}
use mathlib.Core.Path.{ap₂}
use xdm.File.{skip_spaces, ends_word, take_word, drop_word, split_loop, split_into_words}

-- A word: not empty, and free of spaces and '#'.
abbrev pub Plain : Bytes → Type 0
Plain w = All (λ c. ends_word c ≡ false) w

abbrev pub IsWord : Bytes → Type 0
IsWord w = (w ≢ []) × Plain w

-- White space.
abbrev pub IsBlank : Bytes → Type 0
IsBlank g = All (λ c. isspace c ≡ true) g

-- Words, each with what stands in front of it.
abbrev pub spaced : List (Bytes × Bytes) → Bytes → Bytes
spaced [] rest = rest
spaced ((g, w) ∷ ws) rest = g ++ (w ++ spaced ws rest)

abbrev pub words_of : List (Bytes × Bytes) → List Bytes
words_of [] = []
words_of ((g, w) ∷ ws) = w ∷ words_of ws

abbrev pub IsSpacedWord : Bytes × Bytes → Type 0
IsSpacedWord (g, w) = IsBlank g × IsWord w

-- There is white space in front of each word.
abbrev pub AreParted : List (Bytes × Bytes) → Type 0
AreParted ws = All (λ (x : Bytes × Bytes). x.0 ≢ []) ws

-- There is in front of each word but the first.
abbrev pub AreApart : List (Bytes × Bytes) → Type 0
AreApart [] = Unit
AreApart (x ∷ ws) = AreParted ws

-- A comment, or nothing.
abbrev pub IsComment : Bytes → Type 0
IsComment [] = Unit
IsComment (c ∷ s) = c ≡ b'#'

-- What stands behind a word does not belong to it.
abbrev Stops : Bytes → Type 0
Stops [] = Unit
Stops (c ∷ s) = ends_word c ≡ true

take_word-append : (w rest : Bytes) → Plain w → Stops rest → take_word (w ++ rest) ≡ w
take_word-append [] [] p s = refl
take_word-append [] (c ∷ rest) p s = rw s
take_word-append (c ∷ w) rest (p, q) s = rw (p, take_word-append w rest q s)

drop_word-append : (w rest : Bytes) → Plain w → Stops rest → drop_word (w ++ rest) ≡ rest
drop_word-append [] [] p s = refl
drop_word-append [] (c ∷ rest) p s = rw s
drop_word-append (c ∷ w) rest (p, q) s = rw (p, drop_word-append w rest q s)

skip_spaces-append : (g rest : Bytes) → IsBlank g → skip_spaces (g ++ rest) ≡ skip_spaces rest
skip_spaces-append [] rest b = refl
skip_spaces-append (c ∷ g) rest (e, b) = rw e (skip_spaces-append g rest b)

skip_spaces-comment : (rest : Bytes) → IsComment rest → skip_spaces rest ≡ rest
skip_spaces-comment [] e = refl
skip_spaces-comment (c ∷ rest) e = ground arith

blank-Stops : (g rest : Bytes) → IsBlank g → g ≢ [] → Stops (g ++ rest)
blank-Stops [] rest b ne = absurd (ne refl)
blank-Stops (c ∷ g) rest (e, b) ne = ground arith

end-Stops : (trail rest : Bytes) → IsBlank trail → IsComment rest → Stops (trail ++ rest)
end-Stops [] [] b e = tt
end-Stops [] (c ∷ rest) b e = ground arith
end-Stops (c ∷ trail) rest (s, b) e = ground arith

spaced-Stops :
    (ws : List (Bytes × Bytes)) (trail rest : Bytes)
    → All IsSpacedWord ws
    → AreParted ws
    → IsBlank trail
    → IsComment rest
    → Stops (spaced ws (trail ++ rest))
spaced-Stops [] trail rest a d b e = end-Stops trail rest b e
spaced-Stops ((g, w) ∷ ws) trail rest (a, all) (d, ds) b e = blank-Stops g _ a.0 d

split_loop-end :
    (fuel : ℕ) (trail rest : Bytes)
    → IsBlank trail
    → IsComment rest
    → split_loop fuel (trail ++ rest) ≡ []
unfolding split_loop
split_loop-end zero trail rest b e = refl
split_loop-end (suc fuel) trail [] b e = rw (split_loop, skip_spaces-append trail [] b) refl
split_loop-end (suc fuel) trail (c ∷ rest) b e =
    rw (split_loop, skip_spaces-append trail (c ∷ rest) b, skip_spaces-comment (c ∷ rest) e)
      (let hash : (c == b'#') ≡ true = ground arith in rw hash refl)

split_loop-step :
    (fuel : ℕ) (g : Bytes) (c : ℕ) (r : Bytes)
    → IsBlank g
    → (c == b'#') ≡ false
    → isspace c ≡ false
    → split_loop (suc fuel) (g ++ c ∷ r) ≡ take_word (c ∷ r) ∷ split_loop fuel (drop_word (c ∷ r))
unfolding split_loop
split_loop-step fuel g c r b p q =
    let skip : skip_spaces (c ∷ r) ≡ c ∷ r = rw q refl in
    rw (split_loop, skip_spaces-append g (c ∷ r) b, skip) (rw p refl)

split_loop-spaced :
    (fuel : ℕ) (ws : List (Bytes × Bytes)) (trail rest : Bytes)
    → All IsSpacedWord ws
    → AreApart ws
    → IsBlank trail
    → IsComment rest
    → length (spaced ws (trail ++ rest)) ≤ fuel
    → split_loop fuel (spaced ws (trail ++ rest)) ≡ words_of ws
split_loop-spaced fuel [] trail rest a d b e le = split_loop-end fuel trail rest b e
split_loop-spaced fuel ((g, []) ∷ ws) trail rest a d b e le = absurd (a.0.1.0 refl)
split_loop-spaced zero ((g, c ∷ w) ∷ ws) trail rest a d b e le =
    absurd (omega (arith, length-append g ((c ∷ w) ++ spaced ws (trail ++ rest))))
split_loop-spaced (suc fuel) ((g, c ∷ w) ∷ ws) trail rest ((blank, (ne, p)), a) d b e le =
    let more = spaced ws (trail ++ rest) in
    let stop = spaced-Stops ws trail rest a d b e in
    let q = or_false (c == b'#') (isspace c) p.0 in
    split_loop-step fuel g c (w ++ more) blank q.0 q.1
    ∙ ap₂ ◌∷◌ (take_word-append (c ∷ w) more p stop) (
        ap (split_loop fuel) (drop_word-append (c ∷ w) more p stop)
        ∙ split_loop-spaced fuel ws trail rest a (parted ws d) b e
            (omega (arith, length-append w more, length-append g (c ∷ (w ++ more)))))
  where
    parted : (ws : List (Bytes × Bytes)) → AreParted ws → AreApart ws
    parted [] d = tt
    parted (x ∷ ws) d = d.1

-- A line of words that are parted by white space, of any kind and length, with or without white space at
-- both ends, and with or without a comment at the end, is split into those words; a line without words
-- gives the null pointer.
pub split_into_words-spaced :
    (ws : List (Bytes × Bytes)) (trail rest : Bytes)
    → All IsSpacedWord ws
    → AreApart ws
    → IsBlank trail
    → IsComment rest
    → split_into_words (spaced ws (trail ++ rest))
      ≡ elim (words_of ws) [ [] ↦ none | w ∷ more ↦ some (w ∷ more) ]
unfolding split_into_words
split_into_words-spaced ws trail rest a d b e =
    ap (λ (l : List Bytes). elim l [ [] ↦ none | w ∷ more ↦ some (w ∷ more) ])
      (split_loop-spaced (length (spaced ws (trail ++ rest))) ws trail rest a d b e (omega arith))
