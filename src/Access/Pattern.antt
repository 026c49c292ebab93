-- ===== src/Access/Pattern.antt =====
-- xdm/access.c: patternMatch, and what its patterns mean.
pub mod Meaning
use xdm.Base.{
  ℕ, zero, suc, ◌+◌, Bool, true, false, ◌&&◌, not, List, [], ◌∷◌, ◌==◌, if◌then◌else◌, Bytes, drop,
  length, tolower, ◌≡◌, ◌⊎◌, inl, inr, refl, sym, ap, ◌∙◌, ◌↔◌, arith, Bool-cases,
}
use mathlib.Core.Path.{subst}
use xdm.Base.Result.{Result, ok, fault, out_of_bounds, ◌>>=◌}

-- `p == s` for two characters in either case.
abbrev pub same_letter : ℕ → ℕ → Bool
same_letter p s = tolower p == tolower s

-- One character of the string that passes the test, and the rest of the pattern.
abbrev pub one : (ℕ → Bool) → (Bytes → Result Bool) → Bytes → Result Bool
one t f [] = ok false
one t f (x ∷ s) = if t x then f s else ok false

abbrev pub or_else : Result Bool → Bool → Result Bool
or_else r true = ok true
or_else r false = r

-- `for (string--; *string; string++) if (patternMatch (string, pattern)) return 1;`
abbrev pub try_each : (Bytes → Result Bool) → Bytes → Result Bool
try_each f [] = ok false
try_each f (x ∷ s) = f (x ∷ s) >>= or_else (try_each f s)

abbrev pub is_empty : Bytes → Bool
is_empty [] = true
is_empty (x ∷ s) = false

-- The flag is set behind a `\`. A pattern that ends there is left behind at the end of the string.
match_from : Bool → Bytes → Bytes → Result Bool
match_from true [] [] = fault out_of_bounds
match_from true [] (x ∷ s) = ok false
match_from true (c ∷ p) s = one (same_letter c) (match_from false p) s
match_from false [] s = ok (is_empty s)
match_from false (c ∷ p) s =
    if c == b'*'
    then (if is_empty p then ok true else try_each (match_from false p) s)
    else if c == b'?'
    then one (λ x. true) (match_from false p) s
    else if c == b'\\'
    then match_from true p s
    else one (same_letter c) (match_from false p) s

unfoldable pub pattern_match : Bytes → Bytes → Result Bool
unfolding match_from
pattern_match string pattern = match_from false pattern string

-- What a pattern means: the string begins with a character that passes the test, and `P` holds of the
-- rest; `P` holds of some tail of the string.
abbrev pub One : (ℕ → Bool) → (Bytes → Type 0) → Bytes → Type 0
One t P s = (x : ℕ) × (r : Bytes) × (s ≡ x ∷ r) × (t x ≡ true) × P r

abbrev pub Somewhere : (Bytes → Type 0) → Bytes → Type 0
Somewhere P s = (k : ℕ) × P (drop k s)

-- `*` stands for any text, `?` for any character, `\` takes the next character for itself, and letters
-- stand for themselves in either case.
unfoldable pub Glob : Bool → Bytes → Bytes → Type 0
Glob true [] s = ⊥
Glob true (c ∷ p) s = One (same_letter c) (Glob false p) s
Glob false [] s = s ≡ []
Glob false (c ∷ p) s =
    if c == b'*'
    then Somewhere (Glob false p) s
    else if c == b'?'
    then One (λ x. true) (Glob false p) s
    else if c == b'\\'
    then Glob true p s
    else One (same_letter c) (Glob false p) s

abbrev pub starless : Bytes → Bool
starless [] = true
starless (c ∷ p) = not (c == b'*')

-- No `*` stands before another, and no `\` at the end.
unfoldable pub is_plain : Bool → Bytes → Bool
is_plain true [] = false
is_plain true (c ∷ p) = is_plain false p
is_plain false [] = true
is_plain false (c ∷ p) =
    if c == b'*'
    then (starless p && is_plain false p)
    else if c == b'\\'
    then is_plain true p
    else is_plain false p
