-- ===== src/Access/Pattern/Meaning.antt =====
-- patternMatch decides the meaning of its patterns.
use xdm.Base.{
  ℕ, zero, suc, Bool, true, false, [], ◌∷◌, ◌==◌, if◌then◌else◌, Bytes, ◌≡◌, ◌⊎◌, inl, inr, refl,
  sym, ap, ◌∙◌, ◌↔◌, arith, Bool-cases, and_true,
}
use mathlib.Core.Path.{subst}
use xdm.Base.Result.{Result, ok}
use xdm.Access.Pattern.{
  same_letter, one, or_else, try_each, is_empty, match_from, pattern_match, One, Somewhere, Glob,
  is_plain, starless,
}

-- The test comes back, and says whether `P`.
abbrev pub Decides : Type 0 → Result Bool → Type 0
Decides P r = (b : Bool) × (r ≡ ok b) × ((b ≡ true) ↔ P)

no_way : false ≡ true → ⊥
no_way e = ground arith

no-One : (t : ℕ → Bool) (P : Bytes → Type 0) → One t P [] → ⊥
no-One t P (x, r, e, y, p) = ground arith

one-Decides :
    (t : ℕ → Bool) (P : Bytes → Type 0) (f : Bytes → Result Bool)
    → ((s : Bytes) → Decides (P s) (f s))
    → (s : Bytes) → Decides (One t P s) (one t f s)
one-Decides t P f d [] = (false, refl, (λ e. ground arith, λ o. absurd (no-One t P o)))
one-Decides t P f d (x ∷ s) = elim (Bool-cases (t x)) [
  | inl y ↦
      let (b, e, io) = d s in
      (
        b,
        rw y e,
        (λ h. (x, s, refl, y, io.0 h), λ (x', r, q, y', p). io.1 (subst P (sym (tail_eq q)) p)),
      )
  | inr n ↦ (
    false,
    rw n refl,
    (λ e. ground arith, λ (x', r, q, y, p). absurd (no_way (sym n ∙ (ap t (head_eq q) ∙ y)))),
  )
]
  where
    head_eq : {a b : ℕ} {u v : Bytes} → a ∷ u ≡ b ∷ v → a ≡ b
    head_eq e = cc

    tail_eq : {a b : ℕ} {u v : Bytes} → a ∷ u ≡ b ∷ v → u ≡ v
    tail_eq e = cc

Somewhere-cons :
    (P : Bytes → Type 0) (x : ℕ) (s : Bytes) → Somewhere P (x ∷ s) → P (x ∷ s) ⊎ Somewhere P s
Somewhere-cons P x s (zero, p) = inl p
Somewhere-cons P x s (suc k, p) = inr (k, p)

Somewhere-nil : (P : Bytes → Type 0) → Somewhere P [] → P []
Somewhere-nil P (zero, p) = p
Somewhere-nil P (suc k, p) = p

try_each-Decides :
    (P : Bytes → Type 0) (f : Bytes → Result Bool)
    → (P [] → ⊥)
    → ((s : Bytes) → Decides (P s) (f s))
    → (s : Bytes) → Decides (Somewhere P s) (try_each f s)
try_each-Decides P f none_left d [] =
    (false, refl, (λ e. ground arith, λ o. absurd (none_left (Somewhere-nil P o))))
try_each-Decides P f none_left d (x ∷ s) =
    let (b, e, io) = d (x ∷ s) in rw e (or_else-Decides b io (try_each-Decides P f none_left d s))
  where
    or_else-Decides :
        (b : Bool)
        → ((b ≡ true) ↔ P (x ∷ s))
        → Decides (Somewhere P s) (try_each f s)
        → Decides (Somewhere P (x ∷ s)) (or_else (try_each f s) b)
    or_else-Decides true (to, from) e = (true, refl, (λ h. (0, to refl), λ o. refl))
    or_else-Decides false (to, from) (b, e, io) = (
      b,
      e,
      (
        λ h. let (k, p) = io.0 h in (suc k, p),
        λ o. elim (Somewhere-cons P x s o) [ inl p ↦ absurd (no_way (from p)) | inr q ↦ io.1 q ],
      ),
    )

last_star : (s : Bytes) → Somewhere (λ r. r ≡ []) s
last_star [] = (0, refl)
last_star (x ∷ s) = let (k, e) = last_star s in (suc k, e)

empty-Decides : (s : Bytes) → Decides (s ≡ []) (ok (is_empty s))
empty-Decides [] = (true, refl, (λ e. refl, λ e. refl))
empty-Decides (x ∷ s) = (false, refl, (λ e. absurd (no_way e), λ e. ground arith))

if-Decides :
    {P Q : Type 0} (b : Bool) {r s : Result Bool}
    → (b ≡ true → Decides P r)
    → (b ≡ false → Decides Q s)
    → Decides (if b then P else Q) (if b then r else s)
if-Decides true p q = p refl
if-Decides false p q = q refl

-- A pattern that is not empty, and does not begin with `*`, matches no empty string.
not_empty :
    (q : Bool) (c : ℕ) (p : Bytes) → (q ≡ true) ⊎ ((c == b'*') ≡ false) → Glob q (c ∷ p) [] → ⊥
unfolding Glob
not_empty true c p h g = no-One _ _ g
not_empty false c p (inl e) g = no_way e
not_empty false c p (inr e) g = elim (Bool-cases (c == b'?')) [
  | inl y ↦ no-One _ _ (rw (e, y) at g)
  | inr n ↦ elim (Bool-cases (c == b'\\')) [
    | inl b ↦ quoted p (rw (e, n, b) at g)
    | inr l ↦ no-One _ _ (rw (e, n, l) at g)
  ]
]
  where
    quoted : (p : Bytes) → Glob true p [] → ⊥
    quoted [] g = g
    quoted (d ∷ p) g = no-One _ _ g

star-Decides :
    (p : Bytes)
    → starless p ≡ true
    → ((s : Bytes) → Decides (Glob false p s) (match_from false p s))
    → (s : Bytes)
    → Decides
        (Somewhere (Glob false p) s)
        (if is_empty p then ok true else try_each (match_from false p) s)
unfolding Glob
star-Decides [] h d s = (true, refl, (λ e. last_star s, λ o. refl))
star-Decides (c ∷ p) h d s =
    try_each-Decides (Glob false (c ∷ p)) (match_from false (c ∷ p))
      (not_empty false c p (inr (ground arith))) d s

match_from-Decides :
    (q : Bool) (p s : Bytes) → is_plain q p ≡ true → Decides (Glob q p s) (match_from q p s)
unfolding match_from Glob is_plain
match_from-Decides true [] s h = absurd (no_way h)
match_from-Decides true (c ∷ p) s h =
    one-Decides (same_letter c) (Glob false p) (match_from false p)
      (λ r. match_from-Decides false p r h) s
match_from-Decides false [] s h = empty-Decides s
match_from-Decides false (c ∷ p) s h =
    if-Decides (c == b'*')
      (λ e.
        let (a, b) = and_true _ _ (rw e at h) in
        star-Decides p a (λ r. match_from-Decides false p r b) s)
      (λ e.
        if-Decides (c == b'?')
          (λ y.
            one-Decides _ (Glob false p) (match_from false p)
              (λ r. match_from-Decides false p r (plain_rest e (by_eq y) h)) s)
          (λ n.
            if-Decides (c == b'\\') (λ y. match_from-Decides true p s (rw (e, y) at h))
              (λ n'.
                one-Decides _ (Glob false p) (match_from false p)
                  (λ r. match_from-Decides false p r (plain_rest e n' h)) s)))
  where
    plain_rest :
        (c == b'*') ≡ false
        → (c == b'\\') ≡ false
        → is_plain false (c ∷ p) ≡ true
        → is_plain false p ≡ true
    plain_rest e n h = rw (e, n) at h

    by_eq : (c == b'?') ≡ true → (c == b'\\') ≡ false
    by_eq y = ground arith

-- For a pattern in which no `*` stands before another, and with no `\` at its end, patternMatch comes
-- back, reads within its strings, and says yes just if the string has the pattern's meaning, in which
-- `*` is any text.
pub pattern_match-Glob :
    (string pattern : Bytes)
    → is_plain false pattern ≡ true
    → (b : Bool) × (pattern_match string pattern ≡ ok b) × ((b ≡ true) ↔ Glob false pattern string)
unfolding pattern_match
pattern_match-Glob string pattern h = match_from-Decides false pattern string h
