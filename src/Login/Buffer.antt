-- ===== src/Login/Buffer.antt =====
-- The arrays of the login widget that hold a line: its characters, a NUL, and what is left of earlier
-- values.
use mathlib.Core.List.{append_assoc}
use xdm.Base.{
  ℕ, zero, suc, ◌+◌, ◌-◌, ◌≤◌, true, false, [], ◌∷◌, ◌++◌, Bytes, c_string, length, take, drop, any,
  All, map, Bool-split, ◌≡◌, refl, sym, ap, ◌∙◌, arith,
}
use xdm.Login.{
  Screen, PromptState, not_shown, echo_on, echo_off, text_info, string_at, drawn, is_nul, cut_char,
  put_at, zeros,
}
use xdm.Login.Line.{onto, take-before, drop-before, drop-behind, onto-append}

-- Without a NUL.
abbrev pub Clean : Bytes → Type 0
Clean x = All (λ c. is_nul c ≡ false) x

pub Clean-onto : (b a : Bytes) → Clean b → Clean a → Clean (onto b a)
Clean-onto [] a p q = q
Clean-onto (x ∷ b) a (e, p) q = Clean-onto b (x ∷ a) p (e, q)

pub Clean-append : (x y : Bytes) → Clean x → Clean y → Clean (x ++ y)
Clean-append [] y p q = q
Clean-append (c ∷ x) y (e, p) q = (e, Clean-append x y p q)

pub Clean-take : (n : ℕ) (x : Bytes) → Clean x → Clean (take n x)
Clean-take zero x p = tt
Clean-take (suc n) [] p = tt
Clean-take (suc n) (c ∷ x) (e, p) = (e, Clean-take n x p)

pub c_string-append : (x rest : Bytes) → Clean x → c_string (x ++ 0 ∷ rest) ≡ x
c_string-append [] rest p = refl
c_string-append (c ∷ x) rest (e, p) = rw (e, c_string-append x rest p) refl

pub c_string-onto :
    (b a rest : Bytes) → Clean b → Clean a → c_string (onto b (a ++ 0 ∷ rest)) ≡ onto b a
c_string-onto b a rest p q =
    ap c_string (sym (onto-append b a (0 ∷ rest)))
    ∙ c_string-append (onto b a) rest (Clean-onto b a p q)

pub string_at-onto :
    (b a rest : Bytes) → Clean a → string_at (length b) (onto b (a ++ 0 ∷ rest)) ≡ a
string_at-onto b a rest q = ap c_string (drop-before b (a ++ 0 ∷ rest)) ∙ c_string-append a rest q

pub cut_char-onto :
    (b : Bytes) (x : ℕ) (a rest : Bytes)
    → Clean a
    → (more : Bytes) × (cut_char (length b) (onto b (x ∷ (a ++ 0 ∷ rest))) ≡ onto b (a ++ 0 ∷ more))
cut_char-onto b x a rest q =
    let t = onto b (x ∷ (a ++ 0 ∷ rest)) in
    let e : string_at (suc (length b)) t ≡ a =
      ap c_string (drop-behind b x (a ++ 0 ∷ rest)) ∙ c_string-append a rest q in
    let more = drop (suc (length b + length a)) t in
    (
      more,
      ap (λ r. take (length b) t ++ (r ++ 0 ∷ drop (suc (length b + length r)) t)) e
          ∙ (ap (λ l. l ++ (a ++ 0 ∷ more)) (take-before b (x ∷ (a ++ 0 ∷ rest)))
              ∙ onto-append b [] (a ++ 0 ∷ more)),
    )

pub put_at-onto :
    (b str a rest : Bytes)
    → Clean a
    → (more : Bytes) × (put_at (length b) str (onto b (a ++ 0 ∷ rest))
        ≡ onto b ((str ++ a) ++ 0 ∷ more))
put_at-onto b str a rest q =
    let t = onto b (a ++ 0 ∷ rest) in
    let more = drop (suc (length b + length str + length a)) t in
    (
      more,
      ap
            (λ r.
              take (length b) t
              ++ (str ++ (r ++ 0 ∷ drop (suc (length b + length str + length r)) t)))
            (string_at-onto b a rest q)
          ∙ (ap (λ l. l ++ (str ++ (a ++ 0 ∷ more))) (take-before b (a ++ 0 ∷ rest))
              ∙ (onto-append b [] (str ++ (a ++ 0 ∷ more))
                  ∙ ap (onto b) (sym (append_assoc str a (0 ∷ more))))),
    )

any-nul : (x rest : Bytes) (o : ℕ) → o ≤ length x → any is_nul (drop o (x ++ 0 ∷ rest)) ≡ true
any-nul [] rest zero le = refl
any-nul [] rest (suc o) le = absurd (omega arith)
any-nul (c ∷ x) rest zero le = ground (arith, any-nul x rest 0 (omega arith))
any-nul (c ∷ x) rest (suc o) le = any-nul x rest o (omega arith)

length-map : (f : ℕ → ℕ) (x : Bytes) → length (map f x) ≡ length x
length-map f [] = refl
length-map f (c ∷ x) = ap suc (length-map f x)

-- There is a NUL behind every character of what is drawn.
pub drawn-nul :
    (s : Screen) (st : PromptState) (x rest : Bytes) (o : ℕ)
    → Clean x
    → o ≤ length x
    → any is_nul (drop o (drawn s st (x ++ 0 ∷ rest))) ≡ true
drawn-nul s not_shown x rest o p le = any-nul x rest o le
drawn-nul s echo_on x rest o p le = any-nul x rest o le
drawn-nul s text_info x rest o p le = any-nul x rest o le
drawn-nul s echo_off x rest o p le =
    Bool-split s.echo_passwd
      (λ y.
        rw (y, c_string-append x rest p)
          (any-nul (map (λ c. s.echo_passwd_char) x) [] o
            (omega (arith, length-map (λ c. s.echo_passwd_char) x))))
      (λ n. rw n (any-nul x rest o le))

pub zeros-suc : (n : ℕ) → 1 ≤ n → zeros n ≡ 0 ∷ zeros (n - 1)
zeros-suc zero le = absurd (omega arith)
zeros-suc (suc n) le = let e : n ≡ suc n - 1 = omega arith in ap (λ m. 0 ∷ zeros m) e
