-- ===== src/Login/Line.antt =====
-- A line with a cursor: the characters before it, the nearest one first, and those from it on.
use xdm.Base.{
  ℕ, zero, suc, ◌+◌, ◌-◌, ◌≤◌, [], ◌∷◌, ◌++◌, Bytes, length, take, drop, ◌≡◌, refl, ap, ◌∙◌, arith,
}
use xdm.Login.Keys.{
  KeySym, return_key, backspace_key, delete_key, left_key, right_key, end_key, home_key, other_key,
  Action, delete_previous_character, delete_character, move_backward_character,
  move_forward_character, move_to_begining, move_to_end_action, erase_to_end, erase_line, finish,
  tab, insert_char_action,
}

abbrev pub Line : Type 0
Line = Bytes × Bytes

abbrev pub onto : Bytes → Bytes → Bytes
onto [] a = a
onto (x ∷ b) a = onto b (x ∷ a)

abbrev pub back : Line → Line
back ([], a) = ([], a)
back (x ∷ b, a) = (b, x ∷ a)

abbrev pub forth : Line → Line
forth (b, []) = (b, [])
forth (b, x ∷ a) = (x ∷ b, a)

-- The character at the cursor goes.
abbrev pub cut : Line → Line
cut (b, []) = (b, [])
cut (b, x ∷ a) = (b, a)

abbrev pub cut_before : Line → Line
cut_before ([], a) = ([], a)
cut_before (x ∷ b, a) = (b, a)

abbrev pub home : Line → Line
home (b, a) = ([], onto b a)

abbrev pub end_of : Line → Line
end_of (b, a) = (onto a b, [])

abbrev pub erase_rest : Line → Line
erase_rest (b, a) = (b, [])

-- As many characters as there is room for, when `max` counts a NUL and one more byte.
abbrev pub type : ℕ → Bytes → Line → Line
type max str (b, a) = (onto (take (max - (length b + length a) - 2) str) b, a)

abbrev pub press : ℕ → KeySym → Bytes → Line → Line
press max return_key str z = z
press max backspace_key str z = cut_before z
press max delete_key str z = cut z
press max left_key str z = back z
press max right_key str z = forth z
press max end_key str z = end_of z
press max home_key str z = home z
press max other_key str z = type max str z

abbrev pub line_after : ℕ → Action → Line → Line
line_after max delete_previous_character z = cut_before z
line_after max delete_character z = cut z
line_after max move_backward_character z = back z
line_after max move_forward_character z = forth z
line_after max move_to_begining z = home z
line_after max move_to_end_action z = end_of z
line_after max erase_to_end z = erase_rest z
line_after max erase_line z = ([], [])
line_after max finish z = z
line_after max tab z = z
line_after max (insert_char_action k) z = press max k.keysym k.characters z

pub length-onto : (b a : Bytes) → length (onto b a) ≡ length b + length a
length-onto [] a = omega arith
length-onto (x ∷ b) a = length-onto b (x ∷ a) ∙ omega arith

pub take-onto : (b a : Bytes) (k : ℕ) → take (length b + k) (onto b a) ≡ onto b (take k a)
take-onto [] a k = let e : 0 + k ≡ k = omega arith in ap (λ i. take i a) e
take-onto (x ∷ b) a k =
    let e : suc (length b) + k ≡ length b + suc k = omega arith in
    ap (λ i. take i (onto b (x ∷ a))) e ∙ take-onto b (x ∷ a) (suc k)

pub drop-onto : (b a : Bytes) (k : ℕ) → drop (length b + k) (onto b a) ≡ drop k a
drop-onto [] a k = let e : 0 + k ≡ k = omega arith in ap (λ i. drop i a) e
drop-onto (x ∷ b) a k =
    let e : suc (length b) + k ≡ length b + suc k = omega arith in
    ap (λ i. drop i (onto b (x ∷ a))) e ∙ drop-onto b (x ∷ a) (suc k)

pub onto-append : (b a c : Bytes) → onto b a ++ c ≡ onto b (a ++ c)
onto-append [] a c = refl
onto-append (x ∷ b) a c = onto-append b (x ∷ a) c

pub onto-onto : (str b a : Bytes) → onto (onto str b) a ≡ onto b (str ++ a)
onto-onto [] b a = refl
onto-onto (x ∷ str) b a = onto-onto str (x ∷ b) a

pub take-before : (b a : Bytes) → take (length b) (onto b a) ≡ onto b []
take-before b a =
    let e : length b ≡ length b + 0 = omega arith in ap (λ i. take i (onto b a)) e ∙ take-onto b a 0

pub drop-before : (b a : Bytes) → drop (length b) (onto b a) ≡ a
drop-before b a =
    let e : length b ≡ length b + 0 = omega arith in ap (λ i. drop i (onto b a)) e ∙ drop-onto b a 0

pub drop-behind : (b : Bytes) (x : ℕ) (a : Bytes) → drop (suc (length b)) (onto b (x ∷ a)) ≡ a
drop-behind b x a =
    let e : suc (length b) ≡ length b + 1 = omega arith in
    ap (λ i. drop i (onto b (x ∷ a))) e ∙ drop-onto b (x ∷ a) 1

pub take-all : (n : ℕ) (a : Bytes) → length a ≤ n → take n a ≡ a
take-all zero [] h = refl
take-all zero (x ∷ a) h = ground arith
take-all (suc n) [] h = refl
take-all (suc n) (x ∷ a) h = ap (λ t. x ∷ t) (take-all n a (omega arith))
