-- ===== src/Login/Edits.antt =====
-- The handlers of greeter/Login.c that edit a value, as edits of a line with a cursor.
use mathlib.Core.Path.{ap₂, subst}
use mathlib.Core.List.{append_assoc}
use xdm.Base.{
  ℕ, ◌+◌, ◌-◌, ◌≤◌, true, false, [], ◌∷◌, ◌++◌, ltb, leb, Bytes, length, length-append,
  length-take-le, take, Bool-split, ◌≡◌, refl, sym, ap, ◌∙◌, arith,
}
use xdm.Login.{
  Prompt, Screen, value_length, string_at, cut_char, realize_delete_char, delete_backward,
  show_from_cursor, move_backward, show_to_cursor, move_forward, move_to_beginning, move_to_end,
  zeros, erase_to_end_of_line, put_at, move_cursor, insert_at_cursor, insert_text,
}
use xdm.Login.Line.{
  Line, onto, back, forth, cut, cut_before, home, end_of, erase_rest, type, length-onto,
  take-before, take-all, onto-append, onto-onto,
}
use xdm.Login.Buffer.{
  Clean, Clean-onto, Clean-append, Clean-take, string_at-onto, cut_char-onto, put_at-onto,
  zeros-suc,
}
use xdm.Login.Holds.{Holds, Shows, Gives, value_length-Holds, moved, retyped, draw_value-Gives}

module _ (s : Screen) (n : ℕ) {max : ℕ} where
  realize_delete_char-cons :
      {p : Prompt} (b : Bytes) (x : ℕ) (a : Bytes)
      → Holds max p (b, x ∷ a)
      → Gives max (realize_delete_char s n p) (b, a)
  unfolding realize_delete_char
  realize_delete_char-cons {p} b x a h =
      let l = value_length-Holds h in
      let at = h.at in
      let room = h.room in
      let e : ltb p.cursor (value_length p) ≡ true = ground arith in
      let (more, m) = cut_char-onto b x a h.rest h.behind.1 in
      let t = ap₂ cut_char h.at h.text ∙ m in
      let less : length b + length a + 2 ≤ max = omega arith in
      let cut = retyped b a (x ∷ a) more h h.behind.1 t less in
      Bool-split (ltb p.cursor p.value_shown_start)
        (λ y.
          rw (e, y)
            (draw_value-Gives s n 0
              (
                moved (b, a) p.cursor p.cursor p.value_shown_end cut cut.before cut.behind refl refl
                    at,
                omega arith,
              )
              (omega arith)))
        (λ y. rw (e, y) (draw_value-Gives s n p.cursor (cut, ground arith) (omega arith)))

  pub realize_delete_char-Gives :
      {p : Prompt} (z : Line) → Shows max p z → Gives max (realize_delete_char s n p) (cut z)
  unfolding realize_delete_char
  realize_delete_char-Gives {p} (b, []) (h, le) =
      let l = value_length-Holds h in
      let at = h.at in
      let e : ltb p.cursor (value_length p) ≡ false = ground arith in (p, rw e refl, (h, le))
  realize_delete_char-Gives {p} (b, x ∷ a) (h, le) = realize_delete_char-cons b x a h

  pub delete_backward-Gives :
      {p : Prompt} (z : Line) → Shows max p z → Gives max (delete_backward s n p) (cut_before z)
  unfolding delete_backward
  delete_backward-Gives {p} ([], a) (h, le) =
      let at = h.at in let e : ltb 0 p.cursor ≡ false = ground arith in (p, rw e refl, (h, le))
  delete_backward-Gives {p} (x ∷ b, a) (h, le) =
      let at = h.at in
      let e : ltb 0 p.cursor ≡ true = ground arith in
      rw e (
        realize_delete_char-cons b x a (
          moved (b, x ∷ a) (p.cursor - 1) p.value_shown_start p.value_shown_end h h.before.1
            (h.before.0, h.behind) refl (omega arith) (omega arith)))

  show_from_cursor-Gives :
      {p : Prompt} (z : Line) → Holds max p z → Gives max (show_from_cursor s n p) z
  show_from_cursor-Gives {p} z h =
      Bool-split (ltb p.cursor p.value_shown_start)
        (λ y. rw y (
          draw_value-Gives s n 0
            (
              moved z p.cursor p.cursor p.value_shown_end h h.before h.behind refl refl h.at,
              omega arith,
            )
            (omega arith)))
        (λ y. (p, rw y refl, (h, ground arith)))

  show_to_cursor-Gives :
      {p : Prompt} (z : Line) → Shows max p z → Gives max (show_to_cursor s n p) z
  show_to_cursor-Gives {p} z h =
      Bool-split (ltb p.value_shown_end p.cursor)
        (λ y. rw y (draw_value-Gives s n 0 h (omega arith))) (λ y. (p, rw y refl, h))

  pub move_backward-Gives :
      {p : Prompt} (z : Line) → Shows max p z → Gives max (move_backward s n p) (back z)
  unfolding move_backward
  move_backward-Gives {p} ([], a) (h, le) =
      let at = h.at in
      let e : ltb 0 p.cursor ≡ false = ground arith in rw e (show_from_cursor-Gives ([], a) h)
  move_backward-Gives {p} (x ∷ b, a) (h, le) =
      let at = h.at in
      let e : ltb 0 p.cursor ≡ true = ground arith in
      rw e (
        show_from_cursor-Gives (b, x ∷ a)
          (moved (b, x ∷ a) (p.cursor - 1) p.value_shown_start p.value_shown_end h h.before.1
            (h.before.0, h.behind) refl (omega arith) (omega arith)))

  pub move_forward-Gives :
      {p : Prompt} (z : Line) → Shows max p z → Gives max (move_forward s n p) (forth z)
  unfolding move_forward
  move_forward-Gives {p} (b, []) (h, le) =
      let l = value_length-Holds h in
      let at = h.at in
      let e : ltb p.cursor (value_length p) ≡ false = ground arith in (p, rw e refl, (h, le))
  move_forward-Gives {p} (b, x ∷ a) (h, le) =
      let l = value_length-Holds h in
      let at = h.at in
      let e : ltb p.cursor (value_length p) ≡ true = ground arith in
      rw e (
        show_to_cursor-Gives (x ∷ b, a)
          (
            moved (x ∷ b, a) (p.cursor + 1) p.value_shown_start p.value_shown_end h
                (h.behind.0, h.before) h.behind.1 refl (omega arith) (omega arith),
            omega arith,
          ))

  pub move_to_beginning-Gives :
      {p : Prompt} (z : Line) → Shows max p z → Gives max (move_to_beginning s n p) (home z)
  unfolding move_to_beginning
  move_to_beginning-Gives {p} (b, a) (h, le) =
      let clean = Clean-onto b a h.before h.behind in
      let same = sym (onto-append b a (0 ∷ h.rest)) in
      let size : 0 + length (onto b a) ≡ length b + length a = omega (arith, length-onto b a) in
      let at_start =
        λ (from : ℕ). moved ([], onto b a) 0 from p.value_shown_end h tt clean same size refl in
      Bool-split (ltb 0 p.value_shown_start)
        (λ y. rw y (draw_value-Gives s n 0 (at_start 0, omega arith) (omega arith)))
        (λ y. (record p { cursor = 0 }, rw y refl, (at_start p.value_shown_start, ground arith)))

  pub move_to_end-Gives :
      {p : Prompt} (z : Line) → Shows max p z → Gives max (move_to_end s n p) (end_of z)
  unfolding move_to_end
  move_to_end-Gives {p} (b, a) (h, le) =
      let l = value_length-Holds h in
      let at = h.at in
      show_to_cursor-Gives (onto a b, [])
        (
          moved (onto a b, []) (value_length p) p.value_shown_start p.value_shown_end h
              (Clean-onto a b h.behind h.before) tt (sym (onto-onto a b (0 ∷ h.rest)))
              (omega (arith, length-onto a b)) (l ∙ omega (arith, length-onto a b)),
          omega arith,
        )

  pub erase_to_end_of_line-Gives :
      {p : Prompt} (z : Line) → Shows max p z → Gives max (erase_to_end_of_line n p) (erase_rest z)
  unfolding erase_to_end_of_line
  erase_to_end_of_line-Gives {p} (b, a) (h, le) =
      let room = h.room in
      let at = h.at in
      let limit = h.limit in
      let e : leb p.cursor p.value_text_max ≡ true = ground arith in
      let t : take p.cursor p.value_text ++ zeros (p.value_text_max - p.cursor)
          ≡ onto b (0 ∷ zeros (p.value_text_max - p.cursor - 1)) =
        ap₂ ◌++◌ (ap₂ take h.at h.text ∙ take-before b (a ++ 0 ∷ h.rest))
          (zeros-suc (p.value_text_max - p.cursor) (omega arith))
        ∙ onto-append b [] _ in
      (_, rw e refl, (retyped b [] a _ h tt t (omega arith), le))

  insert_at_cursor-Gives :
      (str : Bytes) {p : Prompt} (z : Line)
      → Shows max p z
      → Clean str
      → length str + (length z.0 + length z.1) + 2 ≤ max
      → Gives max (insert_at_cursor s n str p) (onto str z.0, z.1)
  insert_at_cursor-Gives [] {p} z h clean fits = (p, refl, h)
  insert_at_cursor-Gives (x ∷ xs) {p} (b, a) (h, le) clean fits =
      let str = x ∷ xs in
      let c = p.cursor in
      let at = h.at in
      let limit = h.limit in
      let tail : string_at c p.value_text ≡ a =
        ap₂ string_at h.at h.text ∙ string_at-onto b a h.rest h.behind in
      let bound : ltb (c + length str + length (string_at c p.value_text)) p.value_text_max ≡ true =
        ground (arith, ap length tail) in
      let (more, m) = put_at-onto b str a h.rest h.behind in
      let put = ap₂ (λ i t. put_at i str t) h.at h.text ∙ m in
      let (q, e, (g, shown)) =
        draw_value-Gives s n c
          (
            retyped b (str ++ a) a more h (Clean-append str a clean h.behind) put
                (omega (arith, length-append str a)),
            le,
          )
          (omega arith) in
      let at' = g.at in
      (
        move_cursor (c + length str) q,
        rw (bound, e) refl,
        (
          record {
            rest = g.rest;
            text =
                g.text
                ∙ (ap (onto b) (append_assoc str a (0 ∷ g.rest))
                    ∙ sym (onto-onto str b (a ++ 0 ∷ g.rest)));
            before = Clean-onto str b clean h.before;
            behind = h.behind;
            at = omega (arith, length-onto str b);
            limit = g.limit;
            room = omega (arith, length-onto str b);
          },
          omega arith,
        ),
      )

  pub insert_text-Gives :
      (str : Bytes) {p : Prompt} (z : Line)
      → Shows max p z
      → Clean str
      → Gives max (insert_text s n str p) (type max str z)
  unfolding insert_text
  insert_text-Gives str {p} (b, a) (h, le) clean =
      let used = value_length-Holds h in
      let limit = h.limit in
      let room = h.room in
      let free = max - (length b + length a) - 2 in
      let same : p.value_text_max - value_length p - 2 ≡ free = omega arith in
      let fits : length (take free str) + (length b + length a) + 2 ≤ max =
        omega (arith, length-take-le free str) in
      let r : leb (value_length p + 2) p.value_text_max ≡ true = ground arith in
      let typed =
        insert_at_cursor-Gives (take free str) (b, a) (h, le) (Clean-take free str clean) fits in
      Bool-split (leb (p.value_text_max - 1) (length str + value_length p))
        (λ y. rw (y, r, same) typed)
        (λ y.
          let all : take free str ≡ str = take-all free str (ground arith) in
          rw y (
            subst (λ l. Gives max (insert_at_cursor s n l p) (onto (take free str) b, a)) all
              typed))
