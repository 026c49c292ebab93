-- ===== src/Auth/Rewrite.antt =====
-- What setting and removing the user's authorization makes of the authority file.
use mathlib.Core.List.{append-nil}
use xdm.Base.{
  Bool, true, false, ◌||◌, List, [], ◌∷◌, ◌++◌, ==_refl, equal_refl, ◌≡◌, refl, sym, ap, ◌∙◌, arith,
  Bool-cases, inl, inr,
}
use xdm.Base.Result.{ok, ok_eq, >>=-eq-ok}
use xdm.Auth.{
  Entry, Rewriting, same_entry, check_entry, Owner, set_auth_number, write_display_auth, write_each,
  first_cookie, other_auths, hide_kerberos, copy_old, set_user_authorization,
  remove_user_authorization,
}
use xdm.Auth.Written.{
  entries_at, entries_of, kept, push, wrote, state, write_places-wrote, wrote-state, wrote-eq,
  entries_of-parts, write_each-entries_of, copy_old-kept,
}
use xdm.Auth.Covers.{check_entry-append, cookie_first-Covers}

check_entry-push :
    (x : Entry) (ms saved : List Entry)
    → check_entry x (push ms saved) ≡ (check_entry x ms || check_entry x saved)
check_entry-push x [] saved = refl
check_entry-push x (e ∷ ms) saved = ground (arith, check_entry-push x ms (e ∷ saved))

kept-ext :
    (a b old : List Entry)
    → ((x : Entry) → check_entry x a ≡ check_entry x b)
    → kept a old ≡ kept b old
kept-ext a b [] h = refl
kept-ext a b (e ∷ old) h = rw (h e, kept-ext a b old h) refl

same_entry_refl : (e : Entry) → same_entry e e ≡ true
same_entry_refl e =
    rw (==_refl e.family, equal_refl e.address, equal_refl e.number, equal_refl e.name) refl

kept-own :
    (c ms : List Entry)
    → ((x : Entry) → check_entry x ms ≡ true → check_entry x c ≡ true)
    → kept c ms ≡ []
kept-own c [] h = refl
kept-own c (e ∷ ms) h =
    let there : check_entry e c ≡ true = h e (rw (same_entry_refl e) refl) in
    rw there (kept-own c ms (λ x y. h x (rw y (or_true (same_entry x e)))))
  where
    or_true : (b : Bool) → (b || true) ≡ true
    or_true b = ground arith

kept-append : (c a b : List Entry) → kept c (a ++ b) ≡ kept c a ++ kept c b
kept-append c [] b = refl
kept-append c (e ∷ a) b = elim (Bool-cases (check_entry e c)) [
  | inl y ↦ rw y (kept-append c a b)
  | inr n ↦ rw n (ap (λ l. e ∷ l) (kept-append c a b))
]

kept-kept : (c old : List Entry) → kept c (kept c old) ≡ kept c old
kept-kept c [] = refl
kept-kept c (e ∷ old) = elim (Bool-cases (check_entry e c)) [
  | inl y ↦ rw y (kept-kept c old)
  | inr n ↦ rw (n, n) (ap (λ l. e ∷ l) (kept-kept c old))
]

-- What SetUserAuthorization leaves in the user's file, when it comes to its end: the entries of the
-- display's authorizations, those of the first magic cookie in front, without data for Kerberos; then the old entries, in their
-- order, but those for a place, a number and a protocol that has been written.
pub set_user_authorization-kept :
    (o : Owner) (auths old new : List Entry)
    → set_user_authorization o auths old ≡ ok new
    → (a : List Entry) × (b : List Entry) × (entries_of o (first_cookie auths) ≡ ok a)
      × (entries_of o (hide_kerberos (other_auths auths)) ≡ ok b)
      × (new ≡ (a ++ b) ++ kept (a ++ b) old)
unfolding set_user_authorization
set_user_authorization-kept o auths old new e =
    let (f, e1, e2) = >>=-eq-ok (write_each o (first_cookie auths) (state true [] [])) _ e in
    let (a, p, sf) = write_each-entries_of o true (first_cookie auths) [] [] f e1 in
    let (g, e3, e4) = >>=-eq-ok (write_each o (hide_kerberos (other_auths auths)) f) _ e2 in
    let (b, q, sg) =
      write_each-entries_of o true (hide_kerberos (other_auths auths)) a (push a []) g
        (ap (write_each o (hide_kerberos (other_auths auths))) (sym sf) ∙ e3) in
    (
      a,
      b,
      p,
      q,
      sym (ok_eq e4)
          ∙ (ap (λ (x : Rewriting). (copy_old old x).written) sg
              ∙ (copy_old-kept old (a ++ b) (push b (push a []))
                  ∙ ap (λ l. (a ++ b) ++ l)
                      (kept-ext (push b (push a [])) (a ++ b) old (λ x. all_pushed x a b)))),
    )
  where
    all_pushed :
        (x : Entry) (a b : List Entry) → check_entry x (push b (push a [])) ≡ check_entry x (a ++ b)
    all_pushed x a b =
        ground (
          arith,
          check_entry-push x b (push a []),
          check_entry-push x a [],
          check_entry-append x a b,
        )

write_each-wrote :
    (o : Owner) (b : Bool) (es ms w saved : List Entry)
    → entries_of o es ≡ ok ms
    → write_each o es (state b w saved) ≡ ok (wrote b w saved ms)
unfolding write_each write_display_auth
write_each-wrote o b [] ms w saved q = rw (sym (ok_eq q)) (nothing b)
  where
    nothing : (b : Bool) → ok (state b w saved) ≡ ok (wrote b w saved [])
    nothing true = rw (append-nil w) refl
    nothing false = refl
write_each-wrote o b (e ∷ es) ms w saved q =
    let (ps, rest, p, r, m) = entries_of-parts o e es ms q in
    let new = entries_at (set_auth_number o.display_name e) ps in
    rw (p, write_places-wrote b (set_auth_number o.display_name e) ps w saved)
      (ap (write_each o es) (wrote-eq b w saved new)
        ∙ (write_each-wrote o b es rest (wrote b w saved new).written (wrote b w saved new).addrs r
            ∙ ap ok (wrote-state b w saved new rest ∙ ap (wrote b w saved) (sym m))))

-- RemoveUserAuthorization keeps the old entries, in their order, but those of the display.
remove_user_authorization-kept :
    (o : Owner) (auths old c : List Entry)
    → entries_of o auths ≡ ok c
    → remove_user_authorization o auths old ≡ ok (kept c old)
unfolding remove_user_authorization
remove_user_authorization-kept o auths old c q = rw (write_each-wrote o false auths c [] [] q) (
    ap ok (
      copy_old-kept old [] (push c [])
      ∙ kept-ext (push c []) c old (λ x. check_entry-push x c [] ∙ or_false (check_entry x c))))
  where
    or_false : (b : Bool) → (b || false) ≡ b
    or_false b = ground arith

-- After the user's authorization was set, removing it comes to its end. It leaves just the entries of the
-- file from before the setting that do not agree with an entry of the display's authorizations in place,
-- number and protocol, each as it was, in their order; and so does removing it without setting it.
pub remove_user_authorization-set_user_authorization :
    (o : Owner) (auths old new : List Entry)
    → set_user_authorization o auths old ≡ ok new
    → (own : List Entry) × (entries_of o auths ≡ ok own)
      × (remove_user_authorization o auths new ≡ ok (kept own old))
      × (remove_user_authorization o auths old ≡ ok (kept own old))
remove_user_authorization-set_user_authorization o auths old new e =
    let (a, b, p, q, whole) = set_user_authorization-kept o auths old new e in
    let c = cookie_first-Covers o auths a b p q in
    let all : (x : Entry) → check_entry x c.entries ≡ check_entry x (a ++ b) =
      λ x. c.same x ∙ sym (check_entry-append x a b) in
    let own : kept c.entries (a ++ b) ≡ [] = kept-own c.entries (a ++ b) (λ x y. all x ∙ y) in
    let rest : kept c.entries (kept (a ++ b) old) ≡ kept c.entries old =
      ap (kept c.entries) (sym (kept-ext c.entries (a ++ b) old all)) ∙ kept-kept c.entries old in
    (
      c.entries,
      c.found,
      remove_user_authorization-kept o auths new c.entries c.found
          ∙ ap ok (
              ap (kept c.entries) whole
              ∙ (kept-append c.entries (a ++ b) (kept (a ++ b) old)
                  ∙ (ap (λ l. l ++ kept c.entries (kept (a ++ b) old)) own ∙ rest))),
      remove_user_authorization-kept o auths old c.entries c.found,
    )
