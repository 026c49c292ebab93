-- ===== src/Choose/Clients.antt =====
-- The list of indirect clients is a set, and the last choice of a client stands until its time is up.
use mathlib.Core.Path.{subst}
use xdm.Base.{
  ℕ, ◌+◌, ◌≤◌, Bool, true, false, ◌&&◌, ◌||◌, List, [], ◌∷◌, ◌==◌, some, Bytes, equal, equal_iff,
  equal_refl, ==_iff, ==_refl, any, ltb, ◌≡◌, inl, inr, refl, sym, ap, arith, Bool-cases, or_false,
  and_true,
}
use xdm.Choose.{
  Client, add_user, is_client, is_indirect_client, remember_indirect_client, forget_indirect_client,
  Choice, is_choice_of, is_timed_out, indirect_choice, replace, register_indirect_choice,
}

-- No client is on the list twice.
abbrev pub IsClientSet : List Client → Type 0
IsClientSet [] = Unit
IsClientSet (c ∷ users) = (any (is_client c.0 c.1) users ≡ false) × IsClientSet users

is_client_refl : (a : Bytes) (t : ℕ) → is_client a t (a, t) ≡ true
is_client_refl a t = rw (equal_refl a, ==_refl t) refl

is_client-eq : (a : Bytes) (t : ℕ) (c : Client) → is_client a t c ≡ true → (a, t) ≡ c
is_client-eq a t (b, u) e =
    let (p, q) = and_true _ _ e in rw ((equal_iff a b).0 p, (==_iff t u).0 q) refl

-- RememberIndirectClient, if it succeeds, makes IsIndirectClient say yes of the client; it changes the
-- answer for no other client, and never lists one twice.
pub remember_indirect_client_lem :
    (memory : Bool) (address : Bytes) (t : ℕ) (users : List Client)
    → IsClientSet users
    → IsClientSet (remember_indirect_client memory address t users).1
      × ((remember_indirect_client memory address t users).0
          ≡ is_indirect_client address t (remember_indirect_client memory address t users).1)
      × ((b : Bytes)
          → (u : ℕ) → is_client b u (address, t) ≡ false
          → is_indirect_client b u (remember_indirect_client memory address t users).1
            ≡ is_indirect_client b u users)
unfolding remember_indirect_client is_indirect_client
remember_indirect_client_lem memory address t users s =
    elim (Bool-cases (any (is_client address t) users)) [
      | inl y ↦ rw y (s, sym y, λ b u ne. refl)
      | inr n ↦ rw n (by_memory memory n)
    ]
  where
    by_memory :
        (memory : Bool)
        → any (is_client address t) users ≡ false
        → IsClientSet (add_user memory (address, t) users).1
          × ((add_user memory (address, t) users).0
              ≡ any (is_client address t) (add_user memory (address, t) users).1)
          × ((b : Bytes)
              → (u : ℕ) → is_client b u (address, t) ≡ false
              → any (is_client b u) (add_user memory (address, t) users).1
                ≡ any (is_client b u) users)
    by_memory true n = ((n, s), rw (is_client_refl address t) refl, λ b u ne. rw ne refl)
    by_memory false n = (s, sym n, λ b u ne. refl)

any-forget :
    (address : Bytes) (t : ℕ) (b : Bytes) (u : ℕ) (users : List Client)
    → is_client b u (address, t) ≡ false
    → any (is_client b u) (forget_indirect_client address t users) ≡ any (is_client b u) users
unfolding forget_indirect_client
any-forget address t b u [] ne = refl
any-forget address t b u (c ∷ users) ne = elim (Bool-cases (is_client address t c)) [
  | inl y ↦ rw y (rw (← is_client-eq address t c y, ne) refl)
  | inr n ↦ rw n (ap (λ r. is_client b u c || r) (any-forget address t b u users ne))
]

any-forget-false :
    (address : Bytes) (t : ℕ) (b : Bytes) (u : ℕ) (users : List Client)
    → any (is_client b u) users ≡ false
    → any (is_client b u) (forget_indirect_client address t users) ≡ false
unfolding forget_indirect_client
any-forget-false address t b u [] h = refl
any-forget-false address t b u (c ∷ users) h =
    let (p, q) = or_false (is_client b u c) (any (is_client b u) users) h in
    elim (Bool-cases (is_client address t c)) [
      | inl y ↦ rw y q
      | inr n ↦ rw (n, p) (any-forget-false address t b u users q)
    ]

-- After ForgetIndirectClient, IsIndirectClient says no of the client; the answer for all others is as
-- before, and no client is listed twice.
pub forget_indirect_client_lem :
    (address : Bytes) (t : ℕ) (users : List Client)
    → IsClientSet users
    → IsClientSet (forget_indirect_client address t users)
      × (is_indirect_client address t (forget_indirect_client address t users) ≡ false)
      × ((b : Bytes)
          → (u : ℕ) → is_client b u (address, t) ≡ false
          → is_indirect_client b u (forget_indirect_client address t users)
            ≡ is_indirect_client b u users)
unfolding forget_indirect_client is_indirect_client
forget_indirect_client_lem address t [] s = (tt, refl, λ b u ne. refl)
forget_indirect_client_lem address t (c ∷ users) (h, s) =
    let (ih, gone, same) = forget_indirect_client_lem address t users s in
    elim (Bool-cases (is_client address t c)) [
      | inl y ↦ rw y (
        s,
        subst (λ (x : Client). any (is_client x.0 x.1) users ≡ false)
            (sym (is_client-eq address t c y)) h,
        λ b u ne. rw (← is_client-eq address t c y, ne) refl,
      )
      | inr n ↦ rw n (
        (any-forget-false address t c.0 c.1 users h, ih),
        rw n gone,
        λ b u ne. ap (λ r. is_client b u c || r) (any-forget address t b u users ne),
      )
    ]

is_choice_of_refl : (a : Bytes) (t : ℕ) → (equal a a && t == t) ≡ true
is_choice_of_refl a t = rw (equal_refl a, ==_refl t) refl

replace-indirect_choice :
    (now later timeout : ℕ) (address : Bytes) (t : ℕ) (choice : Bytes) (choices : List Choice)
    → later ≤ now + timeout
    → any (is_choice_of address t) choices ≡ true
    → (indirect_choice later timeout address t (replace now address t choice choices)).0
      ≡ some choice
unfolding indirect_choice
replace-indirect_choice now later timeout address t choice [] le h = ground arith
replace-indirect_choice now later timeout address t choice (c ∷ choices) le h =
    elim (Bool-cases (is_choice_of address t c)) [
      | inl y ↦ let f : ltb (now + timeout) later ≡ false = ground arith in rw (y, f, y) refl
      | inr n ↦
          let ih =
            replace-indirect_choice now later timeout address t choice choices le (rw n at h) in
          rw n (elim (Bool-cases (is_timed_out later timeout c)) [
            | inl out ↦ rw out ih
            | inr fresh ↦ rw (fresh, n) ih
          ])
    ]

-- The choice that was registered last for a client is what IndirectChoice finds, for `choiceTimeout`
-- seconds.
pub register_indirect_choice-indirect_choice :
    (now later timeout : ℕ) (address : Bytes) (t : ℕ) (choice : Bytes) (choices : List Choice)
    → later ≤ now + timeout
    → (indirect_choice later timeout address t
        (register_indirect_choice now address t choice choices)).0
      ≡ some choice
unfolding indirect_choice register_indirect_choice
register_indirect_choice-indirect_choice now later timeout address t choice choices le =
    elim (Bool-cases (any (is_choice_of address t) choices)) [
      | inl y ↦ rw y (replace-indirect_choice now later timeout address t choice choices le y)
      | inr n ↦
          let f : ltb (now + timeout) later ≡ false = ground arith in
          rw n (rw (f, is_choice_of_refl address t) refl)
    ]
