-- ===== src/Policy/Choice.antt =====
-- What connection is chosen of those that a REQUEST offers.
use mathlib.Core.Path.{subst}
use mathlib.Core.List.{append_assoc}
use xdm.Base.{
  ℕ, zero, suc, ◌+◌, ◌<◌, ◌≤◌, Bool, true, List, [], ◌∷◌, ◌++◌, ◌==◌, Option, none, some, Bytes,
  equal, length, length-append, get_elem?, ◌≡◌, ◌⊎◌, inl, inr, refl, sym, ap, ◌∙◌, arith,
  Bool-cases, some_eq, none_ne,
}
use xdm.Base.Result.{Result, ok, ◌>>=◌}
use xdm.Policy.{
  Connection, is_usable, address_at, Next, keep, same_or_first, first_if_none, select_loop, or_own,
  select_connection_type_index,
}

get_elem?-lt : (xs : List Bytes) (i : ℕ) → i < length xs → (a : Bytes) × (get_elem? xs i ≡ some a)
get_elem?-lt [] i lt = absurd (omega arith)
get_elem?-lt (x ∷ xs) zero lt = (x, refl)
get_elem?-lt (x ∷ xs) (suc i) lt = get_elem?-lt xs i (omega arith)

get_elem?-append :
    (pre : List ℕ) (t : ℕ) (rest : List ℕ) → get_elem? (pre ++ t ∷ rest) (length pre) ≡ some t
get_elem?-append [] t rest = refl
get_elem?-append (x ∷ pre) t rest = get_elem?-append pre t rest

-- The connection is one that the request offers, of a type that xdm can use.
pub record IsOffered (types : List ℕ) (addresses : List Bytes) (c : Connection) : Type 0 where
  pub type_of : get_elem? types c.0 ≡ some c.1
  pub address_of : get_elem? addresses c.0 ≡ some c.2
  pub usable : is_usable c.1 ≡ true

module _ (types : List ℕ) (addresses : List Bytes) where
  IsFine : Option Connection → Type 0
  IsFine o = elim o [ none ↦ Unit | some c ↦ IsOffered types addresses c ]

  Fine : Result (Option Connection) → Type 0
  unfolding IsFine
  Fine r = (o : Option Connection) × (r ≡ ok o) × IsFine o

  address_at-Fine :
      (i : ℕ) (f : Bytes → Result (Option Connection))
      → i < length addresses
      → ((a : Bytes) → get_elem? addresses i ≡ some a → Fine (f a))
      → Fine (address_at addresses i >>= f)
  unfolding Fine
  address_at-Fine i f lt g =
      let (a, e) = get_elem?-lt addresses i lt in
      let q : address_at addresses i ≡ ok a = rw (e, address_at) refl in rw q (g a e)

  keep-Fine :
      (next : Next) (chosen : Option Connection) (c : Connection)
      → ((o : Option Connection) → IsFine o → Fine (next o))
      → IsFine chosen
      → IsOffered types addresses c
      → Fine (keep next chosen c)
  unfolding Fine IsFine
  keep-Fine next none c g h o = g (some c) o
  keep-Fine next (some b) c g h o = g (some b) h

  first_if_none-Fine :
      (next : Next) (i t : ℕ) (chosen : Option Connection)
      → ((o : Option Connection) → IsFine o → Fine (next o))
      → IsFine chosen
      → i < length addresses
      → ((a : Bytes) → get_elem? addresses i ≡ some a → IsOffered types addresses (i, t, a))
      → Fine (first_if_none next addresses i t chosen)
  unfolding Fine IsFine
  first_if_none-Fine next i t (some c) g h lt o = g (some c) h
  first_if_none-Fine next i t none g h lt o =
      address_at-Fine i (λ a. next (some (i, t, a))) lt (λ a e. g (some (i, t, a)) (o a e))

  same_or_first-Fine :
      (next : Next) (addr : Bytes) (i t : ℕ) (chosen : Option Connection) (a : Bytes)
      → ((o : Option Connection) → IsFine o → Fine (next o))
      → IsFine chosen
      → IsOffered types addresses (i, t, a)
      → Fine (same_or_first next addr chosen i t a)
  unfolding Fine IsFine
  same_or_first-Fine next addr i t chosen a g h o = elim (Bool-cases (equal addr a)) [
    | inl y ↦ rw y (some (i, t, a), refl, o)
    | inr n ↦ rw n (keep-Fine next chosen (i, t, a) g h o)
  ]

  select_loop-Fine :
      (addr : Bytes) (family : ℕ) (pre rest : List ℕ) (chosen : Option Connection)
      → types ≡ pre ++ rest
      → length types ≤ length addresses
      → IsFine chosen
      → Fine (select_loop addr family addresses (length pre) rest chosen)
  unfolding select_loop Fine
  select_loop-Fine addr family pre [] chosen e le h = (chosen, refl, h)
  select_loop-Fine addr family pre (t ∷ rest) chosen e le h =
      let next = select_loop addr family addresses (length pre + 1) rest in
      let lt : length pre < length addresses =
        omega (arith, ap length e, length-append pre (t ∷ rest), le) in
      let count : length (pre ++ t ∷ []) ≡ length pre + 1 =
        omega (arith, length-append pre (t ∷ [])) in
      let g : (o : Option Connection) → IsFine o → Fine (next o) = λ o k.
        subst (λ n. Fine (select_loop addr family addresses n rest o)) count
          (select_loop-Fine addr family (pre ++ t ∷ []) rest o
            (e ∙ sym (append_assoc pre (t ∷ []) rest)) le k) in
      elim (Bool-cases (is_usable t)) [
        | inr n ↦ rw n (g chosen h)
        | inl y ↦
            let offered : (a : Bytes)
                → get_elem? addresses (length pre) ≡ some a
                → IsOffered types addresses (length pre, t, a) =
              λ a q. record {
                type_of = ap (λ l. get_elem? l (length pre)) e ∙ get_elem?-append pre t rest;
                address_of = q;
                usable = y;
              } in
            elim (Bool-cases (family == t)) [
              | inl s ↦
                  rw (y, s)
                    (address_at-Fine (length pre) (same_or_first next addr chosen (length pre) t) lt
                      (λ a q.
                        same_or_first-Fine next addr (length pre) t chosen a g h (offered a q)))
              | inr d ↦ rw (y, d) (first_if_none-Fine next (length pre) t chosen g h lt offered)
            ]
      ]

-- If a REQUEST has an address for each of its connection types, SelectConnectionTypeIndex reads within
-- both lists, and what it selects is either a connection of the request that xdm can use, with the
-- address at the same place, or the request's own address, which is then local.
pub select_connection_type_index-IsOffered :
    (is_local : Bytes → ℕ → Bool) (addr : Bytes) (family : ℕ) (types : List ℕ)
    (addresses : List Bytes)
    → length types ≤ length addresses
    → (r : Option Connection) × (select_connection_type_index is_local addr family types addresses
        ≡ ok r)
      × ((c : Connection)
          → r ≡ some c
          → IsOffered types addresses c
            ⊎ ((c ≡ (length types, family, addr)) × (is_local addr family ≡ true)))
unfolding select_connection_type_index Fine IsFine
select_connection_type_index-IsOffered is_local addr family types addresses le =
    let (o, e, h) = select_loop-Fine types addresses addr family [] types none refl le tt in
    rw e (by_choice o h)
  where
    by_choice :
        (o : Option Connection)
        → IsFine types addresses o
        → (r : Option Connection) × (or_own (is_local addr family) addr family (length types) o
            ≡ ok r)
          × ((c : Connection)
              → r ≡ some c
              → IsOffered types addresses c
                ⊎ ((c ≡ (length types, family, addr)) × (is_local addr family ≡ true)))
    by_choice (some c) h =
        (some c, refl, λ c' q. inl (subst (IsOffered types addresses) (some_eq q) h))
    by_choice none h = elim (Bool-cases (is_local addr family)) [
      | inl y ↦ rw y (some (length types, family, addr), refl, λ c q. inr (sym (some_eq q), refl))
      | inr n ↦ rw n (none, refl, λ c q. absurd (none_ne q))
    ]
