-- ===== src/Access/Read/Ends.antt =====
-- Reading the access file comes to its end on every file.
use xdm.Base.{
  ℕ, zero, suc, ◌<◌, ◌≤◌, Bool, true, false, List, [], ◌∷◌, ◌==◌, ltb, if◌then◌else◌, Option, none,
  some, Bytes, length, ◌≡◌, refl, inl, inr, arith, Bool-cases,
}
use xdm.Base.Result.{Result, ok, ◌>>=◌}
use xdm.Access.Words.{
  File, Mode, plain, Scanned, ends, goes_on, at_newline, at_end, finish, at_char, longest_word,
  scan_word, read_word,
}
use xdm.Access.Database.{HostEntry, DisplayEntry, DisplayKind}
use xdm.Access.Read.{
  Resolver, host_entry_of, or_again, and_more, host_loop, read_host_entry, hosts_loop, with_hosts,
  display_kind_of, display_loop, read_display_entry, database_loop, read_access_database,
}

-- With something read, there are fewer than `n` characters left, else no more than `n`.
abbrev Shrinks {ℓ} : {A : Type ℓ} → ℕ → Option A → File → Type 0
Shrinks n none f = length f.chars ≤ n
Shrinks n (some x) f = length f.chars < n

-- The first character of a call does not complete a word.
abbrev Opens : Scanned → Type 0
Opens (ends none eof) = Unit
Opens (ends (some w) eof) = ⊥
Opens (goes_on m w) = Unit

if-Opens : (b : Bool) (x y : Scanned) → Opens x → Opens y → Opens (if b then x else y)
if-Opens true x y p q = p
if-Opens false x y p q = q

at_newline-Opens : (b : Bool) → Opens (at_newline b [])
at_newline-Opens true = tt
at_newline-Opens false = tt

at_char-Opens : (b : Bool) (c : ℕ) → Opens (at_char b plain [] c)
at_char-Opens b c = if-Opens (c == b'#') _ _ tt (
    if-Opens (c == 10) _ _ (at_newline-Opens b)
      (if-Opens (c == 32) _ _ tt (if-Opens (c == 9) _ _ tt (if-Opens (c == 92) _ _ tt tt))))

scan_word-le :
    (b : Bool) (m : Mode) (word cs : Bytes) → length (scan_word b m word cs).1.chars ≤ length cs
unfolding scan_word
scan_word-le b m word [] =
    by_end (if ltb (length word) longest_word then at_end word else ends none false)
  where
    by_end : (s : Scanned) → length (finish [] s).1.chars ≤ 0
    by_end (ends w eof) = omega arith
    by_end (goes_on m' w) = omega arith
scan_word-le b m word (c ∷ cs) =
    by_scanned (λ m' word'. scan_word-le b m' word' cs)
      (if ltb (length word) longest_word then at_char b m word c else ends none false)
  where
    by_scanned :
        ((m' : Mode) (word' : Bytes) → length (scan_word b m' word' cs).1.chars ≤ length cs)
        → (s : Scanned)
        → (let r : Option Bytes × File = elim s [
          | ends found eof ↦ (found, record { chars = c ∷ cs; next_is_eof = eof })
          | goes_on m' word' ↦ scan_word b m' word' cs
        ] in
            length r.1.chars ≤ suc (length cs))
    by_scanned ih (ends w eof) = omega arith
    by_scanned ih (goes_on m' w) = omega (arith, ih m' w)

Shrinks-lt {ℓ} : {A : Type ℓ} (n : ℕ) (o : Option A) (f : File) → length f.chars < n → Shrinks n o f
Shrinks-lt n none f lt = omega arith
Shrinks-lt n (some x) f lt = lt

scan_word-Shrinks :
    (b : Bool) (cs : Bytes)
    → Shrinks (length cs) (scan_word b plain [] cs).0 (scan_word b plain [] cs).1
unfolding scan_word
scan_word-Shrinks b [] = omega arith
scan_word-Shrinks b (c ∷ cs) = by_scanned (at_char b plain [] c) (at_char-Opens b c)
  where
    by_scanned :
        (s : Scanned)
        → Opens s
        → (let r : Option Bytes × File = elim s [
          | ends found eof ↦ (found, record { chars = c ∷ cs; next_is_eof = eof })
          | goes_on m' word' ↦ scan_word b m' word' cs
        ] in
            Shrinks (suc (length cs)) r.0 r.1)
    by_scanned (ends none eof) o = omega arith
    by_scanned (ends (some w) eof) o = absurd o
    by_scanned (goes_on m' w) o =
        Shrinks-lt (suc (length cs)) (scan_word b m' w cs).0 (scan_word b m' w cs).1
          (omega (arith, scan_word-le b m' w cs))

read_word-Shrinks :
    (b : Bool) (f : File) → Shrinks (length f.chars) (read_word b f).0 (read_word b f).1
unfolding read_word
read_word-Shrinks b f = elim (Bool-cases f.next_is_eof) [
  | inl y ↦ rw y (omega arith)
  | inr n ↦ rw n (scan_word-Shrinks b f.chars)
]

-- The step comes to its end.
abbrev Ends {ℓ} : {A : Type ℓ} → ℕ → Result (Option A × File) → Type ℓ
Ends n r = (o : _) × (f : File) × (r ≡ ok (o, f)) × Shrinks n o f

Shrinks-mono {ℓ} :
    {A : Type ℓ} (n k : ℕ) (o : Option A) (f : File) → n ≤ k → Shrinks n o f → Shrinks k o f
Shrinks-mono n k none f le s = omega arith
Shrinks-mono n k (some x) f le s = omega arith

-- A step on what is left does as well.
weaken {ℓ} : {A : Type ℓ} (n k : ℕ) (r : Result (Option A × File)) → n ≤ k → Ends n r → Ends k r
weaken n k r le (o, f, e, s) = (o, f, e, Shrinks-mono n k o f le s)

module _ (resolve : Resolver) where
  again-Ends :
      (fuel n : ℕ) (f : File)
      → ((g : File) → length g.chars < fuel → Ends (length g.chars) (host_loop resolve fuel g))
      → length f.chars < n
      → n < suc fuel
      → (h : Option HostEntry) → Ends n (or_again (host_loop resolve fuel) f h)
  again-Ends fuel n f ih lt le (some h) = (some h, f, refl, lt)
  again-Ends fuel n f ih lt le none =
      weaken (length f.chars) n (host_loop resolve fuel f) (omega arith) (ih f (omega arith))

  host_loop-Ends :
      (fuel : ℕ) (f : File)
      → length f.chars < fuel
      → Ends (length f.chars) (host_loop resolve fuel f)
  unfolding host_loop
  host_loop-Ends zero f lt = absurd (omega arith)
  host_loop-Ends (suc fuel) f lt =
      let r = read_word true f in
      by_word (λ g l. host_loop-Ends fuel g l) r.0 r.1 (read_word-Shrinks true f)
    where
      by_word :
          ((g : File) → length g.chars < fuel → Ends (length g.chars) (host_loop resolve fuel g))
          → (word : Option Bytes) (f' : File) → Shrinks (length f.chars) word f'
          → Ends (length f.chars) (elim word [
            | none ↦ ok (none, f')
            | some w ↦ or_again (host_loop resolve fuel) f' (host_entry_of resolve w)
          ])
      by_word ih none f' s = (none, f', refl, s)
      by_word ih (some w) f' s =
          again-Ends fuel (length f.chars) f' ih s lt (host_entry_of resolve w)

  read_host_entry-Ends : (f : File) → Ends (length f.chars) (read_host_entry resolve f)
  unfolding read_host_entry
  read_host_entry-Ends f = host_loop-Ends (suc (length f.chars)) f (omega arith)

  hosts_loop-Ends :
      (fuel : ℕ) (f : File)
      → length f.chars < fuel
      → (hs : List HostEntry) × (f' : File) × (hosts_loop resolve fuel f ≡ ok (hs, f'))
        × (length f'.chars ≤ length f.chars)
  unfolding hosts_loop
  hosts_loop-Ends zero f lt = absurd (omega arith)
  hosts_loop-Ends (suc fuel) f lt =
      let (h, f', e, s) = read_host_entry-Ends f in
      rw e (by_host (λ g l. hosts_loop-Ends fuel g l) h f' s)
    where
      by_host :
          ((g : File)
            → length g.chars < fuel
            → (hs : List HostEntry) × (f' : File) × (hosts_loop resolve fuel g ≡ ok (hs, f'))
              × (length f'.chars ≤ length g.chars))
          → (h : Option HostEntry) (f' : File) → Shrinks (length f.chars) h f'
          → (hs : List HostEntry) × (f2 : File) × (and_more (hosts_loop resolve fuel) f' h
              ≡ ok (hs, f2))
            × (length f2.chars ≤ length f.chars)
      by_host ih none f' s = ([], f', refl, s)
      by_host ih (some x) f' s =
          let (hs, f2, e, le) = ih f' (omega arith) in rw e (x ∷ hs, f2, refl, omega arith)

  hosted-Ends :
      (n : ℕ) (f : File) (k : DisplayKind × Bool)
      → length f.chars < n
      → Ends n (hosts_loop resolve (suc (length f.chars)) f >>= λ r. ok (with_hosts k r))
  hosted-Ends n f (k, b) lt =
      let (hs, f', e, le) = hosts_loop-Ends (suc (length f.chars)) f (omega arith) in
      rw e (_, f', refl, omega arith)

  display_loop-Ends :
      (fuel : ℕ) (f : File)
      → length f.chars < fuel
      → Ends (length f.chars) (display_loop resolve fuel f)
  unfolding display_loop
  display_loop-Ends zero f lt = absurd (omega arith)
  display_loop-Ends (suc fuel) f lt =
      let r = read_word false f in
      by_word (λ g l. display_loop-Ends fuel g l) r.0 r.1 (read_word-Shrinks false f)
    where
      by_kind :
          ((g : File) → length g.chars < fuel → Ends (length g.chars) (display_loop resolve fuel g))
          → (f' : File) → length f'.chars < length f.chars
          → (k : Option (DisplayKind × Bool))
          → Ends (length f.chars) (elim k [
            | none ↦ display_loop resolve fuel f'
            | some k ↦ hosts_loop resolve (suc (length f'.chars)) f' >>= λ r. ok (with_hosts k r)
          ])
      by_kind ih f' l none =
          weaken (length f'.chars) (length f.chars) (display_loop resolve fuel f') (omega arith)
            (ih f' (omega arith))
      by_kind ih f' l (some k) = hosted-Ends (length f.chars) f' k l

      by_word :
          ((g : File) → length g.chars < fuel → Ends (length g.chars) (display_loop resolve fuel g))
          → (word : Option Bytes) (f' : File) → Shrinks (length f.chars) word f'
          → Ends (length f.chars) (elim word [
            | none ↦ ok (none, f')
            | some w ↦ elim (display_kind_of resolve w) [
              | none ↦ display_loop resolve fuel f'
              | some k ↦ hosts_loop resolve (suc (length f'.chars)) f' >>= λ r. ok (with_hosts k r)
            ]
          ])
      by_word ih none f' s = (none, f', refl, s)
      by_word ih (some w) f' s = by_kind ih f' s (display_kind_of resolve w)

  database_loop-Ends :
      (fuel : ℕ) (f : File)
      → length f.chars < fuel
      → (ds : List DisplayEntry) × (database_loop resolve fuel f ≡ ok ds)
  unfolding database_loop read_display_entry
  database_loop-Ends zero f lt = absurd (omega arith)
  database_loop-Ends (suc fuel) f lt =
      let (d, f', e, s) = display_loop-Ends (suc (length f.chars)) f (omega arith) in
      rw e (by_display (λ g l. database_loop-Ends fuel g l) d f' s)
    where
      by_display :
          ((g : File)
            → length g.chars < fuel
            → (ds : List DisplayEntry) × (database_loop resolve fuel g ≡ ok ds))
          → (d : Option DisplayEntry) (f' : File) → Shrinks (length f.chars) d f'
          → (ds : List DisplayEntry) × ((elim d [
            | none ↦ ok []
            | some x ↦ database_loop resolve fuel f' >>= λ ds. ok (x ∷ ds)
          ])
              ≡ ok ds)
      by_display ih none f' s = ([], refl)
      by_display ih (some x) f' s = let (ds, e) = ih f' (omega arith) in rw e (x ∷ ds, refl)

  -- ReadAccessDatabase comes to its end on every file, whatever hosts are found: none of its loops, not even
  -- the retries for names that are not found, goes on without reading on.
  pub read_access_database-returns :
      (text : Bytes) → (ds : List DisplayEntry) × (read_access_database resolve text ≡ ok ds)
  unfolding read_access_database
  read_access_database-returns text =
      database_loop-Ends (suc (length text)) (record { chars = text; next_is_eof = false })
        (omega arith)
