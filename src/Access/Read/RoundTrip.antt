-- ===== src/Access/Read/RoundTrip.antt =====
-- Reading an access file that was written line by line.
use xdm.Base.{
  ℕ, zero, suc, ◌+◌, ◌<◌, ◌≤◌, Bool, true, false, List, [], ◌∷◌, ◌++◌, Option, none, some, Bytes,
  length, length-append, All, ◌≡◌, ◌⊎◌, refl, ap, ◌∙◌, inl, inr, arith,
}
use xdm.Base.Result.{Result, ok, ◌>>=◌}
use xdm.Access.Words.{File, scan_word, read_word}
use xdm.Access.Database.{HostEntry, DisplayEntry, DisplayKind, read_hosts}
use xdm.Access.Read.{
  Resolver, host_entry_of, or_again, host_loop, read_host_entry, hosts_loop, with_hosts,
  display_kind_of, display_loop, read_display_entry, database_loop, read_access_database,
}
use xdm.Access.Read.Spelling.{
  IsWord, Hosts, behind, entries, is_last, Ready, is_last-Ready, after_word, read_word-host,
  read_word-last,
}

module _ (resolve : Resolver) where
  abbrev pub IsHost : Bytes × HostEntry → Type 0
  IsHost x = IsWord x.0 × (host_entry_of resolve x.0 ≡ some x.1)

  abbrev next_host : ℕ → Option Bytes × File → Result (Option HostEntry × File)
  next_host fuel r = elim r.0 [
    | none ↦ ok (none, r.1)
    | some w ↦ or_again (host_loop resolve fuel) r.1 (host_entry_of resolve w)
  ]

  host_loop-next :
      (fuel : ℕ) (f : File) (r : Option Bytes × File)
      → read_word true f ≡ r
      → host_loop resolve (suc fuel) f ≡ next_host fuel r
  unfolding host_loop
  host_loop-next fuel f r e = ap (next_host fuel) e

  hosts_loop-behind :
      (hs : Hosts) (fuel : ℕ) (rest : Bytes) (eof : Bool)
      → length hs < fuel
      → All IsHost hs
      → Ready eof hs
      → hosts_loop resolve fuel (record { chars = behind hs rest; next_is_eof = eof })
        ≡ ok (entries hs, record { chars = 10 ∷ rest; next_is_eof = false })
  unfolding hosts_loop read_host_entry
  hosts_loop-behind hs zero rest eof lt a r = absurd (omega arith)
  hosts_loop-behind [] (suc fuel) rest eof lt a r =
      rw (host_loop-next (suc (length rest)) _ _ (read_word-last rest eof)) refl
  hosts_loop-behind ((w, h) ∷ hs) (suc fuel) rest eof lt ((g, e), a) r =
      rw (r, host_loop-next _ _ _ (read_word-host w rest hs g), e)
        (rw (hosts_loop-behind hs fuel rest (is_last hs) (omega arith) a (is_last-Ready hs)) refl)

  -- A line: the display's word with what it stands for, and its hosts.
  pub record Line : Type 0 where
    pub word : Bytes
    pub kind : DisplayKind
    pub negated : Bool
    pub hosts : Hosts

  pub record IsLine (l : Line) : Type 0 where
    pub spelled : IsWord l.word
    pub means : display_kind_of resolve l.word ≡ some (l.kind, l.negated)
    pub all_hosts : All IsHost l.hosts

  abbrev pub texts : List Line → Bytes
  texts [] = []
  texts (l ∷ ls) = l.word ++ behind l.hosts (texts ls)

  abbrev pub meanings : List Line → List DisplayEntry
  meanings [] = []
  meanings (l ∷ ls) = read_hosts l.kind l.negated (entries l.hosts) ∷ meanings ls

  length-behind : (hs : Hosts) (rest : Bytes) → length hs + length rest < length (behind hs rest)
  length-behind [] rest = omega arith
  length-behind ((w, h) ∷ hs) rest =
      omega (arith, length-append w (behind hs rest), length-behind hs rest)

  abbrev by_kind : ℕ → File → Option (DisplayKind × Bool) → Result (Option DisplayEntry × File)
  by_kind fuel f none = display_loop resolve fuel f
  by_kind fuel f (some k) = hosts_loop resolve (suc (length f.chars)) f >>= λ s. ok (with_hosts k s)

  abbrev next_display : ℕ → Option Bytes × File → Result (Option DisplayEntry × File)
  next_display fuel r = elim r.0 [
    | none ↦ ok (none, r.1)
    | some w ↦ by_kind fuel r.1 (display_kind_of resolve w)
  ]

  display_loop-next :
      (fuel : ℕ) (f : File) (r : Option Bytes × File)
      → read_word false f ≡ r
      → display_loop resolve (suc fuel) f ≡ next_display fuel r
  unfolding display_loop
  display_loop-next fuel f r e = ap (next_display fuel) e

  display_loop-line :
      (fuel : ℕ) (f : File) (l : Line) (rest : Bytes)
      → IsLine l
      → read_word false f
        ≡ (some l.word, record { chars = behind l.hosts rest; next_is_eof = false })
      → display_loop resolve (suc fuel) f
        ≡ ok (
          some (read_hosts l.kind l.negated (entries l.hosts)),
          record { chars = 10 ∷ rest; next_is_eof = false },
        )
  display_loop-line fuel f l rest g e =
      display_loop-next fuel f _ e
      ∙ (ap (by_kind fuel (record { chars = behind l.hosts rest; next_is_eof = false })) g.means
          ∙ rw
              (hosts_loop-behind l.hosts (suc (length (behind l.hosts rest))) rest false
                (omega (arith, length-behind l.hosts rest)) g.all_hosts (unread l.hosts))
              refl)
    where
      unread : (hs : Hosts) → Ready false hs
      unread [] = tt
      unread (x ∷ hs) = refl

  read_word-first :
      (l : Line) (rest : Bytes)
      → IsLine l
      → read_word false (record { chars = l.word ++ behind l.hosts rest; next_is_eof = false })
        ≡ (some l.word, record { chars = behind l.hosts rest; next_is_eof = false })
  unfolding read_word
  read_word-first l rest g = after_word false l.word rest l.hosts g.spelled

  -- The newline of the line before is passed over.
  read_word-newline :
      (cs : Bytes)
      → read_word false (record { chars = 10 ∷ cs; next_is_eof = false })
        ≡ read_word false (record { chars = cs; next_is_eof = false })
  unfolding read_word scan_word
  read_word-newline cs = refl

  nothing_left :
      (cs : Bytes)
      → (cs ≡ []) ⊎ (cs ≡ 10 ∷ [])
      → read_word false (record { chars = cs; next_is_eof = false })
        ≡ (none, record { chars = []; next_is_eof = false })
  unfolding read_word scan_word
  nothing_left cs (inl e) = rw e refl
  nothing_left cs (inr e) = rw e refl

  database_loop-lines :
      (ls : List Line) (fuel : ℕ)
      → length ls < fuel
      → All IsLine ls
      → database_loop resolve fuel (record { chars = 10 ∷ texts ls; next_is_eof = false })
        ≡ ok (meanings ls)
  unfolding database_loop read_display_entry
  database_loop-lines ls zero lt a = absurd (omega arith)
  database_loop-lines [] (suc fuel) lt a =
      rw
        (display_loop-next _ _ (none, record { chars = []; next_is_eof = false })
          (nothing_left (10 ∷ []) (inr refl)))
        refl
  database_loop-lines (l ∷ ls) (suc fuel) lt (g, a) =
      rw
        (display_loop-line _ _ l (texts ls) g
          (read_word-newline (texts (l ∷ ls)) ∙ read_word-first l (texts ls) g))
        (rw (database_loop-lines ls fuel (omega arith) a) refl)

  length-texts : (ls : List Line) → length ls ≤ length (texts ls)
  length-texts [] = omega arith
  length-texts (l ∷ ls) = omega (
    arith,
    length-append l.word (behind l.hosts (texts ls)),
    length-behind l.hosts (texts ls),
    length-texts ls,
  )

  -- An access file of lines, each with a display and its hosts, one space between them, is read as
  -- those displays with those hosts, in order, if every word fits in the buffer and has no character that
  -- is special to ReadWord, and every name is found.
  pub read_access_database-texts :
      (ls : List Line) → All IsLine ls → read_access_database resolve (texts ls) ≡ ok (meanings ls)
  unfolding read_access_database database_loop read_display_entry
  read_access_database-texts [] a =
      rw
        (display_loop-next _ _ (none, record { chars = []; next_is_eof = false })
          (nothing_left [] (inl refl)))
        refl
  read_access_database-texts (l ∷ ls) (g, a) =
      rw (display_loop-line _ _ l (texts ls) g (read_word-first l (texts ls) g)) (
        rw
          (database_loop-lines ls (length (texts (l ∷ ls)))
            (omega (
              arith,
              length-append l.word (behind l.hosts (texts ls)),
              length-behind l.hosts (texts ls),
              length-texts ls,
            ))
            a)
          refl)
