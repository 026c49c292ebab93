-- ===== src/Protodpy/Timeout.antt =====
-- The walk that frees what is timed out keeps just the rest, in order.
use mathlib.Core.List.{append_assoc}
use xdm.Base.{
  ℕ, ◌+◌, ◌-◌, ◌%◌, ◌^◌, ◌<◌, ◌≤◌, true, false, ◌&&◌, List, [], ◌∷◌, ◌++◌, ◌==◌, ==_refl, ltb, none,
  some, find?, if◌then◌else◌, Bytes, All, ◌≡◌, inl, inr, refl, ap, ◌∙◌, arith, Bool-cases,
}
use xdm.Netaddr.{Netaddr, address_equal}
use xdm.Netaddr.Laws.{address_equal_refl}
use xdm.Protodpy.{
  ProtoDisplay, Protos, proto_timeout, find_proto_display, unlink_proto, dispose_proto_display,
  is_proto, is_stale, timeout_from, timeout_proto_displays, new_proto_display,
}

-- The entries that are not older than the timeout.
abbrev pub fresh : ℕ → List ProtoDisplay → List ProtoDisplay
fresh now [] = []
fresh now (p ∷ ps) = if ltb (p.date + proto_timeout) now then fresh now ps else p ∷ fresh now ps

-- Pointers to live blocks differ.
abbrev pub NotAt : ℕ → ProtoDisplay → Type 0
NotAt a p = (p.addr == a) ≡ false

abbrev pub AreApart : List ProtoDisplay → Type 0
AreApart [] = Unit
AreApart (p ∷ ps) = All (NotAt p.addr) ps × AreApart ps

is_stale-eq :
    (now : ℕ) (p : ProtoDisplay)
    → proto_timeout ≤ now
    → now < 2 ^ 64
    → is_stale now p ≡ ltb (p.date + proto_timeout) now
is_stale-eq now p le lt =
    let e : (now + 2 ^ 64 - proto_timeout) % 2 ^ 64 ≡ now - proto_timeout = omega arith in
    rw e (ground arith)

unlink_proto-append :
    (p : ProtoDisplay) (kept ps : List ProtoDisplay)
    → All (NotAt p.addr) kept
    → unlink_proto p.addr (kept ++ p ∷ ps) ≡ kept ++ ps
unlink_proto-append p [] ps h = rw (==_refl p.addr) refl
unlink_proto-append p (k ∷ kept) ps (n, h) =
    rw n (ap (λ l. k ∷ l) (unlink_proto-append p kept ps h))

All-snoc :
    (P : ProtoDisplay → Type 0) (ps : List ProtoDisplay) (p : ProtoDisplay)
    → All P ps
    → P p
    → All P (ps ++ p ∷ [])
All-snoc P [] p h q = (q, tt)
All-snoc P (x ∷ ps) p (a, h) q = (a, All-snoc P ps p h q)

All-both :
    (kept ps : List ProtoDisplay) (p : ProtoDisplay)
    → All (λ (k : ProtoDisplay). All (λ (x : ProtoDisplay). NotAt x.addr k) (p ∷ ps)) kept
    → All (NotAt p.addr) kept
      × All (λ (k : ProtoDisplay). All (λ (x : ProtoDisplay). NotAt x.addr k) ps) kept
All-both [] ps p h = (tt, tt)
All-both (k ∷ kept) ps p ((a, b), h) = let (x, y) = All-both kept ps p h in ((a, x), (b, y))

All-sym :
    (p : ProtoDisplay) (ps : List ProtoDisplay)
    → All (NotAt p.addr) ps
    → All (λ (x : ProtoDisplay). NotAt x.addr p) ps
All-sym p [] h = tt
All-sym p (x ∷ ps) (n, h) = (ground arith, All-sym p ps h)

timeout_from-fresh :
    (now : ℕ) (kept ps : List ProtoDisplay) (next : ℕ)
    → proto_timeout ≤ now
    → now < 2 ^ 64
    → All (λ (k : ProtoDisplay). All (λ (x : ProtoDisplay). NotAt x.addr k) ps) kept
    → AreApart ps
    → timeout_from now ps (record { proto_displays = kept ++ ps; next_addr = next })
      ≡ record { proto_displays = kept ++ fresh now ps; next_addr = next }
unfolding timeout_from dispose_proto_display
timeout_from-fresh now kept [] next le lt h d = refl
timeout_from-fresh now kept (p ∷ ps) next le lt h (q, d) =
    let (before, behind) = All-both kept ps p h in
    rw (is_stale-eq now p le lt) (elim (Bool-cases (ltb (p.date + proto_timeout) now)) [
      | inl y ↦
          rw (y, unlink_proto-append p kept ps before)
            (timeout_from-fresh now kept ps next le lt behind d)
      | inr n ↦
          rw (n, ← append_assoc kept (p ∷ []) ps, ← append_assoc kept (p ∷ []) (fresh now ps))
            (timeout_from-fresh now (kept ++ p ∷ []) ps next le lt
              (All-snoc _ kept p behind (All-sym p ps q)) d)
    ])

-- TimeoutProtoDisplays, which frees entries while it walks their list, keeps just those that are not
-- older than the timeout, in their order, at any time from the timeout on up to the end of the clock.
pub timeout_proto_displays-fresh :
    (now : ℕ) (ps : Protos)
    → proto_timeout ≤ now
    → now < 2 ^ 64
    → AreApart ps.proto_displays
    → (timeout_proto_displays now ps).proto_displays ≡ fresh now ps.proto_displays
unfolding timeout_proto_displays
timeout_proto_displays-fresh now ps le lt d =
    ap (λ (r : Protos). r.proto_displays)
      (timeout_from-fresh now [] ps.proto_displays ps.next_addr le lt tt d)

-- The pointers on the list are older than the next one.
abbrev pub AreBelow : ℕ → List ProtoDisplay → Type 0
AreBelow next ps = All (λ (p : ProtoDisplay). p.addr < next) ps

fresh-All :
    (P : ProtoDisplay → Type 0) (now : ℕ) (ps : List ProtoDisplay) → All P ps → All P (fresh now ps)
fresh-All P now [] h = tt
fresh-All P now (p ∷ ps) (q, h) = elim (Bool-cases (ltb (p.date + proto_timeout) now)) [
  | inl y ↦ rw y (fresh-All P now ps h)
  | inr n ↦ rw n (q, fresh-All P now ps h)
]

fresh-AreApart : (now : ℕ) (ps : List ProtoDisplay) → AreApart ps → AreApart (fresh now ps)
fresh-AreApart now [] h = tt
fresh-AreApart now (p ∷ ps) (q, h) = elim (Bool-cases (ltb (p.date + proto_timeout) now)) [
  | inl y ↦ rw y (fresh-AreApart now ps h)
  | inr n ↦ rw n (fresh-All (NotAt p.addr) now ps q, fresh-AreApart now ps h)
]

AreBelow-NotAt : (next : ℕ) (ps : List ProtoDisplay) → AreBelow next ps → All (NotAt next) ps
AreBelow-NotAt next [] h = tt
AreBelow-NotAt next (p ∷ ps) (q, h) = (ground arith, AreBelow-NotAt next ps h)

-- The entry that NewProtoDisplay is asked for.
abbrev pub requested : ℕ → ℕ → Netaddr → ℕ → ℕ → Bytes → ℕ → ProtoDisplay
requested a now address n t connection_address session_id = record {
  addr = a;
  address = address;
  date = now;
  display_number = n;
  connection_type = t;
  connection_address = connection_address;
  session_id = session_id;
  file_authorization = none;
}

timeout_proto_displays-record :
    (now : ℕ) (ps : Protos)
    → proto_timeout ≤ now
    → now < 2 ^ 64
    → AreApart ps.proto_displays
    → timeout_proto_displays now ps
      ≡ record { proto_displays = fresh now ps.proto_displays; next_addr = ps.next_addr }
unfolding timeout_proto_displays
timeout_proto_displays-record now ps le lt d =
    timeout_from-fresh now [] ps.proto_displays ps.next_addr le lt tt d

new_proto_display-list :
    (now : ℕ) (address : Netaddr) (n t : ℕ) (connection_address : Bytes) (session_id : ℕ)
    (ps : Protos)
    → proto_timeout ≤ now
    → now < 2 ^ 64
    → AreApart ps.proto_displays
    → (new_proto_display true now address n t connection_address session_id ps).1 ≡ record {
      proto_displays =
          requested ps.next_addr now address n t connection_address session_id
          ∷ fresh now ps.proto_displays;
      next_addr = ps.next_addr + 1;
    }
unfolding new_proto_display
new_proto_display-list now address n t connection_address session_id ps le lt d =
    ap
      (λ (kept : Protos). record {
        proto_displays =
            requested kept.next_addr now address n t connection_address session_id
            ∷ kept.proto_displays;
        next_addr = kept.next_addr + 1;
      })
      (timeout_proto_displays-record now ps le lt d)

-- What is timed out stays so.
fresh-fresh :
    (now later : ℕ) (ps : List ProtoDisplay)
    → now ≤ later
    → fresh later (fresh now ps) ≡ fresh later ps
fresh-fresh now later [] le = refl
fresh-fresh now later (p ∷ ps) le = elim (Bool-cases (ltb (p.date + proto_timeout) now)) [
  | inl y ↦
      let still : ltb (p.date + proto_timeout) later ≡ true = ground arith in
      rw (y, still) (fresh-fresh now later ps le)
  | inr n ↦ rw (n, fresh-fresh now later ps le) refl
]

timeout_proto_displays-new :
    (now later : ℕ) (made : ProtoDisplay) (ps : Protos)
    → proto_timeout ≤ now
    → now ≤ later
    → later < 2 ^ 64
    → made.addr ≡ ps.next_addr
    → AreApart ps.proto_displays
    → AreBelow ps.next_addr ps.proto_displays
    → (timeout_proto_displays later (record {
      proto_displays = made ∷ fresh now ps.proto_displays;
      next_addr = ps.next_addr + 1;
    })).proto_displays
      ≡ (if ltb (made.date + proto_timeout) later
          then fresh later ps.proto_displays
          else made ∷ fresh later ps.proto_displays)
timeout_proto_displays-new now later made ps le lt end at apart below =
    let behind =
      fresh-All (NotAt made.addr) now ps.proto_displays
        (AreBelow-NotAt made.addr ps.proto_displays (rw at below)) in
    timeout_proto_displays-fresh later
      (record { proto_displays = made ∷ fresh now ps.proto_displays; next_addr = ps.next_addr + 1 })
      (omega arith) end (behind, fresh-AreApart now ps.proto_displays apart)
    ∙ ap (λ l. if ltb (made.date + proto_timeout) later then l else made ∷ l)
        (fresh-fresh now later ps.proto_displays lt)

-- After a display was accepted, and the accepted displays were timed out at any later time up to the
-- timeout, the search for its address and number finds an entry with just the session id, the
-- connection and the date of its acceptance; and the search for any other display finds what it
-- finds among the entries from before that are not timed out. The pointers on the list differ and
-- are older than the next one, and the clock is past the timeout and not at its end.
pub new_proto_display-find_proto_display :
    (now later : ℕ) (address : Netaddr) (n t : ℕ) (connection_address : Bytes) (session_id : ℕ)
    (ps : Protos)
    → proto_timeout ≤ now
    → now ≤ later
    → later ≤ now + proto_timeout
    → later < 2 ^ 64
    → AreApart ps.proto_displays
    → AreBelow ps.next_addr ps.proto_displays
    → (find_proto_display address n (
          timeout_proto_displays later
            (new_proto_display true now address n t connection_address session_id ps).1)
        ≡ some (requested ps.next_addr now address n t connection_address session_id))
      × ((other : Netaddr)
          → (m : ℕ) → ((n == m) && address_equal other address) ≡ false
          → find_proto_display other m (
              timeout_proto_displays later
                (new_proto_display true now address n t connection_address session_id ps).1)
            ≡ find? (is_proto other m) (fresh later ps.proto_displays))
unfolding find_proto_display
new_proto_display-find_proto_display now later address n t connection_address session_id ps le lt
      within end apart below =
    let made = requested ps.next_addr now address n t connection_address session_id in
    let young : ltb (now + proto_timeout) later ≡ false = ground arith in
    let old = timeout_proto_displays-new now later made ps le lt end refl apart below in
    let e =
      ap (λ (x : Protos). (timeout_proto_displays later x).proto_displays)
        (new_proto_display-list now address n t connection_address session_id ps le (omega arith)
          apart)
      ∙ old in
    (
      ap (find? (is_proto address n)) e ∙ rw (young, address_equal_refl address, ==_refl n) refl,
      λ other m ne. ap (find? (is_proto other m)) e ∙ rw (young, ne) refl,
    )
