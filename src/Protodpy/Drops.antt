-- ===== src/Protodpy/Drops.antt =====
-- What disposing of accepted displays, by one or by the timeout, does to the search for them.
use xdm.Base.{
  ℕ, Bool, true, List, [], ◌∷◌, ◌==◌, Option, none, some, find?, ◌≡◌, ◌⊎◌, inl, inr, refl, sym, ap,
  ◌∙◌, arith, Bool-cases, none_ne,
}
use xdm.Netaddr.{Netaddr, address_equal}
use xdm.Netaddr.Laws.{address_equal-eq}
use xdm.Protodpy.{
  ProtoDisplay, Protos, is_proto, unlink_proto, dispose_proto_display, is_stale, timeout_from,
  timeout_proto_displays, map_proto_list, map_proto,
}

-- No entry has the address and the number of one before it.
abbrev pub AreDistinct : List ProtoDisplay → Type 0
AreDistinct [] = Unit
AreDistinct (p ∷ ps) = (find? (is_proto p.address p.display_number) ps ≡ none) × AreDistinct ps

-- The session that is found.
abbrev pub session : Option ProtoDisplay → Option ℕ
session none = none
session (some p) = some p.session_id

pub session-none : (o : Option ProtoDisplay) → session o ≡ none → o ≡ none
session-none none e = refl
session-none (some p) e = absurd (none_ne (sym e))

abbrev pub session_in : Netaddr → ℕ → List ProtoDisplay → Option ℕ
session_in a n ps = session (find? (is_proto a n) ps)

-- What is found afterwards was found before, or nothing is found any more.
pub record Drops (ps qs : List ProtoDisplay) : Type 0 where
  pub found :
      (a : Netaddr) (n : ℕ) → (session_in a n qs ≡ session_in a n ps) ⊎ (session_in a n qs ≡ none)
  pub distinct : AreDistinct qs

pub Drops-refl : (ps : List ProtoDisplay) → AreDistinct ps → Drops ps ps
Drops-refl ps d = record { found = λ a n. inl refl; distinct = d }

pub Drops-trans : (ps qs rs : List ProtoDisplay) → Drops ps qs → Drops qs rs → Drops ps rs
Drops-trans ps qs rs g h = record {
  found = λ a n. elim (h.found a n) [
    | inr e ↦ inr e
    | inl e ↦ elim (g.found a n) [ inl f ↦ inl (e ∙ f) | inr f ↦ inr (e ∙ f) ]
  ];
  distinct = h.distinct;
}

-- What was not found is not found.
pub Drops-none :
    (ps qs : List ProtoDisplay) (a : Netaddr) (n : ℕ)
    → Drops ps qs
    → session_in a n ps ≡ none
    → session_in a n qs ≡ none
Drops-none ps qs a n g e = elim (g.found a n) [ inl f ↦ f ∙ e | inr f ↦ f ]

-- Two searches for the same display find the same.
is_proto-eq :
    (a : Netaddr) (n : ℕ) (p : ProtoDisplay)
    → is_proto a n p ≡ true
    → (x : ProtoDisplay) → is_proto a n x ≡ is_proto p.address p.display_number x
is_proto-eq a n p e x =
    let same : (p.display_number ≡ n) × (address_equal a p.address ≡ true) = ground (arith, e) in
    rw (same.0, address_equal-eq a p.address x.address same.1) refl

find?-ext :
    (f g : ProtoDisplay → Bool) (ps : List ProtoDisplay)
    → ((x : ProtoDisplay) → f x ≡ g x)
    → find? f ps ≡ find? g ps
find?-ext f g [] h = refl
find?-ext f g (p ∷ ps) h = rw (h p, find?-ext f g ps h) refl

unlink_proto-found :
    (x : ℕ) (ps : List ProtoDisplay)
    → AreDistinct ps
    → (a : Netaddr) (n : ℕ)
    → (find? (is_proto a n) (unlink_proto x ps) ≡ find? (is_proto a n) ps)
      ⊎ (find? (is_proto a n) (unlink_proto x ps) ≡ none)
unlink_proto-found x [] d a n = inl refl
unlink_proto-found x (p ∷ ps) (f, d) a n = elim (Bool-cases (p.addr == x)) [
  | inl y ↦ elim (Bool-cases (is_proto a n p)) [
    | inl m ↦ inr (
        rw y (
          find?-ext (is_proto a n) (is_proto p.address p.display_number) ps (is_proto-eq a n p m)
          ∙ f))
    | inr u ↦ inl (rw (y, u) refl)
  ]
  | inr ne ↦ elim (Bool-cases (is_proto a n p)) [
    | inl m ↦ inl (rw (ne, m) refl)
    | inr u ↦ elim (unlink_proto-found x ps d a n) [
      | inl e ↦ inl (rw (ne, u) e)
      | inr e ↦ inr (rw (ne, u) e)
    ]
  ]
]

unlink_proto-AreDistinct :
    (x : ℕ) (ps : List ProtoDisplay) → AreDistinct ps → AreDistinct (unlink_proto x ps)
unlink_proto-AreDistinct x [] d = tt
unlink_proto-AreDistinct x (p ∷ ps) (f, d) = elim (Bool-cases (p.addr == x)) [
  | inl y ↦ rw y d
  | inr ne ↦ rw ne (
    (elim (unlink_proto-found x ps d p.address p.display_number) [ inl e ↦ e ∙ f | inr e ↦ e ]),
    unlink_proto-AreDistinct x ps d,
  )
]

pub dispose_proto_display-Drops :
    (x : ℕ) (ps : Protos)
    → AreDistinct ps.proto_displays
    → Drops ps.proto_displays (dispose_proto_display x ps).proto_displays
unfolding dispose_proto_display
dispose_proto_display-Drops x ps d = record {
  found = λ a n. elim (unlink_proto-found x ps.proto_displays d a n) [
    | inl e ↦ inl (ap session e)
    | inr e ↦ inr (ap session e)
  ];
  distinct = unlink_proto-AreDistinct x ps.proto_displays d;
}

timeout_from-Drops :
    (now : ℕ) (walk : List ProtoDisplay) (ps : Protos)
    → AreDistinct ps.proto_displays
    → Drops ps.proto_displays (timeout_from now walk ps).proto_displays
unfolding timeout_from
timeout_from-Drops now [] ps d = Drops-refl ps.proto_displays d
timeout_from-Drops now (p ∷ rest) ps d = elim (Bool-cases (is_stale now p)) [
  | inr n ↦ rw (n, timeout_from) (timeout_from-Drops now rest ps d)
  | inl y ↦
      let g = dispose_proto_display-Drops p.addr ps d in
      let qs = dispose_proto_display p.addr ps in
      rw (y, timeout_from)
        (Drops-trans ps.proto_displays qs.proto_displays (timeout_from now rest qs).proto_displays g
          (timeout_from-Drops now rest qs g.distinct))
]

pub timeout_proto_displays-Drops :
    (now : ℕ) (ps : Protos)
    → AreDistinct ps.proto_displays
    → Drops ps.proto_displays (timeout_proto_displays now ps).proto_displays
unfolding timeout_proto_displays
timeout_proto_displays-Drops now ps d = timeout_from-Drops now ps.proto_displays ps d

-- A store that keeps the address, the number and the session keeps what is found of them.
pub record IsKeeping (f : ProtoDisplay → ProtoDisplay) : Type 0 where
  pub addresses : (p : ProtoDisplay) → (f p).address ≡ p.address
  pub numbers : (p : ProtoDisplay) → (f p).display_number ≡ p.display_number
  pub sessions : (p : ProtoDisplay) → (f p).session_id ≡ p.session_id

session_in-map_proto_list :
    (x : ℕ) (f : ProtoDisplay → ProtoDisplay) (ps : List ProtoDisplay)
    → IsKeeping f
    → (a : Netaddr) (n : ℕ) → session_in a n (map_proto_list x f ps) ≡ session_in a n ps
session_in-map_proto_list x f [] k a n = refl
session_in-map_proto_list x f (p ∷ ps) k a n = elim (Bool-cases (p.addr == x)) [
  | inl y ↦ elim (Bool-cases (is_proto a n p)) [
    | inl m ↦ rw (y, k.addresses p, k.numbers p, m) (ap some (k.sessions p))
    | inr u ↦ rw (y, k.addresses p, k.numbers p, u) refl
  ]
  | inr ne ↦ elim (Bool-cases (is_proto a n p)) [
    | inl m ↦ rw (ne, m) refl
    | inr u ↦ rw (ne, u) (session_in-map_proto_list x f ps k a n)
  ]
]

map_proto_list-AreDistinct :
    (x : ℕ) (f : ProtoDisplay → ProtoDisplay) (ps : List ProtoDisplay)
    → IsKeeping f
    → AreDistinct ps
    → AreDistinct (map_proto_list x f ps)
map_proto_list-AreDistinct x f [] k d = tt
map_proto_list-AreDistinct x f (p ∷ ps) k (e, d) = elim (Bool-cases (p.addr == x)) [
  | inl y ↦ rw (y, k.addresses p, k.numbers p) (e, d)
  | inr ne ↦ rw ne (still p.address p.display_number e, map_proto_list-AreDistinct x f ps k d)
]
  where
    still :
        (a : Netaddr) (n : ℕ)
        → find? (is_proto a n) ps ≡ none
        → find? (is_proto a n) (map_proto_list x f ps) ≡ none
    still a n e = session-none _ (session_in-map_proto_list x f ps k a n ∙ ap session e)

pub map_proto-Drops :
    (x : ℕ) (f : ProtoDisplay → ProtoDisplay) (ps : Protos)
    → IsKeeping f
    → AreDistinct ps.proto_displays
    → Drops ps.proto_displays (map_proto x f ps).proto_displays
map_proto-Drops x f ps k d = record {
  found = λ a n. inl (session_in-map_proto_list x f ps.proto_displays k a n);
  distinct = map_proto_list-AreDistinct x f ps.proto_displays k d;
}
