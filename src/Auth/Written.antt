-- ===== src/Auth/Written.antt =====
-- What the entries of a display look like in the file, and what stays beside them.
use mathlib.Core.List.{append_assoc, append-nil}
use xdm.Base.{
  Bool, true, false, List, [], ◌∷◌, ◌++◌, if◌then◌else◌, ◌≡◌, refl, sym, ap, ◌∙◌, Bool-cases, inl,
  inr,
}
use xdm.Base.Result.{Result, ok, ok_eq, ◌>>=◌, >>=-eq-ok}
use xdm.Auth.{
  Entry, Rewriting, check_entry, place_entry, Place, Owner, places, set_auth_number, write_places,
  write_display_auth, write_each, copy_old,
}

-- The entries of an authorization for some places.
abbrev pub entries_at : Entry → List Place → List Entry
entries_at e [] = []
entries_at e (p ∷ ps) = place_entry e p ∷ entries_at e ps

-- The entries of a display's authorizations, in order.
abbrev pub entries_of : Owner → List Entry → Result (List Entry)
entries_of o [] = ok []
entries_of o (e ∷ es) = places o e >>= λ ps.
    entries_of o es >>= λ rest. ok (entries_at (set_auth_number o.display_name e) ps ++ rest)

-- What an old file keeps beside some new entries.
abbrev pub kept : List Entry → List Entry → List Entry
kept new [] = []
kept new (e ∷ es) = if check_entry e new then kept new es else e ∷ kept new es

abbrev pub push : List Entry → List Entry → List Entry
push [] saved = saved
push (e ∷ es) saved = push es (e ∷ saved)

-- The state behind the entries `ms`.
abbrev pub wrote : Bool → List Entry → List Entry → List Entry → Rewriting
wrote true w saved ms = record { written = w ++ ms; addrs = push ms saved; do_write = true }
wrote false w saved ms = record { written = w; addrs = push ms saved; do_write = false }

abbrev pub state : Bool → List Entry → List Entry → Rewriting
state b w saved = record { written = w; addrs = saved; do_write = b }

push-append : (a b saved : List Entry) → push (a ++ b) saved ≡ push b (push a saved)
push-append [] b saved = refl
push-append (e ∷ a) b saved = push-append a b (e ∷ saved)

pub write_places-wrote :
    (b : Bool) (e : Entry) (ps : List Place) (w saved : List Entry)
    → write_places e ps (state b w saved) ≡ wrote b w saved (entries_at e ps)
unfolding write_places
write_places-wrote true e [] w saved = rw (append-nil w) refl
write_places-wrote false e [] w saved = refl
write_places-wrote true e (p ∷ ps) w saved =
    write_places-wrote true e ps (w ++ place_entry e p ∷ []) (place_entry e p ∷ saved)
    ∙ ap
        (λ x. record {
          written = x;
          addrs = push (entries_at e ps) (place_entry e p ∷ saved);
          do_write = true;
        })
        (append_assoc w (place_entry e p ∷ []) (entries_at e ps))
write_places-wrote false e (p ∷ ps) w saved =
    write_places-wrote false e ps w (place_entry e p ∷ saved)

pub wrote-state :
    (b : Bool) (w saved ms ns : List Entry)
    → wrote b (wrote b w saved ms).written (wrote b w saved ms).addrs ns
      ≡ wrote b w saved (ms ++ ns)
wrote-state true w saved ms ns = rw (push-append ms ns saved, append_assoc w ms ns) refl
wrote-state false w saved ms ns = rw (push-append ms ns saved) refl

pub wrote-eq :
    (b : Bool) (w saved ms : List Entry)
    → wrote b w saved ms ≡ state b (wrote b w saved ms).written (wrote b w saved ms).addrs
wrote-eq true w saved ms = refl
wrote-eq false w saved ms = refl

module _ (o : Owner) where
  pub entries_of-cons :
      (e : Entry) (es : List Entry) (ps : List Place) (ms : List Entry)
      → places o e ≡ ok ps
      → entries_of o es ≡ ok ms
      → entries_of o (e ∷ es) ≡ ok (entries_at (set_auth_number o.display_name e) ps ++ ms)
  entries_of-cons e es ps ms p m = rw (p, m) refl

  -- The parts of an answer.
  pub entries_of-parts :
      (e : Entry) (es ms : List Entry)
      → entries_of o (e ∷ es) ≡ ok ms
      → (ps : List Place) × (rest : List Entry) × (places o e ≡ ok ps)
        × (entries_of o es ≡ ok rest)
        × (ms ≡ entries_at (set_auth_number o.display_name e) ps ++ rest)
  entries_of-parts e es ms q =
      let (ps, p, q1) = >>=-eq-ok (places o e) _ q in
      let (rest, r, q2) = >>=-eq-ok (entries_of o es) _ q1 in (ps, rest, p, r, sym (ok_eq q2))

  pub write_each-entries_of :
      (b : Bool) (es w saved : List Entry) (f : Rewriting)
      → write_each o es (state b w saved) ≡ ok f
      → (ms : List Entry) × (entries_of o es ≡ ok ms) × (f ≡ wrote b w saved ms)
  unfolding write_each write_display_auth
  write_each-entries_of b [] w saved f e = ([], refl, sym (ok_eq e) ∙ nothing b)
    where
      nothing : (b : Bool) → state b w saved ≡ wrote b w saved []
      nothing true = rw (append-nil w) refl
      nothing false = refl
  write_each-entries_of b (x ∷ es) w saved f e =
      let (g, e1, e2) = >>=-eq-ok (write_display_auth o x (state b w saved)) (write_each o es) e in
      let (ps, p, q) = >>=-eq-ok (places o x) _ e1 in
      let new = entries_at (set_auth_number o.display_name x) ps in
      let same : g ≡ state b (wrote b w saved new).written (wrote b w saved new).addrs =
        sym (ok_eq q)
        ∙ (write_places-wrote b (set_auth_number o.display_name x) ps w saved
            ∙ wrote-eq b w saved new) in
      let (ms, m, final) =
        write_each-entries_of b es (wrote b w saved new).written (wrote b w saved new).addrs f
          (ap (write_each o es) (sym same) ∙ e2) in
      (new ++ ms, entries_of-cons x es ps ms p m, final ∙ wrote-state b w saved new ms)

pub copy_old-kept :
    (old w saved : List Entry) → (copy_old old (state true w saved)).written ≡ w ++ kept saved old
unfolding copy_old
copy_old-kept [] w saved = sym (append-nil w)
copy_old-kept (e ∷ old) w saved = elim (Bool-cases (check_entry e saved)) [
  | inl y ↦ rw (y, copy_old) (copy_old-kept old w saved)
  | inr n ↦
      rw (n, copy_old)
        (copy_old-kept old (w ++ e ∷ []) saved ∙ append_assoc w (e ∷ []) (kept saved old))
]
