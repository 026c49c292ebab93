-- ===== src/Base/Result.antt =====
-- What a C function leaves behind: a state, or the memory fault that ends the program.
use mathlib.Core.Path.{◌≡◌, refl}

pub data Fault : Type 0 where
  -- a structure is used after it was freed
  use_after_free : Fault
  -- a null pointer is followed
  null_pointer : Fault
  -- an array is read past its end
  out_of_bounds : Fault
  -- the call has not come back when the model's fuel ran out
  no_return : Fault

pub data Result {κ} (X : Type κ) : Type κ where
  ok : X → Result X
  fault : Fault → Result X

infixl 5 ◌>>=◌
abbrev pub ◌>>=◌ {ℓ κ} : {X : Type ℓ} {Y : Type κ} → Result X → (X → Result Y) → Result Y
ok x >>= next = next x
fault why >>= next = fault why

-- The middle state of a chain that comes to its end.
pub >>=-eq-ok {ℓ κ} :
    {X : Type ℓ} {Y : Type κ} (first : Result X) (next : X → Result Y) {y : Y}
    → (first >>= next) ≡ ok y
    → (x : X) × (first ≡ ok x) × (next x ≡ ok y)
>>=-eq-ok (ok x) next e = (x, refl, e)
>>=-eq-ok (fault why) next e = cc

pub ok_eq {ℓ} : {A : Type ℓ} {x y : A} → ok x ≡ ok y → x ≡ y
ok_eq e = cc

pub fault_ne {ℓ} : {A : Type ℓ} {f : Fault} {x : A} → fault f ≡ ok x → ⊥
fault_ne e = cc
