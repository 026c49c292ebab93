-- ===== src/Base/Int.antt =====
-- C integers that may be negative.
use Prim.Native.Nat.{ℕ, zero, suc}
use mathlib.Core.Bool.{Bool, true, false}
use xdm.Base.Tests.{leb}

-- `negsuc n` is -(n + 1).
pub data ℤ : Type 0 where
  pos : ℕ → ℤ
  negsuc : ℕ → ℤ

-- `n >= z` for a counter `n`.
abbrev pub ge_int : ℕ → ℤ → Bool
ge_int n (pos m) = leb m n
ge_int n (negsuc m) = true

-- `z != 0`
abbrev pub nonzero : ℤ → Bool
nonzero (pos zero) = false
nonzero (pos (suc n)) = true
nonzero (negsuc n) = true

abbrev pub neg : ℕ → ℤ
neg zero = pos 0
neg (suc n) = negsuc n
