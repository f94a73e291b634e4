-- ===== src/Base/Int.antt =====
-- Go's `int`, where the program reads one that may be negative.
use Prim.Native.Nat.{ℕ}
use mathlib.Core.Bool.{Bool, true, false}
use forcefield.Base.Tests.{◌==◌, ltb}

-- `negsuc n` is -(n + 1).
pub data ℤ : Type 0 where
  pos : ℕ → ℤ
  negsuc : ℕ → ℤ

abbrev pub is_negative : ℤ → Bool
is_negative (pos n) = false
is_negative (negsuc n) = true

-- 0 for a negative number.
abbrev pub pos_part : ℤ → ℕ
pos_part (pos n) = n
pos_part (negsuc n) = 0

-- Whether the number is the natural number `k`.
abbrev pub is_nat : ℕ → ℤ → Bool
is_nat k (pos n) = n == k
is_nat k (negsuc n) = false

-- Whether the number is above the natural number `k`.
abbrev pub exceeds : ℕ → ℤ → Bool
exceeds k (pos n) = ltb k n
exceeds k (negsuc n) = false
