-- ===== src/Prelude/Number.antt =====
-- JavaScript numbers as the code tells them apart: the integers exactly, and every other double
-- only by what kind it is.
use Prim.Native.Nat.{ℕ}
use mathlib.Core.Bool.{Bool, true, false}

-- `negsuc n` is -(n + 1).
pub data ℤ : Type 0 where
  pos : ℕ → ℤ
  negsuc : ℕ → ℤ

-- `fraction k` is the k-th double that is finite and no integer.
pub data Number : Type 0 where
  integer : ℤ → Number
  fraction : ℕ → Number
  infinity : Number
  nan : Number

-- `Number.isFinite`.
abbrev pub is_finite : Number → Bool
is_finite (integer z) = true
is_finite (fraction k) = true
is_finite infinity = false
is_finite nan = false

-- `Number.isInteger(v) && v >= 0`, for the tests that the code writes together.
abbrev pub is_non_negative_integer : Number → Bool
is_non_negative_integer (integer (pos n)) = true
is_non_negative_integer _ = false
