-- ===== src/Prelude/Int.antt =====
-- Signed machine integers: a value is an integer, and `int32` is Go's conversion to 32 bits.
use Prim.Native.Nat.{ℕ, ◌-◌, ◌%◌, ◌^◌, ◌<◌}
use mathlib.Core.Path.{◌≡◌}
use mathlib.Core.Bool.{Bool}
use native.Mathlib.Omega.{arith}
use flintlock.Prelude.Tests.{ltb, leb, ◌==◌, if◌then◌else◌}

-- `negsuc n` is -(n + 1).
pub data ℤ : Type 0 where
  pos : ℕ → ℤ
  negsuc : ℕ → ℤ

abbrev pub is_zero : ℤ → Bool
is_zero (pos n) = n == 0
is_zero (negsuc n) = Bool.false

-- a <= x and x <= b, for the bounds of a validation rule
abbrev pub at_least : ℕ → ℤ → Bool
at_least a (pos n) = leb a n
at_least a (negsuc n) = Bool.false

abbrev pub at_most : ℕ → ℤ → Bool
at_most b (pos n) = leb n b
at_most b (negsuc n) = Bool.true

-- int32(x): two's complement, modulo 2^32
unfoldable pub int32 : ℤ → ℤ
int32 (pos n) =
    if ltb (n % 2 ^ 32) (2 ^ 31) then pos (n % 2 ^ 32) else negsuc (2 ^ 32 - n % 2 ^ 32 - 1)
int32 (negsuc n) =
    if ltb (n % 2 ^ 32) (2 ^ 31) then negsuc (n % 2 ^ 32) else pos (2 ^ 32 - n % 2 ^ 32 - 1)

abbrev pub IsInt32 : ℤ → Type 0
IsInt32 (pos n) = n < 2 ^ 31
IsInt32 (negsuc n) = n < 2 ^ 31

pub int32_lem : (z : ℤ) → IsInt32 z → int32 z ≡ z
unfolding int32
int32_lem (pos n) h = ground arith
int32_lem (negsuc n) h = ground arith

pub int32-IsInt32 : (z : ℤ) → IsInt32 (int32 z)
unfolding int32
int32-IsInt32 (pos n) = ground arith
int32-IsInt32 (negsuc n) = ground arith
