-- ===== src/Base/Int.antt =====
-- Signed integers over the native numbers, and the conversion to a 32-bit `int`.
use Prim.Native.Nat.{ℕ, suc, ◌+◌, ◌-◌, ◌%◌, ◌<◌, ◌≤◌}
use mathlib.Core.Path.{◌≡◌}
use mathlib.Core.Bool.{Bool}
use native.Mathlib.Omega.{arith}
use store_cpp.Base.Tests.{ltb, if◌then◌else◌}

-- `negsuc n` is -(n + 1).
pub data ℤ : Type 0 where
  pos : ℕ → ℤ
  negsuc : ℕ → ℤ

abbrev pub pos_part : ℤ → ℕ
pos_part (pos n) = n
pos_part (negsuc n) = 0

abbrev pub neg_part : ℤ → ℕ
neg_part (pos n) = 0
neg_part (negsuc n) = suc n

infix 50 ◌≤ℤ◌
abbrev pub ◌≤ℤ◌ : ℤ → ℤ → Type 0
a ≤ℤ b = pos_part a + neg_part b ≤ pos_part b + neg_part a

abbrev pub ltb_ℤ : ℤ → ℤ → Bool
ltb_ℤ a b = ltb (pos_part a + neg_part b) (pos_part b + neg_part a)

-- The value of a bit pattern of 32 bits in two's complement.
abbrev signed32 : ℕ → ℤ
signed32 r = if ltb r 2147483648 then pos r else negsuc (4294967295 - r)

-- `static_cast<int>` of a wider integer: the low 32 bits, read in two's complement.
unfoldable pub to_int32 : ℤ → ℤ
to_int32 (pos n) = signed32 (n % 4294967296)
to_int32 (negsuc n) = signed32 (4294967295 - n % 4294967296)

abbrev pub FitsInt32 : ℤ → Type 0
FitsInt32 (pos n) = n < 2147483648
FitsInt32 (negsuc n) = n < 2147483648

pub to_int32_fits : (z : ℤ) → FitsInt32 z → to_int32 z ≡ z
unfolding to_int32
to_int32_fits (pos n) h = ground arith
to_int32_fits (negsuc n) h = ground arith

pub to_int32-FitsInt32 : (z : ℤ) → FitsInt32 (to_int32 z)
unfolding to_int32
to_int32-FitsInt32 (pos n) = ground arith
to_int32-FitsInt32 (negsuc n) = ground arith

-- `a - b` of two natural numbers, and sums and differences of integers.
abbrev pub difference : ℕ → ℕ → ℤ
difference a b = if ltb a b then negsuc (b - a - 1) else pos (a - b)

infixl 60 ◌+ℤ◌ ◌-ℤ◌
abbrev pub ◌+ℤ◌ : ℤ → ℤ → ℤ
a +ℤ b = difference (pos_part a + pos_part b) (neg_part a + neg_part b)

abbrev pub ◌-ℤ◌ : ℤ → ℤ → ℤ
a -ℤ b = difference (pos_part a + neg_part b) (neg_part a + pos_part b)
