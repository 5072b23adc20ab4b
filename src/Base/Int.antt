-- ===== src/Base/Int.antt =====
-- Signed integers over the native numbers: Go's `int` where the source takes negative values.
pub mod Small
use mathlib.Core.Option.{Option, none, some}
use Prim.Native.Nat.{◌/◌, ℕ, zero, suc, ◌+◌, ◌-◌, ◌%◌, ◌^◌, ◌≤◌}
use mathlib.Core.Bool.{Bool, true, false}
use receiptd.Base.Tests.{ltb}

-- `negsuc n` is -(n + 1).
pub data ℤ : Type 0 where
  pos : ℕ → ℤ
  negsuc : ℕ → ℤ

abbrev pub pos_part : ℤ → ℕ
pos_part (pos n) = n
pos_part (negsuc n) = 0

abbrev pub neg_part : ℤ → ℕ
neg_part (pos n) = 0
neg_part (negsuc n) = suc n

abbrev pub ltb_ℤ : ℤ → ℤ → Bool
ltb_ℤ a b = ltb (pos_part a + neg_part b) (pos_part b + neg_part a)

infix 50 ◌≤ℤ◌
abbrev pub ◌≤ℤ◌ : ℤ → ℤ → Type 0
a ≤ℤ b = pos_part a + neg_part b ≤ pos_part b + neg_part a

-- The sum of two values of an int64, by their 64-bit patterns.
abbrev pub bits_64 : ℤ → ℕ
bits_64 (pos n) = n % 2 ^ 64
bits_64 (negsuc n) = 2 ^ 64 - 1 - n % 2 ^ 64

abbrev pub of_bits_64 : ℕ → ℤ
of_bits_64 b = elim (ltb b (2 ^ 63)) [ true ↦ pos b | false ↦ negsuc (2 ^ 64 - 1 - b) ]

unfoldable pub add_int64 : ℤ → ℤ → ℤ
add_int64 a b = of_bits_64 ((bits_64 a + bits_64 b) % 2 ^ 64)

-- What an int64 keeps of a number, and of the product of two that are not negative.
unfoldable pub int64 : ℕ → ℤ
int64 n = of_bits_64 (n % 2 ^ 64)

unfoldable pub sub_int64 : ℤ → ℤ → ℤ
sub_int64 a b = of_bits_64 ((bits_64 a + (2 ^ 64 - bits_64 b)) % 2 ^ 64)

abbrev pub minus : ℕ → ℤ
minus zero = pos 0
minus (suc n) = negsuc n

-- Go's division of two int64, which rounds towards 0 and wraps where the quotient is 2^63; by 0, a
-- panic.
unfoldable pub div_int64 : ℤ → ℤ → Option ℤ
unfolding int64
div_int64 a (pos zero) = none
div_int64 (pos a) (pos (suc b)) = some (pos (a / suc b))
div_int64 (negsuc a) (pos (suc b)) = some (minus (suc a / suc b))
div_int64 (pos a) (negsuc b) = some (minus (a / suc b))
div_int64 (negsuc a) (negsuc b) = some (int64 (suc a / suc b))
