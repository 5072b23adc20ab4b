-- ===== src/Base/Int/Small.antt =====
-- The arithmetic of int64 on numbers that it does not wrap.
use receiptd.Base.{ℕ, ◌+◌, ◌-◌, ◌%◌, ◌^◌, ◌≤◌, ◌<◌, ◌≡◌, ◌∙◌, ap, arith}
use receiptd.Base.Int.{pos, of_bits_64, int64, add_int64, sub_int64}

-- Within 63 bits, nothing wraps.
pub of_bits_64-small : (n : ℕ) → n < 2 ^ 63 → of_bits_64 n ≡ pos n
of_bits_64-small n h = ground (arith, h)

pub int64-small : (n : ℕ) → n < 2 ^ 63 → int64 n ≡ pos n
unfolding int64
int64-small n h =
    (let e : n % 2 ^ 64 ≡ n = omega (arith, h) in ap of_bits_64 e) ∙ of_bits_64-small n h

pub add_int64-small : (a b : ℕ) → a + b < 2 ^ 63 → add_int64 (pos a) (pos b) ≡ pos (a + b)
unfolding add_int64
add_int64-small a b h =
    (let e : (a % 2 ^ 64 + b % 2 ^ 64) % 2 ^ 64 ≡ a + b = omega (arith, h) in ap of_bits_64 e)
    ∙ of_bits_64-small (a + b) h

pub sub_int64-small : (a b : ℕ) → a < 2 ^ 63 → b ≤ a → sub_int64 (pos a) (pos b) ≡ pos (a - b)
unfolding sub_int64
sub_int64-small a b h k =
    (let e : (a % 2 ^ 64 + (2 ^ 64 - b % 2 ^ 64)) % 2 ^ 64 ≡ a - b = omega (arith, h, k) in
      ap of_bits_64 e)
    ∙ of_bits_64-small (a - b) (omega (arith, h, k))
