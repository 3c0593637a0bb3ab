-- ===== src/Base/Machine.antt =====
-- Go's `int` on a 64-bit platform: the integers from -2^63 to 2^63 - 1, whose sums and differences
-- wrap around.
use pack_service.Base.Int.{ℤ, pos, negsuc, ◌+ℤ◌, ◌-ℤ◌}
use pack_service.Base.{ℕ, ◌+◌, ◌-◌, ◌%◌, ◌^◌, ◌≤◌, ◌<◌, ◌≡◌, arith, ltb, if◌then◌else◌}

abbrev pub max_int : ℕ
max_int = 2 ^ 63 - 1

-- The value that 64 bits of an integer stand for, in two's complement.
unfoldable pub int64 : ℤ → ℤ
int64 (pos n) = let m = n % 2 ^ 64 in if ltb m (2 ^ 63) then pos m else negsuc (2 ^ 64 - 1 - m)
int64 (negsuc n) = let m = n % 2 ^ 64 in if ltb m (2 ^ 63) then negsuc m else pos (2 ^ 64 - 1 - m)

unfoldable pub add_int : ℤ → ℤ → ℤ
unfolding int64 ◌+ℤ◌
add_int a b = int64 (a +ℤ b)

unfoldable pub sub_int : ℤ → ℤ → ℤ
unfolding int64 ◌-ℤ◌
sub_int a b = int64 (a -ℤ b)

-- A sum of two numbers that fits is the sum.
pub add_int-pos : (a b : ℕ) → a + b ≤ max_int → add_int (pos a) (pos b) ≡ pos (a + b)
unfolding add_int
add_int-pos a b h = ground arith

-- A difference of two numbers, the first the larger, is the difference.
pub sub_int-pos : (a b : ℕ) → a ≤ max_int → b ≤ a → sub_int (pos a) (pos b) ≡ pos (a - b)
unfolding sub_int
sub_int-pos a b h k = ground arith

-- A sum of two numbers that does not fit is negative.
pub add_int_wraps :
    (a b : ℕ)
    → a ≤ max_int
    → b ≤ max_int
    → max_int < a + b
    → add_int (pos a) (pos b) ≡ negsuc (2 ^ 64 - 1 - (a + b))
unfolding add_int
add_int_wraps a b h k o = ground arith
