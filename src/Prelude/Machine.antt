-- ===== src/Prelude/Machine.antt =====
-- Signed 32-bit integers, as Go computes with them: conversions and results keep the 32 lowest bits
-- in two's complement, and a quotient is rounded towards zero.
use go_icq.Prelude.{ℕ, suc, ◌-◌, ◌/◌, ◌%◌, ◌^◌, ◌≤◌, ◌<◌, ◌≡◌, ltb, if◌then◌else◌, arith}
use go_icq.Prelude.Int.{ℤ, pos, negsuc, ◌-ℤ◌}

-- The number that has the 32 bits `u`.
abbrev pub signed_32 : ℕ → ℤ
signed_32 u = if ltb u (2 ^ 31) then pos u else negsuc (2 ^ 32 - 1 - u)

-- The conversion `int32(z)`.
unfoldable pub int32 : ℤ → ℤ
int32 (pos n) = signed_32 (n % 2 ^ 32)
int32 (negsuc n) = signed_32 (2 ^ 32 - 1 - n % 2 ^ 32)

-- The quotient by a divisor that is not zero.
abbrev quot_ℕ : ℤ → ℕ → ℤ
quot_ℕ (pos a) b = pos (a / b)
quot_ℕ (negsuc a) b = pos 0 -ℤ pos (suc a / b)

unfoldable pub quot : ℤ → ℤ → ℤ
quot a (pos b) = quot_ℕ a b
quot a (negsuc b) = pos 0 -ℤ quot_ℕ a (suc b)

-- On numbers below 2^31 the conversion changes nothing, and from there to 2^32 it makes them negative.
pub int32-pos : (n : ℕ) → n < 2 ^ 31 → int32 (pos n) ≡ pos n
unfolding int32
int32-pos n h = ground arith

pub int32-wraps : (n : ℕ) → 2 ^ 31 ≤ n → n < 2 ^ 32 → int32 (pos n) ≡ negsuc (2 ^ 32 - 1 - n)
unfolding int32
int32-wraps n h k = ground arith

pub int32-negsuc : (n : ℕ) → n < 2 ^ 31 → int32 (negsuc n) ≡ negsuc n
unfolding int32
int32-negsuc n h = ground arith
