-- ===== src/State/Float.antt =====
-- Go's `float32` as state/session.go uses it: a number times a thousandth part, rounded to the
-- nearest number of 24 binary digits, ties to even, after the quotient and after the product.
use go_icq.Prelude.{
  ℕ, zero, suc, ◌+◌, ◌*◌, ◌/◌, ◌%◌, ◌^◌, Bool, true, false, ◌==◌, ◌&&◌, ◌||◌, ltb, if◌then◌else◌,
}
use go_icq.Prelude.Int.{ℤ, pos, ◌-ℤ◌, pos_part, neg_part, ltb_ℤ}
use go_icq.Prelude.Machine.{int32}

-- The nearest number to n / d.
unfoldable pub nearest : ℕ → ℕ → ℕ
nearest n d =
    let q = n / d in
    let r = n % d in if ltb d (2 * r) || ((2 * r == d) && (q % 2 == 1)) then suc q else q

-- How often a number is halved until it has 24 binary digits, and rounded so.
unfoldable pub excess : ℕ → ℕ → ℕ
excess zero n = 0
excess (suc fuel) n = let rest = excess fuel (n / 2) in if ltb n (2 ^ 24) then 0 else suc rest

-- Products of two numbers of 24 digits have fewer than 64 to spare.
unfoldable pub round_24 : ℕ → ℕ
unfolding excess nearest
round_24 n = let s = excess 64 n in nearest n (2 ^ s) * 2 ^ s

-- How often n is doubled until n / 1000 has 24 binary digits; 33 times are enough for n = 1.
unfoldable pub doublings : ℕ → ℕ → ℕ
doublings zero n = 0
doublings (suc fuel) n =
    let rest = doublings fuel (2 * n) in if ltb n (2 ^ 23 * 1000) then suc rest else 0

-- The whole part of float32(a) * (float32(n) / 1000).
unfoldable pub thousandths : ℕ → ℕ → ℕ
unfolding round_24 nearest doublings
thousandths a zero = 0
thousandths a (suc n) =
    let k = doublings 64 (suc n) in round_24 (round_24 a * nearest (suc n * 2 ^ k) 1000) / 2 ^ k

abbrev differ : Bool → Bool → Bool
differ true b = if b then false else true
differ false b = b

-- `int32(float32(a) * (float32(incr) / 1000.0))`.
unfoldable pub scaled : ℤ → ℤ → ℤ
unfolding thousandths
scaled a incr =
    let size = thousandths (pos_part a + neg_part a) (pos_part incr + neg_part incr) in
    int32 (if differ (ltb_ℤ a (pos 0)) (ltb_ℤ incr (pos 0)) then pos 0 -ℤ pos size else pos size)
