-- ===== src/Wire/RateLimit/Average.antt =====
-- The moving average of `CheckRateLimit` (wire/rate_limit.go) on numbers without a sign, and its
-- status.
use go_icq.Prelude.{
  ℕ, suc, ◌+◌, ◌-◌, ◌*◌, ◌/◌, ◌^◌, ◌≤◌, ◌<◌, ◌≡◌, refl, ap, Bool, ltb, if◌then◌else◌, some, arith,
}
use native.Mathlib.Nat.{mul-le-mul, div-le_self}
use go_icq.Prelude.Int.{ℤ, pos, negsuc, ◌+ℤ◌, ◌-ℤ◌, ◌*ℤ◌}
use go_icq.Prelude.Machine.{quot, int32-pos, int32-wraps}
use go_icq.Wire.RateLimit.{
  RateClass, saturate, elapsed_ms, new_average, status_of, check_rate_limit,
}

-- A rate class and a level for which the average is computed without an overflow, as those of the
-- default classes are.
pub record Moderate (c : RateClass) (window max level : ℕ) : Type 0 where
  pub window_is : c.window_size ≡ pos window
  pub max_is : c.max_level ≡ pos max
  pub not_empty : 0 < window
  pub small_window : window ≤ 2 ^ 8
  pub small_max : max ≤ 2 ^ 15
  pub in_range : level ≤ max

-- The average of the level and the time, over a window and up to a maximum.
unfoldable pub average : ℕ → ℕ → ℕ → ℕ → ℕ
average window max level elapsed =
    let avg = (level * (window - 1) + elapsed) / window in if ltb max avg then max else avg

saturate-pos : (d : ℕ) → d < 2 ^ 63 → saturate (pos d) ≡ pos d
saturate-pos d h = ground arith

-- The milliseconds of a duration in nanoseconds, if there are fewer than 2^31 of them.
pub elapsed_ms-small :
    (last now : ℤ) (d : ℕ)
    → now -ℤ last ≡ pos d
    → d < 2 ^ 31 * 10 ^ 6
    → elapsed_ms last now ≡ pos (d / 10 ^ 6)
unfolding elapsed_ms quot
elapsed_ms-small last now d e h =
    rw (e, saturate-pos d (omega arith)) (int32-pos (d / 10 ^ 6) (omega arith))

-- Between 2^31 and 2^32 milliseconds the conversion to 32 bits makes the number negative.
pub elapsed_ms-wraps :
    (last now : ℤ) (d : ℕ)
    → now -ℤ last ≡ pos d
    → 2 ^ 31 * 10 ^ 6 ≤ d
    → d < 2 ^ 32 * 10 ^ 6
    → elapsed_ms last now ≡ negsuc (2 ^ 32 - 1 - d / 10 ^ 6)
unfolding elapsed_ms quot
elapsed_ms-wraps last now d e h k =
    rw (e, saturate-pos d (omega arith)) (int32-wraps (d / 10 ^ 6) (omega arith) (omega arith))

pub product_bound :
    (level window : ℕ) → level ≤ 2 ^ 15 → window ≤ 2 ^ 8 → level * (window - 1) ≤ 2 ^ 23
product_bound level window h k = let less : window - 1 ≤ 2 ^ 8 = omega arith in mul-le-mul h less

pub minus_one : (w : ℕ) → 0 < w → pos w -ℤ pos 1 ≡ pos (w - 1)
unfolding ◌-ℤ◌
minus_one w h = ground arith

plus-pos : (a b : ℕ) → pos a +ℤ pos b ≡ pos (a + b)
unfolding ◌+ℤ◌
plus-pos a b = ground arith

pub times-pos : (a b : ℕ) → pos a *ℤ pos b ≡ pos (a * b)
unfolding ◌*ℤ◌
times-pos a b = ground arith

quot-pos : (a b : ℕ) → quot (pos a) (pos b) ≡ pos (a / b)
unfolding quot
quot-pos a b = refl

pub new_average-average :
    (c : RateClass) (window max level elapsed : ℕ)
    → Moderate c window max level
    → elapsed < 2 ^ 30
    → new_average c (pos level) (pos elapsed) ≡ pos (average window max level elapsed)
unfolding new_average average
new_average-average c window max level elapsed m h =
    let small =
      product_bound level window (omega (arith, m.in_range, m.small_max)) m.small_window in
    let sum = level * (window - 1) + elapsed in
    let quotient = div-le_self sum window in
    rw
      (
        m.window_is,
        m.max_is,
        minus_one window m.not_empty,
        int32-pos (window - 1) (omega (arith, m.small_window)),
        times-pos level (window - 1),
        int32-pos (level * (window - 1)) (omega arith),
        plus-pos (level * (window - 1)) elapsed,
        int32-pos sum (omega arith),
        quot-pos sum window,
        int32-pos (sum / window) (omega arith),
      )
      (ground arith)

average_max : (window max level elapsed : ℕ) → average window max level elapsed ≤ max
unfolding average
average_max window max level elapsed = ground arith

-- A window that is not empty leads to a status and a level.
pub check_rate_limit_runs :
    (c : RateClass) (last now level : ℤ) (limited_now : Bool) (w : ℕ)
    → c.window_size ≡ pos (suc w)
    → check_rate_limit last now c level limited_now
      ≡ some (
        status_of c (new_average c level (elapsed_ms last now)) limited_now,
        new_average c level (elapsed_ms last now),
      )
unfolding check_rate_limit
check_rate_limit_runs c last now level limited_now w e = rw e refl

module _ (c : RateClass) (window max level : ℕ) (m : Moderate c window max level) where
  pub window_suc : c.window_size ≡ pos (suc (window - 1))
  window_suc = rw m.window_is (ap pos (omega (arith, m.not_empty)))

  -- For a moderate class and level and less than 2^30 milliseconds since the last message,
  -- `CheckRateLimit` returns the average of the level and those milliseconds over the window, which
  -- is at most the class's maximum, and the status of that average.
  pub check_rate_limit-average :
      (last now : ℤ) (d : ℕ) (limited_now : Bool)
      → now -ℤ last ≡ pos d
      → d < 2 ^ 30 * 10 ^ 6
      → let new = average window max level (d / 10 ^ 6) in
        (check_rate_limit last now c (pos level) limited_now
          ≡ some (status_of c (pos new) limited_now, pos new))
        × (new ≤ max)
  check_rate_limit-average last now d limited_now e h = (
    rw
        (
          check_rate_limit_runs c last now (pos level) limited_now (window - 1) window_suc,
          elapsed_ms-small last now d e (omega arith),
          new_average-average c window max level (d / 10 ^ 6) m (omega arith),
        )
        refl,
    average_max window max level (d / 10 ^ 6),
  )
