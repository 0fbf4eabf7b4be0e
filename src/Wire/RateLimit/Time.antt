-- ===== src/Wire/RateLimit/Time.antt =====
-- What the average and the status of `CheckRateLimit` (wire/rate_limit.go) do as time goes by.
use go_icq.Prelude.{ℕ, suc, ◌+◌, ◌-◌, ◌*◌, ◌/◌, ◌^◌, ◌≤◌, ◌<◌, ◌≡◌, refl, Bool, some, arith}
use native.Mathlib.Nat.{div-le_self, div-mul-le_self, le-div_iff_mul-le}
use go_icq.Prelude.Int.{ℤ, pos, negsuc, ◌+ℤ◌, ◌-ℤ◌}
use go_icq.Prelude.Machine.{quot, int32-pos, int32-negsuc}
use go_icq.Wire.RateLimit.Average.{
  Moderate, average, elapsed_ms-wraps, product_bound, minus_one, times-pos, check_rate_limit_runs,
  window_suc, check_rate_limit-average,
}
use go_icq.Wire.RateLimit.{
  RateLimitStatus, unset, limited, alert, clear, disconnect, RateClass, new_average, status_of,
  check_rate_limit,
}

-- From the worst status to the best.
abbrev pub rank : RateLimitStatus → ℕ
rank unset = 0
rank disconnect = 0
rank limited = 1
rank alert = 2
rank clear = 3

status_of_mono :
    (c : RateClass) (limited_now : Bool) (a b : ℕ)
    → a ≤ b
    → rank (status_of c (pos a) limited_now) ≤ rank (status_of c (pos b) limited_now)
unfolding status_of
status_of_mono c limited_now a b h = ground arith

average_mono :
    (window max level e e' : ℕ)
    → 0 < window
    → e ≤ e'
    → average window max level e ≤ average window max level e'
unfolding average
average_mono window max level e e' h le =
    let sum = level * (window - 1) + e in
    let step : sum / window ≤ (level * (window - 1) + e') / window =
      (le-div_iff_mul-le h).1 (omega (arith, div-mul-le_self sum window)) in
    ground arith

plus-negsuc : (a n : ℕ) → a ≤ n → pos a +ℤ negsuc n ≡ negsuc (n - a)
unfolding ◌+ℤ◌
plus-negsuc a n h = ground arith

quot-negsuc : (k w : ℕ) → 1 ≤ suc k / w → quot (negsuc k) (pos w) ≡ negsuc (suc k / w - 1)
unfolding quot ◌-ℤ◌
quot-negsuc k w h = ground arith

one_le_quotient : (k w : ℕ) → 2 ^ 8 ≤ k → 0 < w → w ≤ 2 ^ 8 → 1 ≤ k / w
one_le_quotient k w h h' h'' = (le-div_iff_mul-le h').1 (omega arith)

average-wraps :
    (c : RateClass) (window max level n : ℕ)
    → Moderate c window max level
    → 2 ^ 24 ≤ n
    → n < 2 ^ 31
    → (k : ℕ) × (new_average c (pos level) (negsuc n) ≡ negsuc k)
unfolding new_average
average-wraps c window max level n m h k =
    let small =
      product_bound level window (omega (arith, m.in_range, m.small_max)) m.small_window in
    let product = level * (window - 1) in
    let quotient = div-le_self (suc (n - product)) window in
    let positive =
      one_le_quotient (suc (n - product)) window (omega arith) m.not_empty m.small_window in
    (
      suc (n - product) / window - 1,
      rw
          (
            m.window_is,
            m.max_is,
            minus_one window m.not_empty,
            int32-pos (window - 1) (omega (arith, m.small_window)),
            times-pos level (window - 1),
            int32-pos product (omega arith),
            plus-negsuc product n (omega arith),
            int32-negsuc (n - product) (omega arith),
            quot-negsuc (n - product) window positive,
            int32-negsuc (suc (n - product) / window - 1) (omega arith),
          )
          (ground arith),
    )

status_negative :
    (c : RateClass) (k n : ℕ) (limited_now : Bool)
    → c.disconnect_level ≡ pos k
    → status_of c (negsuc n) limited_now ≡ disconnect
unfolding status_of
status_negative c k n limited_now e = rw e (ground arith)

module _ (c : RateClass) (window max level : ℕ) (m : Moderate c window max level) where
  -- For a moderate class and level and two times that are both less than 2^30 milliseconds after the last
  -- message, a message at the later one gets no lower level and no worse status than one at the earlier
  -- would, in the order disconnect, limited, alert, clear.
  pub check_rate_limit_mono :
      (last now later : ℤ) (d d' : ℕ) (limited_now : Bool)
      → now -ℤ last ≡ pos d
      → later -ℤ last ≡ pos d'
      → d ≤ d'
      → d' < 2 ^ 30 * 10 ^ 6
      → (s s' : RateLimitStatus) × ((a a' : ℕ) × (check_rate_limit last now c
              (pos level)
              limited_now
            ≡ some (s, pos a))
          × (check_rate_limit last later c (pos level) limited_now ≡ some (s', pos a'))
          × (rank s ≤ rank s')
          × (a ≤ a'))
  check_rate_limit_mono last now later d d' limited_now e e' le h =
      let a = average window max level (d / 10 ^ 6) in
      let a' = average window max level (d' / 10 ^ 6) in
      let more =
        average_mono window max level (d / 10 ^ 6) (d' / 10 ^ 6) m.not_empty (omega arith) in
      (
        status_of c (pos a) limited_now,
        status_of c (pos a') limited_now,
        (
          a,
          a',
          (check_rate_limit-average c window max level m last now d limited_now e (omega arith)).0,
          (check_rate_limit-average c window max level m last later d' limited_now e' h).0,
          status_of_mono c limited_now a a' more,
          more,
        ),
      )

  -- For a moderate class with a disconnect level of zero or more, a message that comes between 2^31
  -- and 2^32 - 2^24 milliseconds (25 to 49 days) after the last one gives the status disconnect.
  pub check_rate_limit-wraps :
      (last now : ℤ) (d k : ℕ) (limited_now : Bool)
      → c.disconnect_level ≡ pos k
      → now -ℤ last ≡ pos d
      → 2 ^ 31 * 10 ^ 6 ≤ d
      → d < (2 ^ 32 - 2 ^ 24) * 10 ^ 6
      → (n : ℕ) × (check_rate_limit last now c (pos level) limited_now
          ≡ some (disconnect, negsuc n))
  check_rate_limit-wraps last now d k limited_now e e' h h' =
      let (n, low) =
        average-wraps c window max level (2 ^ 32 - 1 - d / 10 ^ 6) m (omega arith) (omega arith) in
      (
        n,
        rw
            (
              check_rate_limit_runs c last now (pos level) limited_now (window - 1)
                  (window_suc c window max level m),
              elapsed_ms-wraps last now d e' h (omega arith),
              low,
              status_negative c k n limited_now e,
            )
            refl,
      )
