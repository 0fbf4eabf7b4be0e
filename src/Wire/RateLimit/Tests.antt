-- ===== src/Wire/RateLimit/Tests.antt =====
-- The rate limits of wire/rate_limit.go at concrete inputs.
use go_icq.Prelude.{ℕ, ◌/◌, ◌^◌, ◌≤◌, ◌≡◌, refl, some, false, arith}
use go_icq.Prelude.Int.{pos, negsuc, ◌-ℤ◌}
use go_icq.Wire.RateLimit.{
  RateLimitStatus, disconnect, RateClass, get, index, default_rate_limit_classes, check_rate_limit,
  status_of,
}
use go_icq.Wire.RateLimit.Average.{Moderate, average, check_rate_limit-average}
use go_icq.Wire.RateLimit.Time.{rank, check_rate_limit_mono, check_rate_limit-wraps}

-- The third default class, that of messages.
abbrev message_class : RateClass
message_class = record {
  id = 3;
  window_size = pos 20;
  clear_level = pos 5100;
  alert_level = pos 5000;
  limit_level = pos 4000;
  disconnect_level = pos 3000;
  max_level = pos 6000;
}

message_class_default : get default_rate_limit_classes 3 ≡ some message_class
unfolding get index default_rate_limit_classes
message_class_default = refl

message_class-Moderate : Moderate message_class 20 6000 5000
message_class-Moderate = record {
  window_is = refl;
  max_is = refl;
  not_empty = omega arith;
  small_window = omega arith;
  small_max = omega arith;
  in_range = omega arith;
}

later : (d : ℕ) → pos d -ℤ pos 0 ≡ pos d
unfolding ◌-ℤ◌
later d = ground arith

check_rate_limit-average_example :
    let new = average 20 6000 5000 (1500000000 / 10 ^ 6) in
    (check_rate_limit (pos 0) (pos 1500000000) message_class (pos 5000) false
      ≡ some (status_of message_class (pos new) false, pos new))
    × (new ≤ 6000)
check_rate_limit-average_example =
    check_rate_limit-average message_class 20 6000 5000 message_class-Moderate (pos 0)
      (pos 1500000000) 1500000000 false (later 1500000000) (omega arith)

check_rate_limit_mono_example :
    (s s' : RateLimitStatus) × ((a a' : ℕ) × (check_rate_limit
          (pos 0)
          (pos 1000000)
          message_class
          (pos 5000)
          false
        ≡ some (s, pos a))
      × (check_rate_limit (pos 0) (pos 9000000000) message_class (pos 5000) false
          ≡ some (s', pos a'))
      × (rank s ≤ rank s')
      × (a ≤ a'))
check_rate_limit_mono_example =
    check_rate_limit_mono message_class 20 6000 5000 message_class-Moderate (pos 0) (pos 1000000)
      (pos 9000000000) 1000000 9000000000 false (later 1000000) (later 9000000000) (omega arith)
      (omega arith)

-- A month of silence.
check_rate_limit-wraps_example :
    (n : ℕ) × (check_rate_limit (pos 0) (pos 2592000000000000) message_class (pos 5000) false
      ≡ some (disconnect, negsuc n))
check_rate_limit-wraps_example =
    check_rate_limit-wraps message_class 20 6000 5000 message_class-Moderate (pos 0)
      (pos 2592000000000000) 2592000000000000 3000 false refl (later 2592000000000000) (omega arith)
      (omega arith)
