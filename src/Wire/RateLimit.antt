-- ===== src/Wire/RateLimit.antt =====
-- wire/rate_limit.go: the rate classes, the class of each SNAC, and the moving average with the
-- status that it gives. An `int32` is an integer with its wrap-around, and a time is its distance in
-- nanoseconds from a fixed instant.
pub mod Classes
pub mod Table
pub mod Average
pub mod Time
mod Tests
use go_icq.Prelude.{
  ℕ, zero, suc, ◌-◌, ◌^◌, Option, none, some, Bool, true, false, List, [], ◌∷◌, ◌==◌, ◌&&◌, not,
  get_elem?, if◌then◌else◌,
}
use go_icq.Prelude.Int.{ℤ, pos, negsuc, ◌+ℤ◌, ◌-ℤ◌, ◌*ℤ◌, ltb_ℤ}
use go_icq.Prelude.Machine.{int32, quot}

-- `RateLimitStatus`: limited is 1, alert 2, clear 3 and disconnect 4, and `unset` is its zero value.
pub data RateLimitStatus : Type 0 where
  unset limited alert clear disconnect : RateLimitStatus

pub record RateClass : Type 0 where
  pub id : ℕ
  pub window_size : ℤ
  pub clear_level : ℤ
  pub alert_level : ℤ
  pub limit_level : ℤ
  pub disconnect_level : ℤ
  pub max_level : ℤ

-- The five classes, in the order of their identifiers.
pub record RateLimitClasses : Type 0 where
  pub classes : List RateClass

abbrev rate_class : ℕ → ℕ → ℕ → ℕ → ℕ → ℕ → ℕ → RateClass
rate_class id window to_clear to_alert to_limit to_disconnect max = record {
  id = id;
  window_size = pos window;
  clear_level = pos to_clear;
  alert_level = pos to_alert;
  limit_level = pos to_limit;
  disconnect_level = pos to_disconnect;
  max_level = pos max;
}

-- `DefaultRateLimitClasses`.
unfoldable pub default_rate_limit_classes : RateLimitClasses
default_rate_limit_classes = record {
  classes =
      rate_class 1 80 2500 2000 1500 800 6000
      ∷ rate_class 2 80 3000 2000 1500 1000 6000
      ∷ rate_class 3 20 5100 5000 4000 3000 6000
      ∷ rate_class 4 20 5500 5300 4200 3000 8000
      ∷ rate_class 5 10 5500 5300 4200 3000 8000
      ∷ [];
}

-- `classes[ID-1]`, an index of 16 bits: nothing stands for the panic out of range.
unfoldable pub index {ℓ} : {A : Type ℓ} → List A → ℕ → Option A
index xs zero = get_elem? xs (2 ^ 16 - 1)
index xs (suc n) = get_elem? xs n

unfoldable pub get : RateLimitClasses → ℕ → Option RateClass
get r id = index r.classes id

-- A map of maps, as the entries of its literal in their order.
abbrev pub SnacRateLimits : Type 0
SnacRateLimits = List (ℕ × List (ℕ × ℕ))

unfoldable pub lookup {ℓ} : {A : Type ℓ} → List (ℕ × A) → ℕ → Option A
lookup [] key = none
lookup ((k, a) ∷ entries) key = if k == key then some a else lookup entries key

unfoldable pub rate_class_lookup : SnacRateLimits → ℕ → ℕ → Option ℕ
rate_class_lookup rates food_group sub_group = elim (lookup rates food_group) [
  | none ↦ none
  | some group ↦ lookup group sub_group
]

-- time.Time's Sub stops at the ends of a 64-bit Duration.
abbrev pub saturate : ℤ → ℤ
saturate d =
    if ltb_ℤ d (negsuc (2 ^ 63 - 1))
    then negsuc (2 ^ 63 - 1)
    else if ltb_ℤ (pos (2 ^ 63 - 1)) d
    then pos (2 ^ 63 - 1)
    else d

-- The milliseconds between two times, as an `int32`.
unfoldable pub elapsed_ms : ℤ → ℤ → ℤ
elapsed_ms last_time current_time =
    int32 (quot (saturate (current_time -ℤ last_time)) (pos (10 ^ 6)))

-- The moving average, cut at the maximum; the window is not empty here.
unfoldable pub new_average : RateClass → ℤ → ℤ → ℤ
new_average c current_avg elapsed =
    let sum = int32 (int32 (current_avg *ℤ int32 (c.window_size -ℤ pos 1)) +ℤ elapsed) in
    let avg = int32 (quot sum c.window_size) in if ltb_ℤ c.max_level avg then c.max_level else avg

-- The switch of `CheckRateLimit`.
unfoldable pub status_of : RateClass → ℤ → Bool → RateLimitStatus
status_of c avg limited_now =
    if ltb_ℤ avg c.disconnect_level
    then disconnect
    else if limited_now && not (ltb_ℤ avg c.clear_level)
    then clear
    else if limited_now
    then limited
    else if ltb_ℤ avg c.limit_level
    then limited
    else if ltb_ℤ avg c.alert_level
    then alert
    else clear

-- Nothing stands for the panic of a division by an empty window.
unfoldable pub check_rate_limit : ℤ → ℤ → RateClass → ℤ → Bool → Option (RateLimitStatus × ℤ)
check_rate_limit last_time current_time c current_avg limited_now = elim c.window_size [
  | pos zero ↦ none
  | _ ↦
      let avg = new_average c current_avg (elapsed_ms last_time current_time) in
      some (status_of c avg limited_now, avg)
]
