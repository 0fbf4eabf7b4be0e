-- ===== src/State/Session/Rates.antt =====
-- The rate limits of a session, of state/session.go. The arrays of five are lists, and an index out of
-- range is a panic.
pub mod Arrays
pub mod Warning
use go_icq.Prelude.{
  ℕ, zero, suc, ◌+◌, ◌%◌, ◌^◌, Bool, true, false, Option, none, some, List, [], ◌∷◌, ◌==◌, ◌&&◌,
  not, length, ltb, get_elem?, if◌then◌else◌,
}
use go_icq.Prelude.Int.{ℤ, pos, negsuc, ◌+ℤ◌, ◌-ℤ◌, ltb_ℤ, pos_part, neg_part}
use go_icq.Prelude.Machine.{int32}
use go_icq.Wire.RateLimit.{
  RateLimitStatus, unset, limited, alert, clear, disconnect, RateClass, RateLimitClasses, index,
  check_rate_limit,
}
use go_icq.State.Float.{scaled}
use go_icq.State.Session.{Session, RateClassState, has_flag, flag_bot}
use go_icq.State.Session.Relay.{close}
use go_icq.State.Session.Rates.Arrays.{change}

-- A call returns, or panics, or blocks for good with the mutex held; the session is what it leaves.
pub data Outcome {ℓ} (A : Type ℓ) : Type ℓ where
  returns : A → Session → Outcome A
  panics : Session → Outcome A
  blocks : Session → Outcome A

-- The state that a call leaves, whatever becomes of it.
abbrev pub left {ℓ} : {A : Type ℓ} → Outcome A → Session
left (returns a s) = s
left (panics s) = s
left (blocks s) = s

-- What follows an array's index, which panics where it is out of range.
abbrev pub or_panic {ℓ κ} :
    {A : Type ℓ} {B : Type κ} → Session → Option B → (B → Outcome A) → Outcome A
or_panic s none f = panics s
or_panic s (some b) f = f b

abbrev fresh_state : ℤ → RateClass → RateClassState → RateClassState
fresh_state now c last = record {
  class = c;
  current_level = c.max_level;
  last_time = now;
  current_status = clear;
  subscribed = last.subscribed;
  limited_now = false;
}

-- A new state for each class, which keeps the subscription that was observed last.
unfoldable pub fresh_states : ℤ → List RateClass → List RateClassState → List RateClassState
fresh_states now [] lasts = []
fresh_states now (c ∷ cs) [] = []
fresh_states now (c ∷ cs) (last ∷ lasts) = fresh_state now c last ∷ fresh_states now cs lasts

abbrev never_set : List RateClassState → Bool
never_set [] = false
never_set (last ∷ lasts) = last.class.id == 0

unfoldable pub set_rate_classes : Session → ℤ → RateLimitClasses → Session
set_rate_classes s now r =
    let new_states = fresh_states now r.classes s.last_observed_states in
    record s {
      last_observed_states =
          if never_set s.last_observed_states then new_states else s.rate_limit_states;
      rate_limit_states = new_states;
      rate_limit_states_original = new_states;
    }

unfoldable pub clamp : ℤ → ℤ → ℤ → ℤ
clamp value min max = if ltb_ℤ value min then min else if ltb_ℤ max value then max else value

-- One of the three levels, scaled towards 150 below the maximum.
abbrev scale_level : ℤ → ℤ → ℤ → ℤ → ℤ
scale_level incr max original level =
    clamp (int32 (level +ℤ scaled (int32 (int32 (max -ℤ pos 150) -ℤ original)) incr)) original max

unfoldable pub scale_class : ℤ → RateClass → RateClass → RateClass
scale_class incr original c = record c {
  limit_level = scale_level incr original.max_level original.limit_level c.limit_level;
  clear_level = scale_level incr original.max_level original.clear_level c.clear_level;
  alert_level = scale_level incr original.max_level original.alert_level c.alert_level;
}

-- The send waits for ever where the channel, which holds one warning, is full.
unfoldable pub send_warning : Session → Outcome (Bool × ℕ)
send_warning s =
    if ltb (length s.warning_ch) 1
    then returns (true, s.warning) (record s { warning_ch = s.warning ∷ [] })
    else blocks s

abbrev pub scale_state : ℤ → RateClassState → RateClassState → RateClassState
scale_state incr state original = record state {
  class = scale_class incr original.class state.class;
}

-- The rate limit's part of `ScaleWarningAndRateLimit`.
unfoldable pub scale_rate_limit : Session → ℤ → ℕ → Outcome (Bool × ℕ)
unfolding send_warning
scale_rate_limit s incr class_id = or_panic s (index s.rate_limit_states class_id) (λ state.
    or_panic s (index s.rate_limit_states_original class_id) (λ original. send_warning (record s {
      rate_limit_states = change s.rate_limit_states class_id (scale_state incr state original);
    })))

unfoldable pub scale_warning_and_rate_limit : Session → ℤ → ℕ → Outcome (Bool × ℕ)
unfolding scale_rate_limit
scale_warning_and_rate_limit s incr class_id =
    let new_warning = pos s.warning +ℤ incr in
    if ltb_ℤ new_warning (pos 0)
    then scale_rate_limit (record s { warning = 0 }) incr class_id
    else if ltb_ℤ (pos 1000) new_warning
    then returns (false, 0) s
    else scale_rate_limit (record s { warning = pos_part new_warning % 2 ^ 16 }) incr class_id

abbrev pub subscribe : RateClassState → RateClassState
subscribe state = record state { subscribed = true }

unfoldable pub subscribe_rate_limits : Session → List ℕ → Outcome (Unit {0})
subscribe_rate_limits s [] = returns tt s
subscribe_rate_limits s (class_id ∷ class_ids) =
    or_panic s (index s.rate_limit_states class_id) (λ state.
      subscribe_rate_limits
        (record s { rate_limit_states = change s.rate_limit_states class_id (subscribe state) })
        class_ids)

abbrev pub number : RateLimitStatus → ℕ
number unset = 0
number limited = 1
number alert = 2
number clear = 3
number disconnect = 4

abbrev pub same_status : RateLimitStatus → RateLimitStatus → Bool
same_status a b = number a == number b

abbrev pub evaluated : RateClassState → ℤ → RateLimitStatus → ℤ → RateClassState
evaluated state now status level = record state {
  current_level = level;
  current_status = status;
  last_time = now;
  limited_now = same_status status limited;
}

-- The rest of `EvaluateRateLimit` after `CheckRateLimit`.
abbrev pub evaluate_result :
    Session → ℤ → ℕ → RateClassState → RateLimitStatus × ℤ → Outcome RateLimitStatus
evaluate_result s now class_id state (status, level) =
    let s' = record s {
      rate_limit_states = change s.rate_limit_states class_id (evaluated state now status level);
    } in
    returns status (if same_status status disconnect then close s' else s')

-- A message moves the average on, and a flood of them ends the session.
unfoldable pub evaluate_rate_limit : Session → ℤ → ℕ → Outcome RateLimitStatus
evaluate_rate_limit s now class_id =
    if has_flag s.user_info_bitmask flag_bot
    then returns clear s
    else or_panic s (index s.rate_limit_states class_id) (λ state.
      or_panic s
        (check_rate_limit state.last_time now state.class state.current_level state.limited_now)
        (evaluate_result s now class_id state))
