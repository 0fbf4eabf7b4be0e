-- ===== src/State/Session/Observe.antt =====
-- `ObserveRateChanges` of state/session.go: what has changed in a session's rate limits since the last
-- look at them.
use go_icq.Prelude.{
  Bool, true, false, Option, none, some, List, [], ◌∷◌, ◌++◌, ◌==◌, ◌&&◌, if◌then◌else◌,
}
use go_icq.Prelude.Int.{ℤ, pos_part, neg_part}
use go_icq.Wire.RateLimit.{RateLimitStatus, clear, RateClass, check_rate_limit}
use go_icq.State.Session.{Session, RateClassState}
use go_icq.State.Session.Rates.{Outcome, returns, panics, same_status}

abbrev same_number : ℤ → ℤ → Bool
same_number a b = (pos_part a == pos_part b) && (neg_part a == neg_part b)

abbrev pub same_class : RateClass → RateClass → Bool
same_class a b =
    (a.id == b.id)
    && same_number a.window_size b.window_size
    && same_number a.clear_level b.clear_level
    && same_number a.alert_level b.alert_level
    && same_number a.limit_level b.limit_level
    && same_number a.disconnect_level b.disconnect_level
    && same_number a.max_level b.max_level

-- The state after a look, from the status and the level of the check.
abbrev pub seen : RateClassState → RateLimitStatus → ℤ → RateClassState
seen params status level =
    let now_clear = params.limited_now && same_status status clear in
    record params {
      current_status = status;
      limited_now = if now_clear then false else params.limited_now;
      current_level = if now_clear then level else params.current_level;
    }

-- A class's state, the state that is kept for next time, and the two reports.
pub record Look : Type 0 where
  pub state : RateClassState
  pub kept : RateClassState
  pub class_delta : List RateClassState
  pub state_delta : List RateClassState

-- What one round of the loop does with the result of the check.
abbrev pub look_checked :
    RateClassState → RateClassState → Option (RateLimitStatus × ℤ) → Option Look
look_checked params last none = none
look_checked params last (some (status, level)) =
    let state = seen params status level in
    some (record {
      state = state;
      kept = state;
      class_delta = if same_class params.class last.class then [] else state ∷ [];
      state_delta = if same_status last.current_status state.current_status then [] else state ∷ [];
    })

-- A class that is not subscribed is passed over.
abbrev pub look_if :
    Bool → RateClassState → RateClassState → Option (RateLimitStatus × ℤ) → Option Look
look_if true params last result = look_checked params last result
look_if false params last result =
    some (record { state = params; kept = last; class_delta = []; state_delta = [] })

-- One round of the loop; nothing stands for a panic.
unfoldable pub look : ℤ → RateClassState → RateClassState → Option Look
look now params last =
    look_if params.subscribed params last
      (check_rate_limit params.last_time now params.class params.current_level params.limited_now)

-- The whole loop. A panic leaves the classes behind it as they were.
pub record Looks : Type 0 where
  pub states : List RateClassState
  pub kept : List RateClassState
  pub class_delta : List RateClassState
  pub state_delta : List RateClassState
  pub panicked : Bool

abbrev pub stopped : List RateClassState → List RateClassState → Bool → Looks
stopped states lasts panicked = record {
  states = states;
  kept = lasts;
  class_delta = [];
  state_delta = [];
  panicked = panicked;
}

-- A round before the rest of the loop, or the loop as it stops in a panic.
abbrev pub add_look : Option Look → Looks → Looks → Looks
add_look none stop rest = stop
add_look (some this) stop rest = record {
  states = this.state ∷ rest.states;
  kept = this.kept ∷ rest.kept;
  class_delta = this.class_delta ++ rest.class_delta;
  state_delta = this.state_delta ++ rest.state_delta;
  panicked = rest.panicked;
}

unfoldable pub look_all : ℤ → List RateClassState → List RateClassState → Looks
look_all now [] lasts = stopped [] lasts false
look_all now (params ∷ states) [] = stopped (params ∷ states) [] false
look_all now (params ∷ states) (last ∷ lasts) =
    add_look (look now params last) (stopped (params ∷ states) (last ∷ lasts) true)
      (look_all now states lasts)

unfoldable pub observe_rate_changes :
    Session → ℤ → Outcome (List RateClassState × List RateClassState)
observe_rate_changes s now =
    let looks = look_all now s.rate_limit_states s.last_observed_states in
    let s' = record s { rate_limit_states = looks.states; last_observed_states = looks.kept } in
    if looks.panicked then panics s' else returns (looks.class_delta, looks.state_delta) s'
