-- ===== src/State/Session/Valid.antt =====
-- What is true of every session (state/session.go): its channels stay within their sizes, the stop
-- channel is closed together with the session, and scaling keeps each level of a rate class between
-- the original level and the original maximum.
pub mod Levels
pub mod Operations
pub mod Steps
use go_icq.Prelude.{
  ℕ, zero, suc, ◌+◌, ◌≤◌, ◌≡◌, ◌^◌, ◌-◌, refl, Bool, true, Option, none, some, List, [], ◌∷◌,
  length, get_elem?,
}
use go_icq.Prelude.Int.{ℤ, pos, ◌≤ℤ◌}
use go_icq.Wire.RateLimit.{RateClass, index}
use go_icq.State.Session.{Session, RateClassState}
use go_icq.State.Session.Relay.{queue_size}
use go_icq.State.Session.Rates.Arrays.{change, set_elem}

-- Two lists, element by element.
abbrev pub All2 {ℓ} : {A B : Type ℓ} → (A → B → Type 0) → List A → List B → Type 0
All2 R [] [] = Unit {0}
All2 R [] (y ∷ ys) = ⊥
All2 R (x ∷ xs) [] = ⊥
All2 R (x ∷ xs) (y ∷ ys) = R x y × All2 R xs ys

abbrev pub Between : ℤ → ℤ → ℤ → Type 0
Between low high n = (low ≤ℤ n) × (n ≤ℤ high)

-- Levels that are at most the maximum.
pub record Sensible (c : RateClass) : Type 0 where
  pub limit_max : c.limit_level ≤ℤ c.max_level
  pub clear_max : c.clear_level ≤ℤ c.max_level
  pub alert_max : c.alert_level ≤ℤ c.max_level

-- A class that is scaled from an original one.
pub record ScaledFrom (original c : RateClass) : Type 0 where
  pub same_id : c.id ≡ original.id
  pub same_window : c.window_size ≡ original.window_size
  pub same_disconnect : c.disconnect_level ≡ original.disconnect_level
  pub same_max : c.max_level ≡ original.max_level
  pub limit_between : Between original.limit_level original.max_level c.limit_level
  pub clear_between : Between original.clear_level original.max_level c.clear_level
  pub alert_between : Between original.alert_level original.max_level c.alert_level

abbrev pub StateOf : RateClassState → RateClassState → Type 0
StateOf state original = Sensible original.class × ScaledFrom original.class state.class

-- A valid session, which is closed if it was so before.
pub record IsValid (was_closed : Bool) (s : Session) : Type 0 where
  pub stays_closed : was_closed ≡ true → s.closed ≡ true
  pub stops : s.stop_ch ≡ s.closed
  pub queue_fits : length s.msg_ch ≤ queue_size
  pub warnings_fit : length s.warning_ch ≤ 1
  pub warning_max : s.warning ≤ 1000
  pub levels : All2 StateOf s.rate_limit_states s.rate_limit_states_original
