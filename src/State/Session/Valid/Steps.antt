-- ===== src/State/Session/Valid/Steps.antt =====
-- Runs of a session (state/session.go): the operations as steps, what every run keeps, and the end of
-- a session, which is for good.
use go_icq.Prelude.{ℕ, ◌≤◌, ◌≡◌, refl, Bool, true, false, List, All, arith}
use go_icq.Prelude.Int.{ℤ}
use go_icq.Wire.RateLimit.{RateLimitClasses}
use go_icq.State.Session.{Session, SnacMessage, sess_send_closed, zero_state, new_session}
use go_icq.State.Session.Setters.{set_warning}
use go_icq.State.Session.Relay.{close, relay_message, receive_message, receive_warning}
use go_icq.State.Session.Rates.{
  left, set_rate_classes, subscribe_rate_limits, evaluate_rate_limit, scale_warning_and_rate_limit,
}
use go_icq.State.Session.Observe.{observe_rate_changes}
use go_icq.State.Session.Valid.{IsValid, Sensible, StateOf}
use go_icq.State.Session.Valid.Levels.{unscaled}
use go_icq.State.Session.Valid.Operations.{
  close-IsValid, evaluate_rate_limit-IsValid, subscribe_rate_limits-IsValid,
  observe_rate_changes-IsValid, set_rate_classes-IsValid, relay_message-IsValid,
  receive_message-IsValid, receive_warning-IsValid, with_warning,
  scale_warning_and_rate_limit-IsValid,
}

-- One call of a method, or one message that a consumer takes from a channel. A call that panics or
-- blocks leaves its state behind too.
pub data Step (s : Session) : Session → Type 0 where
  closing : Step s (close s)
  relaying : (msg : SnacMessage) → Step s (relay_message s msg).1
  receiving : Step s (receive_message s).1
  receiving_warning : Step s (receive_warning s).1
  setting_classes :
      (now : ℤ) (r : RateLimitClasses) → All Sensible r.classes → Step s (set_rate_classes s now r)
  subscribing : (ids : List ℕ) → Step s (left (subscribe_rate_limits s ids))
  evaluating : (now : ℤ) (id : ℕ) → Step s (left (evaluate_rate_limit s now id))
  observing : (now : ℤ) → Step s (left (observe_rate_changes s now))
  scaling : (incr : ℤ) (id : ℕ) → Step s (left (scale_warning_and_rate_limit s incr id))
  setting_warning : (warning : ℕ) → warning ≤ 1000 → Step s (set_warning s warning)

pub data Reachable (s : Session) : Session → Type 0 where
  here : Reachable s s
  after : {s' s'' : Session} → Reachable s s' → Step s' s'' → Reachable s s''

Step-IsValid : (b : Bool) {s s' : Session} → Step s s' → IsValid b s → IsValid b s'
Step-IsValid b closing h = close-IsValid b _ h
Step-IsValid b (relaying msg) h = relay_message-IsValid b _ msg h
Step-IsValid b receiving h = receive_message-IsValid b _ h
Step-IsValid b receiving_warning h = receive_warning-IsValid b _ h
Step-IsValid b (setting_classes now r sensible) h = set_rate_classes-IsValid b _ now r sensible h
Step-IsValid b (subscribing ids) h = subscribe_rate_limits-IsValid b ids _ h
Step-IsValid b (evaluating now id) h = evaluate_rate_limit-IsValid b _ now id h
Step-IsValid b (observing now) h = observe_rate_changes-IsValid b _ now h
Step-IsValid b (scaling incr id) h = scale_warning_and_rate_limit-IsValid b _ incr id h
Step-IsValid b (setting_warning warning low) h = with_warning b _ warning h low

Reachable-IsValid : (b : Bool) {s s' : Session} → Reachable s s' → IsValid b s → IsValid b s'
Reachable-IsValid b here h = h
Reachable-IsValid b (after run step) h = Step-IsValid b step (Reachable-IsValid b run h)

new_session-IsValid : (now : ℤ) → IsValid false (new_session now)
unfolding new_session
new_session-IsValid now =
    let sensible : Sensible zero_state.class = record {
      limit_max = omega arith;
      clear_max = omega arith;
      alert_max = omega arith;
    } in
    let zero : StateOf zero_state zero_state = (sensible, unscaled zero_state.class sensible) in
    record {
      stays_closed = λ e. absurd cc;
      stops = refl;
      queue_fits = omega arith;
      warnings_fit = omega arith;
      warning_max = omega arith;
      levels = (zero, (zero, (zero, (zero, (zero, tt)))));
    }

-- Every run of steps from a new session keeps it valid: the stop channel is closed together with the
-- session, the queue holds at most 1000 messages and the warning channel one, the warning is at most
-- 1000, and each limit, clear and alert level is between its original and the original maximum, if
-- the rate classes that are set have no level above their maximum and warnings that are set are at
-- most 1000.
pub new_session-run : (now : ℤ) (s : Session) → Reachable (new_session now) s → IsValid false s
new_session-run now s run = Reachable-IsValid false run (new_session-IsValid now)

pub new_session-closed : (now : ℤ) → IsValid true (close (new_session now))
unfolding new_session close
new_session-closed now =
    let h = new_session-IsValid now in
    record {
      stays_closed = λ e. refl;
      stops = refl;
      queue_fits = h.queue_fits;
      warnings_fit = h.warnings_fit;
      warning_max = h.warning_max;
      levels = h.levels;
    }

relay_message-closed :
    (s : Session) (msg : SnacMessage)
    → s.closed ≡ true
    → relay_message s msg ≡ (sess_send_closed, s)
unfolding relay_message
relay_message-closed s msg h = rw h refl

-- After any run of steps from a session that is valid and closed, every message is refused as sent to
-- a closed session, and nothing is changed.
pub relay_message-after_close :
    (s s' : Session) (msg : SnacMessage)
    → IsValid true s
    → Reachable s s'
    → (s'.closed ≡ true) × (relay_message s' msg ≡ (sess_send_closed, s'))
relay_message-after_close s s' msg h run =
    let ended = (Reachable-IsValid true run h).stays_closed refl in
    (ended, relay_message-closed s' msg ended)
