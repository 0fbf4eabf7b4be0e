-- ===== src/State/Session/Valid/Operations.antt =====
-- Each operation on a session (state/session.go) keeps it valid.
use go_icq.Prelude.{
  ℕ, ◌%◌, ◌^◌, ◌≤◌, ◌≡◌, refl, sym, ◌∙◌, Bool, false, Option, none, some, List, [], ◌∷◌, length,
  ltb, ltb→lt, length-append, if_both, All, arith,
}
use mathlib.Core.Path.{subst}
use go_icq.Prelude.Int.{ℤ, pos, ◌+ℤ◌, ltb_ℤ, pos_part}
use go_icq.Wire.RateLimit.{RateLimitClasses, RateLimitStatus, disconnect, check_rate_limit, index}
use go_icq.State.Session.{Session, SnacMessage, RateClassState, SessSendStatus, has_flag, flag_bot}
use go_icq.State.Session.Relay.{
  close, relay_message, receive_message, receive_warning, take_first, queue_size,
}
use go_icq.State.Session.Rates.{
  Outcome, left, or_panic, set_rate_classes, subscribe_rate_limits, evaluate_rate_limit,
  evaluate_result, scale_warning_and_rate_limit, scale_rate_limit, scale_state, send_warning,
  evaluated, subscribe, same_status,
}
use go_icq.State.Session.Rates.Arrays.{change}
use go_icq.State.Session.Observe.{observe_rate_changes, look_all}
use go_icq.State.Session.Valid.{IsValid, Sensible, StateOf, All2}
use go_icq.State.Session.Valid.Levels.{
  some-injective, index-All2, change-All2, scale_class-ScaledFrom, fresh_states-StateOf,
  look_all-StateOf,
}

or_panic-left {ℓ κ} :
    {A : Type ℓ} {B : Type κ} (P : Session → Type 0) (s : Session) (o : Option B)
    (f : B → Outcome A)
    → P s
    → ((b : B) → o ≡ some b → P (left (f b)))
    → P (left (or_panic s o f))
or_panic-left P s none f p g = p
or_panic-left P s (some b) f p g = g b refl

module _ (was_closed : Bool) where
  with_states :
      (s : Session) (states : List RateClassState)
      → IsValid was_closed s
      → All2 StateOf states s.rate_limit_states_original
      → IsValid was_closed (record s { rate_limit_states = states })
  with_states s states h levels = record {
    stays_closed = h.stays_closed;
    stops = h.stops;
    queue_fits = h.queue_fits;
    warnings_fit = h.warnings_fit;
    warning_max = h.warning_max;
    levels = levels;
  }

  -- The state of a class is replaced by one whose class is scaled from the same original.
  with_state :
      (s : Session) (id : ℕ) (state state' : RateClassState)
      → IsValid was_closed s
      → index s.rate_limit_states id ≡ some state
      → ((original : RateClassState) → StateOf state original → StateOf state' original)
      → IsValid was_closed (record s { rate_limit_states = change s.rate_limit_states id state' })
  with_state s id state state' h e f =
      let (original, there, r) =
        index-All2 StateOf s.rate_limit_states s.rate_limit_states_original id state h.levels e in
      with_states s _ h (
        change-All2 StateOf s.rate_limit_states s.rate_limit_states_original id state' original
          h.levels there (f original r))

  pub close-IsValid : (s : Session) → IsValid was_closed s → IsValid was_closed (close s)
  unfolding close
  close-IsValid s h =
      if_both (IsValid was_closed) s.closed (λ e. h)
        (λ e. record {
          stays_closed = λ e. refl;
          stops = refl;
          queue_fits = h.queue_fits;
          warnings_fit = h.warnings_fit;
          warning_max = h.warning_max;
          levels = h.levels;
        })

  evaluate_result-IsValid :
      (s : Session) (now : ℤ) (id : ℕ) (state : RateClassState) (result : RateLimitStatus × ℤ)
      → IsValid was_closed s
      → index s.rate_limit_states id ≡ some state
      → IsValid was_closed (left (evaluate_result s now id state result))
  evaluate_result-IsValid s now id state (status, level) h there =
      let s' = with_state s id state (evaluated state now status level) h there (λ original r. r) in
      if_both (IsValid was_closed) (same_status status disconnect) (λ e. close-IsValid _ s')
        (λ e. s')

  pub evaluate_rate_limit-IsValid :
      (s : Session) (now : ℤ) (id : ℕ)
      → IsValid was_closed s
      → IsValid was_closed (left (evaluate_rate_limit s now id))
  unfolding evaluate_rate_limit
  evaluate_rate_limit-IsValid s now id h =
      let check = λ (state : RateClassState).
        check_rate_limit state.last_time now state.class state.current_level state.limited_now in
      let limited_part =
        or_panic-left (IsValid was_closed) s (index s.rate_limit_states id)
          (λ state. or_panic s (check state) (evaluate_result s now id state)) h
          (λ state there.
            or_panic-left (IsValid was_closed) s (check state) (evaluate_result s now id state) h
              (λ result got. evaluate_result-IsValid s now id state result h there)) in
      if_both {0, 0} (λ (o : Outcome RateLimitStatus). IsValid was_closed (left o))
        (has_flag s.user_info_bitmask flag_bot) (λ e. h) (λ e. limited_part)

  pub subscribe_rate_limits-IsValid :
      (ids : List ℕ) (s : Session)
      → IsValid was_closed s
      → IsValid was_closed (left (subscribe_rate_limits s ids))
  unfolding subscribe_rate_limits
  subscribe_rate_limits-IsValid [] s h = h
  subscribe_rate_limits-IsValid (id ∷ ids) s h =
      let next = λ (state : RateClassState). record s {
        rate_limit_states = change s.rate_limit_states id (subscribe state);
      } in
      or_panic-left (IsValid was_closed) s (index s.rate_limit_states id)
        (λ state. subscribe_rate_limits (next state) ids) h
        (λ state there.
          subscribe_rate_limits-IsValid ids (next state)
            (with_state s id state (subscribe state) h there (λ original r. r)))

  observed : Session → ℤ → Session
  observed s now =
      let looks = look_all now s.rate_limit_states s.last_observed_states in
      record s { rate_limit_states = looks.states; last_observed_states = looks.kept }

  observed-IsValid :
      (s : Session) (now : ℤ) → IsValid was_closed s → IsValid was_closed (observed s now)
  unfolding observed
  observed-IsValid s now h = record {
    stays_closed = h.stays_closed;
    stops = h.stops;
    queue_fits = h.queue_fits;
    warnings_fit = h.warnings_fit;
    warning_max = h.warning_max;
    levels =
        look_all-StateOf now s.rate_limit_states s.last_observed_states s.rate_limit_states_original
          h.levels;
  }

  pub observe_rate_changes-IsValid :
      (s : Session) (now : ℤ)
      → IsValid was_closed s
      → IsValid was_closed (left (observe_rate_changes s now))
  unfolding observe_rate_changes observed
  observe_rate_changes-IsValid s now h =
      let looks = look_all now s.rate_limit_states s.last_observed_states in
      if_both {0, 0}
        (λ (o : Outcome (List RateClassState × List RateClassState)). IsValid was_closed (left o))
        looks.panicked (λ e. observed-IsValid s now h) (λ e. observed-IsValid s now h)

  pub set_rate_classes-IsValid :
      (s : Session) (now : ℤ) (r : RateLimitClasses)
      → All Sensible r.classes
      → IsValid was_closed s
      → IsValid was_closed (set_rate_classes s now r)
  unfolding set_rate_classes
  set_rate_classes-IsValid s now r sensible h = record {
    stays_closed = h.stays_closed;
    stops = h.stops;
    queue_fits = h.queue_fits;
    warnings_fit = h.warnings_fit;
    warning_max = h.warning_max;
    levels = fresh_states-StateOf now r.classes s.last_observed_states sensible;
  }

  pub relay_message-IsValid :
      (s : Session) (msg : SnacMessage)
      → IsValid was_closed s
      → IsValid was_closed (relay_message s msg).1
  unfolding relay_message
  relay_message-IsValid s msg h =
      let P = λ (r : SessSendStatus × Session). IsValid was_closed r.1 in
      if_both P s.closed (λ e. h)
        (λ e.
          if_both P (ltb (length s.msg_ch) queue_size)
            (λ room. record {
              stays_closed = h.stays_closed;
              stops = h.stops;
              queue_fits = omega (arith, ltb→lt _ _ room, length-append s.msg_ch (msg ∷ []));
              warnings_fit = h.warnings_fit;
              warning_max = h.warning_max;
              levels = h.levels;
            })
            (λ full. if_both P s.stop_ch (λ e'. h) (λ e'. h)))

  with_queue :
      (s : Session) (msgs : List SnacMessage)
      → IsValid was_closed s
      → length msgs ≤ queue_size
      → IsValid was_closed (record s { msg_ch = msgs })
  with_queue s msgs h fits = record {
    stays_closed = h.stays_closed;
    stops = h.stops;
    queue_fits = fits;
    warnings_fit = h.warnings_fit;
    warning_max = h.warning_max;
    levels = h.levels;
  }

  take_first-IsValid :
      (s : Session) (msgs : List SnacMessage)
      → IsValid was_closed s
      → length msgs ≤ queue_size
      → IsValid was_closed (take_first s msgs).1
  take_first-IsValid s [] h fits = h
  take_first-IsValid s (msg ∷ msgs) h fits = with_queue s msgs h (omega (arith, fits))

  pub receive_message-IsValid :
      (s : Session) → IsValid was_closed s → IsValid was_closed (receive_message s).1
  unfolding receive_message
  receive_message-IsValid s h = take_first-IsValid s s.msg_ch h h.queue_fits

  with_warnings :
      (s : Session) (warnings : List ℕ)
      → IsValid was_closed s
      → length warnings ≤ 1
      → IsValid was_closed (record s { warning_ch = warnings })
  with_warnings s warnings h fits = record {
    stays_closed = h.stays_closed;
    stops = h.stops;
    queue_fits = h.queue_fits;
    warnings_fit = fits;
    warning_max = h.warning_max;
    levels = h.levels;
  }

  pub receive_warning-IsValid :
      (s : Session) → IsValid was_closed s → IsValid was_closed (receive_warning s).1
  unfolding receive_warning
  receive_warning-IsValid s h = with_warnings s [] h (omega arith)

  pub with_warning :
      (s : Session) (warning : ℕ)
      → IsValid was_closed s
      → warning ≤ 1000
      → IsValid was_closed (record s { warning = warning })
  with_warning s warning h low = record {
    stays_closed = h.stays_closed;
    stops = h.stops;
    queue_fits = h.queue_fits;
    warnings_fit = h.warnings_fit;
    warning_max = low;
    levels = h.levels;
  }

  send_warning-IsValid :
      (s : Session) → IsValid was_closed s → IsValid was_closed (left (send_warning s))
  unfolding send_warning
  send_warning-IsValid s h =
      if_both {0, 0} (λ (o : Outcome (Bool × ℕ)). IsValid was_closed (left o))
        (ltb (length s.warning_ch) 1) (λ e. with_warnings s (s.warning ∷ []) h (omega arith))
        (λ e. h)

  -- A class that is scaled from its original.
  scaled_from :
      (s : Session) (id : ℕ) (incr : ℤ) (state original : RateClassState)
      → IsValid was_closed s
      → index s.rate_limit_states id ≡ some state
      → index s.rate_limit_states_original id ≡ some original
      → IsValid was_closed (record s {
        rate_limit_states = change s.rate_limit_states id (scale_state incr state original);
      })
  scaled_from s id incr state original h there there' =
      let states = s.rate_limit_states in
      let originals = s.rate_limit_states_original in
      let (partner, at_id, r) = index-All2 StateOf states originals id state h.levels there in
      let (sensible, scaled) =
        subst (λ o. StateOf state o) (some-injective (sym at_id ∙ there')) r in
      with_states s _ h (
        change-All2 StateOf states originals id (scale_state incr state original) original h.levels
          there' (sensible, scale_class-ScaledFrom incr original.class state.class sensible scaled))

  scale_rate_limit-IsValid :
      (s : Session) (incr : ℤ) (id : ℕ)
      → IsValid was_closed s
      → IsValid was_closed (left (scale_rate_limit s incr id))
  unfolding scale_rate_limit
  scale_rate_limit-IsValid s incr id h =
      let next = λ (state original : RateClassState). record s {
        rate_limit_states = change s.rate_limit_states id (scale_state incr state original);
      } in
      or_panic-left (IsValid was_closed) s (index s.rate_limit_states id)
        (λ state.
          or_panic s (index s.rate_limit_states_original id)
            (λ original. send_warning (next state original)))
        h
        (λ state there.
          or_panic-left (IsValid was_closed) s (index s.rate_limit_states_original id)
            (λ original. send_warning (next state original)) h
            (λ original there'.
              send_warning-IsValid (next state original)
                (scaled_from s id incr state original h there there')))

  warning_low : (n : ℤ) → ltb_ℤ (pos 1000) n ≡ false → pos_part n % 2 ^ 16 ≤ 1000
  warning_low n e = ground arith

  pub scale_warning_and_rate_limit-IsValid :
      (s : Session) (incr : ℤ) (id : ℕ)
      → IsValid was_closed s
      → IsValid was_closed (left (scale_warning_and_rate_limit s incr id))
  unfolding scale_warning_and_rate_limit
  scale_warning_and_rate_limit-IsValid s incr id h =
      let P = λ (o : Outcome (Bool × ℕ)). IsValid was_closed (left o) in
      let new = pos s.warning +ℤ incr in
      if_both {0, 0} P (ltb_ℤ new (pos 0))
        (λ e. scale_rate_limit-IsValid _ incr id (with_warning s 0 h (omega arith)))
        (λ e.
          if_both {0, 0} P (ltb_ℤ (pos 1000) new) (λ high. h)
            (λ low.
              scale_rate_limit-IsValid _ incr id
                (with_warning s (pos_part new % 2 ^ 16) h (warning_low new low))))
