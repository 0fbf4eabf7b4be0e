-- ===== src/State/Session/Tests.antt =====
-- Runs of a session (state/session.go), and the theorems on sessions at concrete inputs.
use go_icq.Prelude.{ℕ, ◌≡◌, refl, true, false, none, [], ◌∷◌, arith}
use go_icq.Prelude.Int.{pos, negsuc, ◌-ℤ◌, ◌+ℤ◌}
use go_icq.Prelude.Machine.{int32}
use go_icq.Wire.RateLimit.{index}
use go_icq.State.Float.{scaled, thousandths, round_24, nearest, excess, doublings}
use go_icq.State.Session.{Session, SnacMessage, sess_send_closed, new_session, zero_state}
use go_icq.State.Session.Relay.{close, relay_message, receive_warning}
use go_icq.State.Session.Relay.Laws.{relay_all, receive_all, all_ok, receive_all-relay_all}
use go_icq.State.Session.Rates.Warning.{
  HasClass, warning_after, scale_warning_and_rate_limit-blocks,
}
use go_icq.State.Session.Rates.{left, returns, blocks, scale_warning_and_rate_limit}
use go_icq.State.Session.Valid.{IsValid}
use go_icq.State.Session.Valid.Steps.{
  here, after, relaying, scaling, new_session-run, relay_message-after_close, new_session-closed,
}

-- Ten hundredths of 4350, and of it with a decrease.
scaled_tenth :
    (scaled (pos 4350) (pos 100) ≡ pos 435) × (scaled (pos 4350) (negsuc 99) ≡ negsuc 434)
unfolding scaled thousandths round_24 nearest excess doublings int32 ◌-ℤ◌
scaled_tenth = (refl, refl)

abbrev message : ℕ → SnacMessage
message n = record {
  frame = record { food_group = 4; sub_group = 7; flags = 0; request_id = n };
  body = none;
}

receive_all-relay_all_example :
    (s' : Session) × (relay_all (new_session (pos 0)) (message 1 ∷ message 2 ∷ [])
      ≡ (all_ok (message 1 ∷ message 2 ∷ []), s'))
    × (receive_all 2 s' ≡ (message 1 ∷ message 2 ∷ [], record s' { msg_ch = [] }))
unfolding new_session
receive_all-relay_all_example =
    receive_all-relay_all (new_session (pos 0)) (message 1 ∷ message 2 ∷ []) refl (omega arith)

new_session-run_example :
    IsValid false (left (scale_warning_and_rate_limit (new_session (pos 0)) (pos 30) 3))
new_session-run_example = new_session-run (pos 0) _ (after here (scaling (pos 30) 3))

relay_message-after_close_example :
    ((relay_message (close (new_session (pos 0))) (message 1)).1.closed ≡ true)
    × (relay_message (relay_message (close (new_session (pos 0))) (message 1)).1 (message 2)
        ≡ (sess_send_closed, (relay_message (close (new_session (pos 0))) (message 1)).1))
relay_message-after_close_example =
    relay_message-after_close (close (new_session (pos 0))) _ (message 2)
      (new_session-closed (pos 0)) (after here (relaying (message 1)))

-- Two warnings at a new session, of 3 and of 5 in a hundred.
new_session-HasClass : HasClass (new_session (pos 0)) 3
unfolding new_session index
new_session-HasClass = ((zero_state, refl), (zero_state, refl))

scale_warning_and_rate_limit-blocks_example :
    (s1 : Session) × (scale_warning_and_rate_limit (new_session (pos 0)) (pos 30) 3
      ≡ returns (true, 30) s1)
    × (s1.warning_ch ≡ 30 ∷ [])
    × ((s2 : Session) × (scale_warning_and_rate_limit s1 (pos 50) 3 ≡ blocks s2)
        × (s2.warning ≡ warning_after s1.warning (pos 50))
        × (s2.warning_ch ≡ s1.warning_ch))
    × ((s3 : Session) × (scale_warning_and_rate_limit (receive_warning s1).1 (pos 50) 3
          ≡ returns (true, warning_after s1.warning (pos 50)) s3)
        × (s3.warning_ch ≡ warning_after s1.warning (pos 50) ∷ []))
unfolding new_session ◌+ℤ◌
scale_warning_and_rate_limit-blocks_example =
    scale_warning_and_rate_limit-blocks (new_session (pos 0)) (pos 30) (pos 50) 3 3 refl
      new_session-HasClass new_session-HasClass refl refl
