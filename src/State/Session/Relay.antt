-- ===== src/State/Session/Relay.antt =====
-- The message queue of a session and its end, of state/session.go.
pub mod Laws
use go_icq.Prelude.{
  ℕ, ◌+◌, Bool, true, false, Option, none, some, List, [], ◌∷◌, ◌++◌, length, ltb, if◌then◌else◌,
}
use go_icq.State.Session.{
  Session, SnacMessage, SessSendStatus, sess_send_ok, sess_queue_full, sess_send_closed, has_flag,
  status_invisible,
}

abbrev pub queue_size : ℕ
queue_size = 1000

-- Closing a channel that is closed panics; the flag guards it.
unfoldable pub close : Session → Session
close s = if s.closed then s else record s { stop_ch = true; closed = true }

-- Where the queue has room and the stop channel is closed, Go picks either; the flag comes first.
unfoldable pub relay_message : Session → SnacMessage → SessSendStatus × Session
relay_message s msg =
    if s.closed
    then (sess_send_closed, s)
    else if ltb (length s.msg_ch) queue_size
    then (sess_send_ok, record s { msg_ch = s.msg_ch ++ msg ∷ [] })
    else if s.stop_ch
    then (sess_send_closed, s)
    else (sess_queue_full, s)

abbrev pub take_first : Session → List SnacMessage → Option SnacMessage × Session
take_first s [] = (none, s)
take_first s (msg ∷ msgs) = (some msg, record s { msg_ch = msgs })

-- The consumer takes a message from the channel of `ReceiveMessage`; it waits on an empty one.
unfoldable pub receive_message : Session → Option SnacMessage × Session
receive_message s = take_first s s.msg_ch

-- The consumer of `WarningCh` takes the warning that waits there.
unfoldable pub receive_warning : Session → List ℕ × Session
receive_warning s = (s.warning_ch, record s { warning_ch = [] })

unfoldable pub invisible : Session → Bool
unfolding has_flag
invisible s = has_flag s.user_status_bitmask status_invisible
