-- ===== src/State/Session/Relay/Laws.antt =====
-- What `RelayMessage` promises: messages arrive in order, and none after the session has ended.
use go_icq.Prelude.{
  ℕ, zero, suc, ◌+◌, ◌≤◌, ◌<◌, ◌≡◌, refl, ap, sym, false, none, some, List, [], ◌∷◌, ◌++◌, length,
  lt→ltb, length-append, arith,
}
use mathlib.Core.List.{append-nil, append_assoc}
use go_icq.State.Session.{Session, SnacMessage, SessSendStatus, sess_send_ok}
use go_icq.State.Session.Relay.{queue_size, relay_message, receive_message}

-- Messages relayed one behind the other, with the results.
pub relay_all : Session → List SnacMessage → List SessSendStatus × Session
unfolding relay_message
relay_all s [] = ([], s)
relay_all s (msg ∷ msgs) =
    let (status, s') = relay_message s msg in
    let (statuses, s'') = relay_all s' msgs in (status ∷ statuses, s'')

-- The consumer takes a number of messages.
pub receive_all : ℕ → Session → List SnacMessage × Session
unfolding receive_message
receive_all zero s = ([], s)
receive_all (suc n) s =
    let (msg, s') = receive_message s in
    let (msgs, s'') = receive_all n s' in
    elim msg [ none ↦ ([], s') | some first ↦ (first ∷ msgs, s'') ]

abbrev pub all_ok : List SnacMessage → List SessSendStatus
all_ok [] = []
all_ok (msg ∷ msgs) = sess_send_ok ∷ all_ok msgs

relay_message-room :
    (s : Session) (msg : SnacMessage)
    → s.closed ≡ false
    → length s.msg_ch < queue_size
    → relay_message s msg ≡ (sess_send_ok, record s { msg_ch = s.msg_ch ++ msg ∷ [] })
unfolding relay_message
relay_message-room s msg h h' = rw (h, lt→ltb (length s.msg_ch) queue_size h') refl

relay_all-queue :
    (s : Session) (msgs : List SnacMessage)
    → s.closed ≡ false
    → length s.msg_ch + length msgs ≤ queue_size
    → relay_all s msgs ≡ (all_ok msgs, record s { msg_ch = s.msg_ch ++ msgs })
unfolding relay_all
relay_all-queue s [] h h' = ap (λ q. ([], record s { msg_ch = q })) (sym (append-nil s.msg_ch))
relay_all-queue s (msg ∷ msgs) h h' =
    let s' = record s { msg_ch = s.msg_ch ++ msg ∷ [] } in
    let rest = relay_all-queue s' msgs h (omega (arith, length-append s.msg_ch (msg ∷ []))) in
    rw (relay_message-room s msg h (omega arith), rest)
      (ap (λ q. (all_ok (msg ∷ msgs), record s { msg_ch = q }))
        (append_assoc s.msg_ch (msg ∷ []) msgs))

receive_message-cons :
    (s : Session) (msg : SnacMessage) (msgs : List SnacMessage)
    → s.msg_ch ≡ msg ∷ msgs
    → receive_message s ≡ (some msg, record s { msg_ch = msgs })
unfolding receive_message
receive_message-cons s msg msgs h = rw h refl

receive_all-queue :
    (s : Session) (msgs rest : List SnacMessage)
    → s.msg_ch ≡ msgs ++ rest
    → receive_all (length msgs) s ≡ (msgs, record s { msg_ch = rest })
unfolding receive_all
receive_all-queue s [] rest h = ap (λ q. ([], record s { msg_ch = q })) h
receive_all-queue s (msg ∷ msgs) rest h =
    rw
      (
        receive_all,
        receive_message-cons s msg (msgs ++ rest) h,
        ap (λ r. r.1) (receive_message-cons s msg (msgs ++ rest) h),
        receive_all-queue (record s { msg_ch = msgs ++ rest }) msgs rest refl,
      )
      refl

-- Messages that fit into the queue of a session that is not closed are all sent, and the consumer
-- receives first those that were waiting and then these, in their order, and leaves an empty queue.
pub receive_all-relay_all :
    (s : Session) (msgs : List SnacMessage)
    → s.closed ≡ false
    → length s.msg_ch + length msgs ≤ queue_size
    → (s' : Session) × (relay_all s msgs ≡ (all_ok msgs, s'))
      × (receive_all (length s.msg_ch + length msgs) s'
          ≡ (s.msg_ch ++ msgs, record s' { msg_ch = [] }))
receive_all-relay_all s msgs h h' =
    let s' = record s { msg_ch = s.msg_ch ++ msgs } in
    let all =
      rw (length-append s.msg_ch msgs) at
        (receive_all-queue s' (s.msg_ch ++ msgs) [] (sym (append-nil (s.msg_ch ++ msgs)))) in
    (s', relay_all-queue s msgs h h', all)
