-- ===== src/State/Accounts/Inbox/Laws.antt =====
-- What the inboxes of state/user_store.go hold.
use go_icq.Prelude.{
  ℕ, ◌+◌, ◌<◌, ◌≡◌, refl, ap, true, false, Bool-cases, leb, inl, inr, List, [], ◌∷◌, ◌++◌, bytes_eq,
  bytes_eq_refl, arith,
}
use go_icq.Wire.Bytes.{big_endian}
use go_icq.Wire.Tag.{no_tag, parse_oscar_tag}
use go_icq.Wire.Result.{bind_ok, Result, ok}
use go_icq.Wire.GoType.{Value}
use go_icq.Wire.Encode.{marshal_be}
use go_icq.Wire.Decode.{unmarshal_be}
use go_icq.Wire.Snacs.Icbm.{icbm_channel_msg_to_host}
use go_icq.Wire.Snacs.Codable.{InRange, codable}
use go_icq.Wire.Snacs.Carried.{codable-round_trip}
use go_icq.State.User.Name.{Unicode, new_ident_screen_name}
use go_icq.State.Accounts.{MessageRow, Database, has_user}
use go_icq.State.Accounts.Inbox.{
  OfflineMessage, offline_inbox_limit, is_from_to, count_where, insert_message, save_message,
  retrieve_from, retrieve_messages,
}

-- Reading goes on past what was there.
retrieve_from-append :
    (u : Unicode) (rows : List MessageRow) (new : MessageRow)
    (message : Value icbm_channel_msg_to_host) (old : List OfflineMessage)
    → (unmarshal_be icbm_channel_msg_to_host new.message).0 ≡ ok message
    → retrieve_from u rows new.recipient ≡ ok old
    → retrieve_from u (rows ++ new ∷ []) new.recipient
      ≡ ok (
          old
          ++ record {
            sent = new.sent;
            sender = new_ident_screen_name u new.sender;
            recipient = new.recipient;
            message = message;
          }
            ∷ [])
unfolding retrieve_from
retrieve_from-append u [] new message old h k =
    let empty : [] ≡ old = cc in rw (← empty, bytes_eq_refl new.recipient, h) refl
retrieve_from-append u (row ∷ rows) new message old h k =
    elim (Bool-cases (bytes_eq row.recipient new.recipient)) [
      | inl e ↦
          let (first, p, q) =
            bind_ok (unmarshal_be icbm_channel_msg_to_host row.message).0 _ old (rw e at k) in
          let (others, r, s) = bind_ok (retrieve_from u rows new.recipient) _ old q in
          let parts : record {
            sent = row.sent;
            sender = new_ident_screen_name u row.sender;
            recipient = new.recipient;
            message = first;
          }
                ∷ others
              ≡ old =
            cc in
          rw (← parts, e, p, retrieve_from-append u rows new message others h r) refl
      | inr e ↦ rw e (retrieve_from-append u rows new message old h (rw e at k))
    ]

-- A message that fits the wire is saved if both users exist and fewer than ten of this sender are
-- waiting. If the sender is named by his screen name in its normal form and the recipient could read
-- what was waiting, he then retrieves the message last, as it was sent, after all that he would have
-- retrieved before.
pub save_message-retrieve_messages :
    (u : Unicode) (db : Database) (m : OfflineMessage) (old : List OfflineMessage)
    → InRange icbm_channel_msg_to_host no_tag big_endian m.message
    → new_ident_screen_name u m.sender ≡ m.sender
    → count_where (is_from_to m.sender m.recipient) db.messages < offline_inbox_limit
    → has_user db.users m.sender ≡ true
    → has_user db.users m.recipient ≡ true
    → retrieve_messages u db m.recipient ≡ ok old
    → ((save_message db m).1 ≡ inl (count_where (is_from_to m.sender m.recipient) db.messages + 1))
      × (retrieve_messages u (save_message db m).0 m.recipient ≡ ok (old ++ m ∷ []))
unfolding save_message insert_message retrieve_messages marshal_be unmarshal_be codable
    parse_oscar_tag
save_message-retrieve_messages u db m old r n c s t k =
    let (bs, p, q, back) =
      codable-round_trip icbm_channel_msg_to_host big_endian m.message refl r in
    let room : leb offline_inbox_limit (count_where (is_from_to m.sender m.recipient) db.messages)
        ≡ false =
      ground arith in
    let read = ap (λ (x : Result (Value icbm_channel_msg_to_host) × List ℕ). x.0) back in
    let new : MessageRow = record {
      sender = m.sender;
      recipient = m.recipient;
      message = bs;
      sent = m.sent;
    } in
    rw (p, room, s, t) (refl, rw n at (retrieve_from-append u db.messages new m.message old read k))
