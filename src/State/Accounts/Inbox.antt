-- ===== src/State/Accounts/Inbox.antt =====
-- Messages to users who are not there (`SaveMessage`, `RetrieveMessages` and `DeleteMessages` of
-- state/user_store.go).
pub mod Laws
pub mod Invariant
mod Tests
use go_icq.Prelude.{
  ℕ, ◌+◌, Bool, true, false, ◌&&◌, not, Option, none, some, ◌⊎◌, inl, inr, List, [], ◌∷◌, ◌++◌,
  bytes_eq, leb, if◌then◌else◌,
}
use go_icq.Prelude.Int.{ℤ, pos}
use go_icq.Wire.Result.{Result, ok, err, panic, stuck, ◌>>=◌}
use go_icq.Wire.GoType.{Value}
use go_icq.Wire.Encode.{marshal_be}
use go_icq.Wire.Decode.{unmarshal_be}
use go_icq.Wire.Snacs.Icbm.{icbm_channel_msg_to_host}
use go_icq.State.User.Name.{Unicode, new_ident_screen_name}
use go_icq.State.Sql.{delete_where}
use go_icq.State.Accounts.{
  StoreError, no_user, inbox_full, marshalled, MessageRow, Database, has_user, update_user,
}

pub record OfflineMessage : Type 0 where
  pub sent : ℤ
  pub sender : List ℕ
  pub recipient : List ℕ
  pub message : Value icbm_channel_msg_to_host

abbrev pub offline_inbox_limit : ℕ
offline_inbox_limit = 10

-- `SELECT COUNT(1) … WHERE sender = ? AND recipient = ?`.
abbrev pub is_from_to : List ℕ → List ℕ → MessageRow → Bool
is_from_to sender recipient row = bytes_eq row.sender sender && bytes_eq row.recipient recipient

unfoldable pub count_where {ℓ} : {A : Type ℓ} → (A → Bool) → List A → ℕ
count_where test [] = 0
count_where test (row ∷ rows) =
    let rest = count_where test rows in if test row then 1 + rest else rest

-- The transaction, once the message has its bytes: the changes are kept if there is no error.
unfoldable pub insert_message : Database → OfflineMessage → List ℕ → Database × (ℕ ⊎ StoreError)
insert_message db m bs =
    let current = count_where (is_from_to m.sender m.recipient) db.messages in
    if leb offline_inbox_limit current
    then (db, inr inbox_full)
    else if has_user db.users m.sender && has_user db.users m.recipient
    then (
      update_user
          (record db {
            messages =
                db.messages
                ++ record {
                  sender = m.sender;
                  recipient = m.recipient;
                  message = bs;
                  sent = m.sent;
                }
                  ∷ [];
          })
          m.recipient (λ row. record row { offline_msg_count = pos (current + 1) }),
      inl (current + 1),
    )
    else (db, inr no_user)

abbrev with_bytes : Database → OfflineMessage → Result (List ℕ) → Database × (ℕ ⊎ StoreError)
with_bytes db m (ok bs) = insert_message db m bs
with_bytes db m (err e) = (db, inr marshalled)
with_bytes db m panic = (db, inr marshalled)
with_bytes db m stuck = (db, inr marshalled)

-- `MarshalBE` neither panics nor spins on a value of this type.
unfoldable pub save_message : Database → OfflineMessage → Database × (ℕ ⊎ StoreError)
unfolding insert_message
save_message db m = with_bytes db m (marshal_be icbm_channel_msg_to_host m.message)

unfoldable pub retrieve_from : Unicode → List MessageRow → List ℕ → Result (List OfflineMessage)
retrieve_from u [] recipient = ok []
retrieve_from u (row ∷ rows) recipient =
    let rest = retrieve_from u rows recipient in
    if bytes_eq row.recipient recipient
    then (do
      message ← (unmarshal_be icbm_channel_msg_to_host row.message).0
      others ← rest
      ok (
          record {
            sent = row.sent;
            sender = new_ident_screen_name u row.sender;
            recipient = recipient;
            message = message;
          }
          ∷ others))
    else rest

unfoldable pub retrieve_messages : Unicode → Database → List ℕ → Result (List OfflineMessage)
unfolding retrieve_from
retrieve_messages u db recipient = retrieve_from u db.messages recipient

unfoldable pub delete_messages : Database → List ℕ → Database
delete_messages db recipient = record db {
  messages = delete_where (λ (row : MessageRow). bytes_eq row.recipient recipient) db.messages;
}
