-- ===== src/State/Accounts/Inbox/Tests.antt =====
-- Users and their inboxes at concrete inputs.
use go_icq.Prelude.{
  ℕ, ◌+◌, ◌≡◌, refl, true, false, none, some, inl, List, [], ◌∷◌, map, bytes_eq, codes, arith,
}
use go_icq.Prelude.Int.{pos}
use go_icq.Wire.Bytes.{put_uint, big_endian}
use go_icq.Wire.Tag.{parse_oscar_tag, no_tag}
use go_icq.Wire.Result.{ok}
use go_icq.Wire.GoType.{Value}
use go_icq.Wire.Messages.{tlv}
use go_icq.Wire.Encode.{
  marshal, marshal_be, marshal_elems, marshal_string, check_pointer, struct_order, struct_prefix,
  slice_prefix, marshal_unsigned_int, write_fixed, is_fixed,
}
use go_icq.Wire.Snacs.Icbm.{icbm_channel_msg_to_host}
use go_icq.Wire.Snacs.Codable.{InRange}
use go_icq.State.Text.{
  lower_byte, runes, runes_after, decode_rune, without_spaces, is_ascii, to_lower,
}
use go_icq.State.User.{User}
use go_icq.State.User.Name.{Unicode, new_ident_screen_name}
use go_icq.State.User.Password.{
  stub_user, validate_password, validate_plaintext_pass, validate_aim_password,
  validate_icq_password,
}
use go_icq.State.Sql.{update_where}
use go_icq.State.Accounts.{Database, empty_database, has_user, read_user}
use go_icq.State.Accounts.Users.{user, new_row, insert_user, find_user, set_user_password}
use go_icq.State.Accounts.Inbox.{
  OfflineMessage, is_from_to, count_where, insert_message, save_message, retrieve_from,
  retrieve_messages,
}
use go_icq.State.Accounts.Lookup.{set_user_password-accepts, save_message-offline_msg_count}
use go_icq.State.Accounts.Inbox.Laws.{save_message-retrieve_messages}
use go_icq.State.Accounts.Inbox.Invariant.{
  start, after, inserting, saving, IsConsistent, Reachable-IsConsistent,
}

abbrev latin : Unicode
latin = record { lower = map lower_byte; letters = λ r. false; digits = λ r. false }

abbrev someone : List ℕ → User
someone name = record (new_row (stub_user latin (codes "salt") [])) {
  ident_screen_name = name;
  display_screen_name = name;
  is_icq = false;
}

abbrev ann : List ℕ
ann = codes "ann"

abbrev bob : List ℕ
bob = codes "bob"

abbrev eve : List ℕ
eve = codes "eve"

abbrev three_users : Database
three_users = record { users = someone ann ∷ someone bob ∷ someone eve ∷ []; messages = [] }

abbrev note : Value icbm_channel_msg_to_host
note = (7, (1, (bob, (((2, (65 ∷ [], tt)) ∷ [], tt), tt))))

abbrev from : List ℕ → OfflineMessage
from sender = record { sent = pos 5; sender = sender; recipient = bob; message = note }

note-InRange : InRange icbm_channel_msg_to_host no_tag big_endian note
unfolding parse_oscar_tag marshal marshal_elems marshal_string check_pointer struct_order
    struct_prefix slice_prefix marshal_unsigned_int write_fixed is_fixed put_uint
note-InRange =
    let tlvs : InRange tlv no_tag big_endian (2, (65 ∷ [], tt)) =
      ((omega arith, (((omega arith, tt), omega arith, tt), tt)), tt) in
    (
      (
        omega arith,
        (
          omega arith,
          (
            ((omega arith, (omega arith, (omega arith, tt))), omega arith),
            (((((tlvs, tt), tt, tt), tt), tt), tt),
          ),
        ),
      ),
      tt,
    )

save_message-retrieve_messages_example :
    ((save_message three_users (from ann)).1 ≡ inl (count_where (is_from_to ann bob) [] + 1))
    × (retrieve_messages latin (save_message three_users (from ann)).0 bob ≡ ok (from ann ∷ []))
unfolding count_where has_user retrieve_messages retrieve_from new_ident_screen_name runes
    runes_after decode_rune without_spaces is_ascii to_lower
save_message-retrieve_messages_example =
    save_message-retrieve_messages latin three_users (from ann) [] note-InRange refl (omega arith)
      refl refl refl

-- Ann's message is waiting, and Eve's is counted as the first.
abbrev one_waiting : Database
one_waiting = (save_message three_users (from ann)).0

counted_from_ann : count_where (is_from_to ann bob) one_waiting.messages ≡ 1
unfolding save_message insert_message count_where has_user marshal_be parse_oscar_tag marshal
    marshal_elems marshal_string check_pointer struct_order struct_prefix slice_prefix
    marshal_unsigned_int write_fixed is_fixed put_uint
counted_from_ann = refl

save_message-offline_msg_count_example :
    user latin (save_message one_waiting (from eve)).0 bob
    ≡ some (record (read_user latin (record (someone bob) { offline_msg_count = pos 1 })) {
      offline_msg_count = pos (count_where (is_from_to eve bob) one_waiting.messages + 1);
    })
unfolding save_message insert_message count_where has_user find_user update_where marshal_be
    parse_oscar_tag marshal marshal_elems marshal_string check_pointer struct_order struct_prefix
    slice_prefix marshal_unsigned_int write_fixed is_fixed put_uint
save_message-offline_msg_count_example =
    save_message-offline_msg_count latin one_waiting (from eve) _
      (record (someone bob) { offline_msg_count = pos 1 }) refl (omega arith) refl refl refl

Reachable-IsConsistent_example :
    IsConsistent (save_message (insert_user latin empty_database (someone ann)).0 (from ann)).0
Reachable-IsConsistent_example =
    Reachable-IsConsistent latin _
      (after (after start (inserting (someone ann))) (saving (from ann)))

-- A hash that keeps its text.
abbrev no_hash : List ℕ → List ℕ
no_hash s = s

set_user_password-accepts_example :
    ((set_user_password no_hash three_users bob (codes "secret")).1 ≡ none)
    × ((usr : User) × (user latin (set_user_password no_hash three_users bob (codes "secret")).0 bob
          ≡ some usr)
        × (validate_plaintext_pass no_hash usr (codes "secret") ≡ true))
    × ((other : List ℕ)
        → bytes_eq bob other ≡ false
        → user latin (set_user_password no_hash three_users bob (codes "secret")).0 other
          ≡ user latin three_users other)
unfolding find_user validate_password validate_aim_password validate_icq_password
set_user_password-accepts_example =
    set_user_password-accepts no_hash latin three_users bob (codes "secret") (someone bob) refl refl
