-- ===== src/State/Store/Tests.antt =====
-- The tables at concrete inputs.
use go_icq.Prelude.{none, ◌⊎◌, ◌≡◌, refl, ℕ, false, List, [], ◌∷◌, map, bytes_eq, codes, arith}
use go_icq.Wire.Bytes.{put_uint, big_endian}
use go_icq.Wire.Tag.{parse_oscar_tag, no_tag}
use go_icq.Wire.Result.{ok}
use go_icq.Wire.Messages.{tlv}
use go_icq.Wire.Encode.{
  marshal, marshal_elems, marshal_string, check_pointer, struct_order, struct_prefix, slice_prefix,
  marshal_unsigned_int, write_fixed, is_fixed,
}
use go_icq.Wire.Snacs.Codable.{InRange}
use go_icq.State.Text.{
  lower_byte, runes, runes_after, decode_rune, without_spaces, is_ascii, to_lower,
}
use go_icq.State.User.Name.{Unicode, new_ident_screen_name}
use go_icq.State.Sql.{upsert_ordered, delete_where, text_before}
use go_icq.State.Store.{Tables, no_rows}
use go_icq.State.Store.BuddyLists.{FeedbagItem, feedbag_upsert, feedbag_delete, feedbag_of}
use go_icq.Prelude.Int.{pos}
use go_icq.State.Text.{decimal, decimal_from}
use go_icq.State.ChatRoom.{ChatRoom, new_chat_room, cookie}
use go_icq.State.Store.Rooms.{
  RoomRow, row_of, create_chat_room, read_room, first_by_name, is_room, chat_room_by_name,
  any_conflict,
}
use go_icq.State.Store.Rooms.Laws.{with_added, create_chat_room-chat_room_by_name}
use go_icq.State.Store.Items.{InOrder, item_at, last_saved, is_one_of, item_id_of, put_items}
use go_icq.State.Store.Feedbag.{IsSavable, feedbag_upsert-feedbag_of, feedbag_delete-feedbag_of}

abbrev plain : Unicode
plain = record { lower = map lower_byte; letters = λ r. false; digits = λ r. false }

abbrev alice : List ℕ
alice = codes "alice"

-- A buddy in group 1, with one TLV, and two groups, whose second number is zero.
abbrev buddy : FeedbagItem
buddy = ((((0x13C, (7 ∷ [], tt)) ∷ []), tt), (1, (5, (0, (codes "Big Bob", tt)))))

abbrev group : ℕ → FeedbagItem
group n = (([], tt), (n, (0, (1, (codes "group", tt)))))

buddy-IsSavable : IsSavable buddy
unfolding parse_oscar_tag marshal marshal_elems marshal_string check_pointer struct_order
    struct_prefix slice_prefix marshal_unsigned_int write_fixed is_fixed put_uint
buddy-IsSavable =
    let tlvs : InRange tlv no_tag big_endian (0x13C, (7 ∷ [], tt)) =
      ((omega arith, (((omega arith, tt), omega arith, tt), tt)), tt) in
    (((((tlvs, tt), omega arith, tt), tt), tt), 0, refl)

group-IsSavable : (n : ℕ) → IsSavable (group n)
unfolding parse_oscar_tag marshal marshal_elems marshal_string check_pointer struct_order
    struct_prefix slice_prefix marshal_unsigned_int write_fixed is_fixed put_uint
group-IsSavable n = ((((tt, omega arith, tt), tt), tt), 0, refl)

feedbag_upsert-feedbag_of_example :
    ((feedbag_upsert plain no_rows alice (buddy ∷ [])).1 ≡ ok tt)
    × (feedbag_of (feedbag_upsert plain no_rows alice (buddy ∷ [])).0.feedbag alice
        ≡ ok (put_items plain (buddy ∷ []) []))
    × InOrder (put_items plain (buddy ∷ []) [])
    × ((g i : ℕ)
        → item_at (put_items plain (buddy ∷ []) []) g i
          ≡ last_saved plain (buddy ∷ []) g i (item_at [] g i))
    × ((other : List ℕ)
        → bytes_eq alice other ≡ false
        → feedbag_of (feedbag_upsert plain no_rows alice (buddy ∷ [])).0.feedbag other
          ≡ feedbag_of [] other)
unfolding feedbag_of
feedbag_upsert-feedbag_of_example =
    feedbag_upsert-feedbag_of plain no_rows alice (buddy ∷ []) [] (buddy-IsSavable, tt) refl tt

-- The name is kept as a screen name.
put_items-buddy :
    put_items plain (buddy ∷ []) []
    ≡ ((((0x13C, (7 ∷ [], tt)) ∷ []), tt), (1, (5, (0, (codes "bigbob", tt))))) ∷ []
unfolding put_items upsert_ordered new_ident_screen_name runes runes_after decode_rune
    without_spaces is_ascii to_lower
put_items-buddy = refl

-- Two groups, of which one is deleted: none is left.
abbrev groups : List FeedbagItem
groups = group 1 ∷ group 2 ∷ []

abbrev grouped : Tables
grouped = (feedbag_upsert plain no_rows alice groups).0

feedbag_delete-feedbag_of_example :
    feedbag_of (feedbag_delete grouped alice (group 2 ∷ [])).feedbag alice
    ≡ ok (delete_where (λ item. is_one_of (0 ∷ []) (item_id_of item)) (put_items plain groups []))
unfolding feedbag_of
feedbag_delete-feedbag_of_example =
    feedbag_delete-feedbag_of grouped alice (group 2 ∷ []) (put_items plain groups []) (
      (feedbag_upsert-feedbag_of plain no_rows alice groups []
        (group-IsSavable 1, (group-IsSavable 2, tt)) refl tt).1)

groups_gone :
    delete_where (λ item. is_one_of (0 ∷ []) (item_id_of item)) (put_items plain groups []) ≡ []
unfolding delete_where is_one_of put_items upsert_ordered
groups_gone = refl

-- A room whose name differs from another's in the case of a letter is made, and is the one found.
abbrev lobby : ChatRoom
lobby = new_chat_room (codes "lobby") alice 4

abbrev big_lobby : ChatRoom
big_lobby = new_chat_room (codes "Lobby") alice 4

abbrev rooms : List RoomRow
rooms = row_of lobby ∷ []

create_chat_room-chat_room_by_name_example :
    (chat_room_by_name plain (create_chat_room (pos 9) rooms big_lobby).0 4 (codes "Lobby") ≡ (
      read_room plain
          (with_added
            (first_by_name (is_room 4 (codes "Lobby")) rooms)
            (row_of (record big_lobby { create_time = pos 9 }))).room,
      none,
    ))
    × (((create_chat_room (pos 9) rooms big_lobby).1.1 ≡ none)
        ⊎ (((create_chat_room (pos 9) rooms big_lobby).0 ≡ rooms)
            × ((chat_room_by_name plain rooms 4 (codes "Lobby")).1 ≡ none)))
create_chat_room-chat_room_by_name_example =
    create_chat_room-chat_room_by_name plain (pos 9) rooms big_lobby ((refl, omega arith), tt)
      (omega arith)

big_lobby-found :
    (with_added (first_by_name (is_room 4 (codes "Lobby")) rooms) (row_of big_lobby)).room
    ≡ big_lobby
unfolding first_by_name text_before lower_byte
big_lobby-found = refl

big_lobby-made : (create_chat_room (pos 9) rooms big_lobby).1.1 ≡ none
unfolding create_chat_room any_conflict cookie decimal decimal_from
big_lobby-made = refl
