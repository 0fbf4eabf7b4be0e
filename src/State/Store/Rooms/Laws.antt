-- ===== src/State/Store/Rooms/Laws.antt =====
-- Which chat rooms are found (state/user_store.go).
use go_icq.Prelude.{
  ◌≡◌, ◌⊎◌, if◌then◌else◌, ℕ, ◌<◌, ◌^◌, refl, sym, ap, ◌∙◌, Bool, true, false, ◌==◌, ==_iff,
  Bool-cases, and_parts, Option, none, some, inl, inr, List, [], ◌∷◌, ◌++◌, map, bytes_eq,
  bytes_eq_sound, bytes_eq_refl, All, arith,
}
use go_icq.Prelude.Int.{ℤ}
use go_icq.State.Text.{lower_byte}
use go_icq.State.Sql.{text_before}
use go_icq.State.Sql.Order.{text_before_irrefl, text_before_trans, text_before_not_trans}
use go_icq.State.User.Name.{Unicode}
use go_icq.State.ChatRoom.{ChatRoom, cookie}
use go_icq.State.ChatRoom.Laws.{cookie-injective}
use go_icq.State.Store.Rooms.{
  RoomRow, conflicts, any_conflict, row_of, create_chat_room, read_room, first_of, first_by_name,
  is_room, or_not_found, chat_room_by_name,
}

-- A row as `CreateChatRoom` makes it.
abbrev pub IsRoomRow : RoomRow → Type 0
IsRoomRow row = (row.key ≡ cookie row.room) × (row.room.exchange < 2 ^ 16)

-- The room that is found once another is added.
abbrev pub with_added : Option RoomRow → RoomRow → RoomRow
with_added none new = new
with_added (some old) new = if text_before new.room.name old.room.name then new else old

with_added-first_of :
    (row new : RoomRow) (rest : Option RoomRow)
    → first_of row (some (with_added rest new)) ≡ with_added (some (first_of row rest)) new
with_added-first_of row new none = refl
with_added-first_of row new (some r) =
    let through = text_before_trans new.room.name r.room.name row.room.name in
    let past = text_before_not_trans new.room.name r.room.name row.room.name in ground arith

first_by_name-append :
    (test : RoomRow → Bool) (rows : List RoomRow) (new : RoomRow)
    → test new ≡ true
    → first_by_name test (rows ++ new ∷ []) ≡ some (with_added (first_by_name test rows) new)
unfolding first_by_name
first_by_name-append test [] new k = rw k refl
first_by_name-append test (row ∷ rows) new k =
    let ih = first_by_name-append test rows new k in
    elim (Bool-cases (test row)) [
      | inl t ↦ rw (t, ih) (ap some (with_added-first_of row new (first_by_name test rows)))
      | inr t ↦ rw t ih
    ]

is_room_self :
    (row : RoomRow) (c : ChatRoom)
    → (row.room.exchange ≡ c.exchange) × (row.room.name ≡ c.name)
    → is_room c.exchange c.name row ≡ true
is_room_self row c (p, q) = rw (p, q) (ground (arith, bytes_eq_refl (map lower_byte c.name)))

-- Rows that conflict are of rooms with the same exchange and name.
conflicts-same :
    (row : RoomRow) (c : ChatRoom)
    → IsRoomRow row
    → c.exchange < 2 ^ 16
    → conflicts row (row_of c) ≡ true
    → (row.room.exchange ≡ c.exchange) × (row.room.name ≡ c.name)
conflicts-same row c (k, b) h t = elim (Bool-cases (bytes_eq row.key (cookie c))) [
  | inl e ↦ cookie-injective row.room c b h (sym k ∙ bytes_eq_sound row.key (cookie c) e)
  | inr e ↦
      let (x, n) =
        and_parts (row.room.exchange == c.exchange) (bytes_eq row.room.name c.name) (rw e at t) in
      ((==_iff row.room.exchange c.exchange).0 x, bytes_eq_sound row.room.name c.name n)
]

-- A room that has the name of another is found, or one with a lesser name.
first_of-name :
    (row : RoomRow) (rest : Option RoomRow) (name : List ℕ)
    → text_before name row.room.name ≡ false
    → text_before name (first_of row rest).room.name ≡ false
first_of-name row none name h = h
first_of-name row (some r) name h =
    let past = text_before_not_trans name row.room.name r.room.name h in
    let both = text_before_trans r.room.name row.room.name r.room.name in
    let itself = text_before_irrefl r.room.name in ground arith

first_of-later :
    (row r : RoomRow) (name : List ℕ)
    → text_before name r.room.name ≡ false
    → text_before name (first_of row (some r)).room.name ≡ false
first_of-later row r name h =
    let past = text_before_not_trans name r.room.name row.room.name h in ground arith

any_conflict-first_by_name :
    (rows : List RoomRow) (c : ChatRoom)
    → All IsRoomRow rows
    → c.exchange < 2 ^ 16
    → any_conflict rows (row_of c) ≡ true
    → (old : RoomRow) × ((first_by_name (is_room c.exchange c.name) rows ≡ some old)
        × (text_before c.name old.room.name ≡ false))
unfolding any_conflict first_by_name
any_conflict-first_by_name [] c h b e = absurd (cc)
any_conflict-first_by_name (row ∷ rows) c (h, hs) b e =
    let rest = first_by_name (is_room c.exchange c.name) rows in
    elim (Bool-cases (conflicts row (row_of c))) [
      | inl t ↦
          let same = conflicts-same row c h b t in
          let itself : text_before c.name row.room.name ≡ false =
            rw (same.1) (text_before_irrefl c.name) in
          rw (is_room_self row c same)
            (first_of row rest, (refl, first_of-name row rest c.name itself))
      | inr t ↦
          let (old, (found, least)) = any_conflict-first_by_name rows c hs b (rw t at e) in
          (elim (Bool-cases (is_room c.exchange c.name row)) [
            | inl m ↦
                rw (m, found) (first_of row (some old), (refl, first_of-later row old c.name least))
            | inr m ↦ rw m (old, (found, least))
          ])
    ]

-- Let each room of the table have the cookie made of its own values, and let exchanges fit into 16 bits.
-- After `CreateChatRoom`, `ChatRoomByName` with the same exchange and name finds, of the new room with the time
-- given and the room that it found before, the one whose name is first byte by byte, and the new one if it
-- found none. If the room is not made, one could be found before, and the rooms stay as they are.
pub create_chat_room-chat_room_by_name :
    (u : Unicode) (now : ℤ) (rows : List RoomRow) (room : ChatRoom)
    → All IsRoomRow rows
    → room.exchange < 2 ^ 16
    → (chat_room_by_name u (create_chat_room now rows room).0 room.exchange room.name ≡ (
      read_room u
          (with_added
            (first_by_name (is_room room.exchange room.name) rows)
            (row_of (record room { create_time = now }))).room,
      none,
    ))
      × (((create_chat_room now rows room).1.1 ≡ none)
          ⊎ (((create_chat_room now rows room).0 ≡ rows)
              × ((chat_room_by_name u rows room.exchange room.name).1 ≡ none)))
unfolding create_chat_room chat_room_by_name
create_chat_room-chat_room_by_name u now rows room h b =
    let made = record room { create_time = now } in
    let test = is_room room.exchange room.name in
    elim (Bool-cases (any_conflict rows (row_of made))) [
      | inl t ↦
          let (old, (found, least)) = any_conflict-first_by_name rows made h b t in
          rw (t, found) (rw least refl, inr (refl, refl))
      | inr t ↦
          let itself : test (row_of made) ≡ true =
            ground (arith, bytes_eq_refl (map lower_byte room.name)) in
          rw t (
            ap (or_not_found u room.exchange) (first_by_name-append test rows (row_of made) itself),
            inl refl,
          )
    ]
