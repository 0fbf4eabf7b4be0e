-- ===== src/State/Store/Rooms.antt =====
-- Chat rooms in the database (state/user_store.go). The table `chatRoom` has the cookie of a room as its
-- key, and no two rows have the same exchange and name.
pub mod Laws
use go_icq.Prelude.{
  ℕ, Bool, true, false, ◌&&◌, ◌||◌, ◌==◌, not, Option, none, some, List, [], ◌∷◌, ◌++◌, map,
  bytes_eq, if◌then◌else◌,
}
use go_icq.Prelude.Int.{ℤ, ltb_ℤ}
use go_icq.State.Text.{lower_byte}
use go_icq.State.User.Name.{Unicode, new_ident_screen_name}
use go_icq.State.Session.{zero_time}
use go_icq.State.ChatRoom.{ChatRoom, cookie}
use go_icq.State.Sql.{delete_where, text_before}

pub data RoomError : Type 0 where
  dup_chat_room chat_room_not_found : RoomError

pub record RoomRow : Type 0 where
  pub key : List ℕ
  pub room : ChatRoom

abbrev pub conflicts : RoomRow → RoomRow → Bool
conflicts r s =
    bytes_eq r.key s.key || (r.room.exchange == s.room.exchange && bytes_eq r.room.name s.room.name)

unfoldable pub any_conflict : List RoomRow → RoomRow → Bool
any_conflict [] new = false
any_conflict (row ∷ rows) new = conflicts row new || any_conflict rows new

abbrev pub row_of : ChatRoom → RoomRow
row_of c = record { key = cookie c; room = c }

-- `CreateChatRoom` sets the time in the room that it is given, also where it fails.
unfoldable pub create_chat_room :
    ℤ → List RoomRow → ChatRoom → List RoomRow × (ChatRoom × Option RoomError)
create_chat_room now rows room =
    let made = record room { create_time = now } in
    if any_conflict rows (row_of made)
    then (rows, (made, some dup_chat_room))
    else (rows ++ row_of made ∷ [], (made, none))

-- A room as it is read.
abbrev pub read_room : Unicode → ChatRoom → ChatRoom
read_room u c = record c { creator = new_ident_screen_name u c.creator }

-- `ORDER BY created ASC`, where rooms of the same time are in the order of their names: the index on the
-- exchange and the name is the one that is read.
abbrev pub created_before : ChatRoom → ChatRoom → Bool
created_before c d =
    ltb_ℤ c.create_time d.create_time
    || (not (ltb_ℤ d.create_time c.create_time) && text_before c.name d.name)

unfoldable pub insert_by_created : ChatRoom → List ChatRoom → List ChatRoom
insert_by_created c [] = c ∷ []
insert_by_created c (d ∷ rooms) =
    let rest = insert_by_created c rooms in if created_before d c then d ∷ rest else c ∷ d ∷ rooms

unfoldable pub all_chat_rooms : Unicode → List RoomRow → ℕ → List ChatRoom
all_chat_rooms u [] exchange = []
all_chat_rooms u (row ∷ rows) exchange =
    let rest = all_chat_rooms u rows exchange in
    if row.room.exchange == exchange then insert_by_created (read_room u row.room) rest else rest

unfoldable pub is_name : List (List ℕ) → List ℕ → Bool
is_name [] name = false
is_name (n ∷ ns) name = bytes_eq n name || is_name ns name

unfoldable pub delete_chat_rooms : List RoomRow → ℕ → List (List ℕ) → List RoomRow
delete_chat_rooms rows exchange [] = rows
delete_chat_rooms rows exchange (n ∷ ns) =
    delete_where
      (λ (row : RoomRow). row.room.exchange == exchange && is_name (n ∷ ns) row.room.name) rows

-- `QueryRowContext`, the first row, of those of the table in the order in which they were made.
unfoldable pub find_room : (RoomRow → Bool) → List RoomRow → Option RoomRow
find_room test [] = none
find_room test (row ∷ rows) = if test row then some row else find_room test rows

-- The same through the index on the exchange and the name, in which a room with a lesser name is first.
abbrev pub first_of : RoomRow → Option RoomRow → RoomRow
first_of row none = row
first_of row (some r) = if text_before r.room.name row.room.name then r else row

unfoldable pub first_by_name : (RoomRow → Bool) → List RoomRow → Option RoomRow
first_by_name test [] = none
first_by_name test (row ∷ rows) =
    let rest = first_by_name test rows in if test row then some (first_of row rest) else rest

-- `lower(column) = lower(?)`, of which SQLite changes ASCII letters only.
abbrev pub like_text : List ℕ → List ℕ → Bool
like_text s t = bytes_eq (map lower_byte s) (map lower_byte t)

-- What is returned where no row is found.
abbrev pub no_room : Unicode → ℕ → ChatRoom
no_room u exchange = record {
  name = [];
  creator = new_ident_screen_name u [];
  exchange = exchange;
  create_time = zero_time;
}

abbrev pub or_not_found : Unicode → ℕ → Option RoomRow → ChatRoom × Option RoomError
or_not_found u exchange none = (no_room u exchange, some chat_room_not_found)
or_not_found u exchange (some row) = (read_room u row.room, none)

unfoldable pub chat_room_by_cookie : Unicode → List RoomRow → List ℕ → ChatRoom × Option RoomError
chat_room_by_cookie u rows key = or_not_found u 0 (find_room (λ row. like_text row.key key) rows)

abbrev pub is_room : ℕ → List ℕ → RoomRow → Bool
is_room exchange name row = row.room.exchange == exchange && like_text row.room.name name

unfoldable pub chat_room_by_name : Unicode → List RoomRow → ℕ → List ℕ → ChatRoom × Option RoomError
chat_room_by_name u rows exchange name =
    or_not_found u exchange (first_by_name (is_room exchange name) rows)
