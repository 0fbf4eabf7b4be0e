-- ===== src/State/ChatRoom.antt =====
-- Chat rooms, of state/chat.go. A getter is a field of the record.
pub mod Laws
mod Tests
use go_icq.Prelude.{
  ℕ, ◌+◌, ◌/◌, ◌%◌, Bool, ◌||◌, List, [], ◌∷◌, ◌++◌, codes, ◌==◌, ltb, if◌then◌else◌,
}
use go_icq.Prelude.Int.{ℤ}
use go_icq.Wire.Bytes.{w8, w16, w32}
use go_icq.Wire.Result.{Result, ok, ◌>>=◌}
use go_icq.Wire.GoType.{uint, string}
use go_icq.Wire.Messages.{Tlv}
use go_icq.Wire.TlvList.{new_tlv_be, typed}
use go_icq.State.Text.{between, is_decimal, is_space, decimal}
use go_icq.State.Session.Info.{unix_32}
use go_icq.State.Session.{zero_time}

abbrev pub private_exchange : ℕ
private_exchange = 4

abbrev pub public_exchange : ℕ
public_exchange = 5

pub record ChatRoom : Type 0 where
  pub name : List ℕ
  pub creator : List ℕ
  pub exchange : ℕ
  pub create_time : ℤ

abbrev pub new_chat_room : List ℕ → List ℕ → ℕ → ChatRoom
new_chat_room name creator exchange = record {
  name = name;
  creator = creator;
  exchange = exchange;
  create_time = zero_time;
}

abbrev pub instance_number : ChatRoom → ℕ
instance_number c = 0

abbrev pub detail_level : ChatRoom → ℕ
detail_level c = 2

-- `Cookie`: "%d-%d-%s".
unfoldable pub cookie : ChatRoom → List ℕ
cookie c = decimal c.exchange ++ (b'-' ∷ (decimal (instance_number c) ++ (b'-' ∷ c.name)))

-- `url.QueryEscape`: letters, digits and four signs stay, a space becomes a plus, and other bytes are
-- written in hexadecimal.
abbrev hex_digit : ℕ → ℕ
hex_digit d = if ltb d 10 then 0x30 + d else 0x37 + d

abbrev stays : ℕ → Bool
stays b =
    is_decimal b
    || (between 0x41 0x5A b
        || (between 0x61 0x7A b || (b == 0x2D || (b == 0x5F || (b == 0x2E || b == 0x7E)))))

unfoldable pub query_escape : List ℕ → List ℕ
query_escape [] = []
query_escape (b ∷ bs) =
    let rest = query_escape bs in
    if stays b
    then b ∷ rest
    else if is_space b
    then 0x2B ∷ rest
    else 0x25 ∷ hex_digit (b / 16) ∷ hex_digit (b % 16) ∷ rest

-- `URL`: the scheme and the opaque part.
unfoldable pub url : ChatRoom → List ℕ × List ℕ
url c = (
  codes "aim",
  codes "gochat?roomname=" ++ (query_escape c.name ++ (codes "&exchange=" ++ decimal c.exchange)),
)

unfoldable pub tlv_list : ChatRoom → Result (List Tlv)
tlv_list c = do
  flags ← new_tlv_be 0xC9 (typed (uint w16) 15)
  created ← new_tlv_be 0xCA (typed (uint w32) (unix_32 c.create_time))
  max_len ← new_tlv_be 0xD1 (typed (uint w16) 1024)
  occupancy ← new_tlv_be 0xD2 (typed (uint w16) 100)
  perms ← new_tlv_be 0xD5 (typed (uint w8) 2)
  qualified ← new_tlv_be 0x6A (typed string c.name)
  room_name ← new_tlv_be 0xD3 (typed string c.name)
  visible ← new_tlv_be 0xDA (typed (uint w16) 1024)
  ok (flags ∷ created ∷ max_len ∷ occupancy ∷ perms ∷ qualified ∷ room_name ∷ visible ∷ [])
