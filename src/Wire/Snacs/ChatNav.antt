-- ===== src/Wire/Snacs/ChatNav.antt =====
-- The messages of food group ChatNav, of wire/snacs.go.
use go_icq.Prelude.{List, [], ◌∷◌}
use go_icq.Wire.Bytes.{w8, w16}
use go_icq.Wire.GoType.{GoType, uint, string, struct}
use go_icq.Wire.Messages.{tlv_block, tlv_rest_block, plain, tagged, fields}

abbrev pub chat_nav_request_exchange_info : GoType
chat_nav_request_exchange_info =
    struct "SNAC_0x0D_0x03_ChatNavRequestExchangeInfo" (fields (plain (uint w16) ∷ []))

abbrev pub chat_nav_request_room_info : GoType
chat_nav_request_room_info = struct "SNAC_0x0D_0x04_ChatNavRequestRoomInfo" (
    fields (
      plain (uint w16)
      ∷ tagged "len_prefix=uint8" string
      ∷ plain (uint w16)
      ∷ plain (uint w8)
      ∷ []))

abbrev pub chat_nav_nav_info : GoType
chat_nav_nav_info = struct "SNAC_0x0D_0x09_ChatNavNavInfo" (fields (plain tlv_rest_block ∷ []))

abbrev pub tlv_exchange_info : GoType
tlv_exchange_info =
    struct "SNAC_0x0D_0x09_TLVExchangeInfo" (fields (plain (uint w16) ∷ plain tlv_block ∷ []))

abbrev pub chat_nav_messages : List GoType
chat_nav_messages =
    chat_nav_request_exchange_info ∷ chat_nav_request_room_info ∷ chat_nav_nav_info
    ∷ tlv_exchange_info ∷ []
