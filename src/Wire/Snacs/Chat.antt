-- ===== src/Wire/Snacs/Chat.antt =====
-- The messages of food group Chat, of wire/snacs.go.
use go_icq.Prelude.{List, [], ◌∷◌}
use go_icq.Wire.Bytes.{w8, w16, w64}
use go_icq.Wire.GoType.{GoType, uint, string, slice, struct}
use go_icq.Wire.Messages.{tlv_block, tlv_rest_block, plain, tagged, fields}
use go_icq.Wire.Snacs.Blocks.{tlv_user_info}

abbrev pub chat_room_info_update : GoType
chat_room_info_update = struct "SNAC_0x0E_0x02_ChatRoomInfoUpdate" (
    fields (
      plain (uint w16)
      ∷ tagged "len_prefix=uint8" string
      ∷ plain (uint w16)
      ∷ plain (uint w8)
      ∷ plain tlv_block
      ∷ []))

abbrev pub chat_channel_msg_to_host : GoType
chat_channel_msg_to_host =
    struct "SNAC_0x0E_0x05_ChatChannelMsgToHost"
      (fields (plain (uint w64) ∷ plain (uint w16) ∷ plain tlv_rest_block ∷ []))

abbrev pub chat_channel_msg_to_client : GoType
chat_channel_msg_to_client =
    struct "SNAC_0x0E_0x06_ChatChannelMsgToClient"
      (fields (plain (uint w64) ∷ plain (uint w16) ∷ plain tlv_rest_block ∷ []))

abbrev pub chat_users_joined : GoType
chat_users_joined =
    struct "SNAC_0x0E_0x03_ChatUsersJoined" (fields (plain (slice tlv_user_info) ∷ []))

abbrev pub chat_users_left : GoType
chat_users_left = struct "SNAC_0x0E_0x04_ChatUsersLeft" (fields (plain (slice tlv_user_info) ∷ []))

abbrev pub chat_messages : List GoType
chat_messages =
    chat_room_info_update ∷ chat_channel_msg_to_host ∷ chat_channel_msg_to_client
    ∷ chat_users_joined ∷ chat_users_left ∷ []
