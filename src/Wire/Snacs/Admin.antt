-- ===== src/Wire/Snacs/Admin.antt =====
-- The messages of food group Admin, of wire/snacs.go.
use go_icq.Prelude.{List, [], ◌∷◌}
use go_icq.Wire.Bytes.{w16}
use go_icq.Wire.GoType.{GoType, uint, struct, end}
use go_icq.Wire.Messages.{tlv, tlv_block, tlv_rest_block, plain, fields}

abbrev pub admin_confirm_request : GoType
admin_confirm_request = struct "SNAC_0x07_0x06_AdminConfirmRequest" end

abbrev pub admin_info_query : GoType
admin_info_query = struct "SNAC_0x07_0x02_AdminInfoQuery" (fields (plain tlv_rest_block ∷ []))

abbrev pub admin_info_change_request : GoType
admin_info_change_request =
    struct "SNAC_0x07_0x04_AdminInfoChangeRequest" (fields (plain tlv_rest_block ∷ []))

abbrev pub admin_info_reply : GoType
admin_info_reply =
    struct "SNAC_0x07_0x03_AdminInfoReply" (fields (plain (uint w16) ∷ plain tlv_block ∷ []))

abbrev pub admin_change_reply : GoType
admin_change_reply =
    struct "SNAC_0x07_0x05_AdminChangeReply" (fields (plain (uint w16) ∷ plain tlv_block ∷ []))

abbrev pub admin_confirm_reply : GoType
admin_confirm_reply =
    struct "SNAC_0x07_0x07_AdminConfirmReply" (fields (plain (uint w16) ∷ plain tlv ∷ []))

abbrev pub admin_messages : List GoType
admin_messages =
    admin_confirm_request ∷ admin_info_query ∷ admin_info_change_request ∷ admin_info_reply
    ∷ admin_change_reply ∷ admin_confirm_reply ∷ []
