-- ===== src/Wire/Snacs/Locate.antt =====
-- The messages of food group Locate, of wire/snacs.go.
use go_icq.Prelude.{List, [], ◌∷◌}
use go_icq.Wire.Bytes.{w16, w32}
use go_icq.Wire.GoType.{GoType, uint, string, struct}
use go_icq.Wire.Messages.{tlv_block, tlv_rest_block, plain, tagged, fields}
use go_icq.Wire.Snacs.Blocks.{tlv_user_info}

abbrev pub locate_rights_reply : GoType
locate_rights_reply = struct "SNAC_0x02_0x03_LocateRightsReply" (fields (plain tlv_rest_block ∷ []))

abbrev pub locate_set_info : GoType
locate_set_info = struct "SNAC_0x02_0x04_LocateSetInfo" (fields (plain tlv_rest_block ∷ []))

abbrev pub locate_set_dir_info : GoType
locate_set_dir_info = struct "SNAC_0x02_0x09_LocateSetDirInfo" (fields (plain tlv_rest_block ∷ []))

abbrev pub locate_set_dir_reply : GoType
locate_set_dir_reply = struct "SNAC_0x02_0x0A_LocateSetDirReply" (fields (plain (uint w16) ∷ []))

abbrev pub locate_get_dir_info : GoType
locate_get_dir_info =
    struct "SNAC_0x02_0x0B_LocateGetDirInfo" (fields (tagged "len_prefix=uint8" string ∷ []))

abbrev pub locate_get_dir_reply : GoType
locate_get_dir_reply =
    struct "SNAC_0x02_0x0C_LocateGetDirReply" (fields (plain (uint w16) ∷ plain tlv_block ∷ []))

abbrev pub locate_set_keyword_info : GoType
locate_set_keyword_info =
    struct "SNAC_0x02_0x0F_LocateSetKeywordInfo" (fields (plain tlv_rest_block ∷ []))

abbrev pub locate_set_keyword_reply : GoType
locate_set_keyword_reply =
    struct "SNAC_0x02_0x10_LocateSetKeywordReply" (fields (plain (uint w16) ∷ []))

abbrev pub locate_user_info_query2 : GoType
locate_user_info_query2 =
    struct "SNAC_0x02_0x15_LocateUserInfoQuery2"
      (fields (plain (uint w32) ∷ tagged "len_prefix=uint8" string ∷ []))

abbrev pub locate_user_info_reply : GoType
locate_user_info_reply =
    struct "SNAC_0x02_0x06_LocateUserInfoReply"
      (fields (plain tlv_user_info ∷ plain tlv_rest_block ∷ []))

abbrev pub locate_user_info_query : GoType
locate_user_info_query =
    struct "SNAC_0x02_0x05_LocateUserInfoQuery"
      (fields (plain (uint w16) ∷ tagged "len_prefix=uint8" string ∷ []))

abbrev pub locate_messages : List GoType
locate_messages =
    locate_rights_reply ∷ locate_set_info ∷ locate_set_dir_info ∷ locate_set_dir_reply
    ∷ locate_get_dir_info ∷ locate_get_dir_reply ∷ locate_set_keyword_info
    ∷ locate_set_keyword_reply ∷ locate_user_info_query2 ∷ locate_user_info_reply
    ∷ locate_user_info_query ∷ []
