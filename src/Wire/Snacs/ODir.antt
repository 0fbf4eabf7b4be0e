-- ===== src/Wire/Snacs/ODir.antt =====
-- The messages of food group ODir, of wire/snacs.go.
use go_icq.Prelude.{List, [], ◌∷◌}
use go_icq.Wire.Bytes.{w16}
use go_icq.Wire.GoType.{GoType, uint, slice, struct, end}
use go_icq.Wire.Messages.{tlv_block, tlv_rest_block, plain, tagged, fields}
use go_icq.Wire.Snacs.Blocks.{o_dir_keyword_list_item}

abbrev pub keyword_list_query : GoType
keyword_list_query = struct "SNAC_0x0F_0x04_KeywordListQuery" end

abbrev pub info_query : GoType
info_query = struct "SNAC_0x0F_0x02_InfoQuery" (fields (plain tlv_rest_block ∷ []))

abbrev pub info_reply : GoType
info_reply = struct "SNAC_0x0F_0x03_InfoReply" (
    fields (
      plain (uint w16)
      ∷ plain (uint w16)
      ∷ tagged "count_prefix=uint16"
          (struct "" (fields (tagged "count_prefix=uint16" (slice tlv_block) ∷ [])))
      ∷ []))

abbrev pub keyword_list_reply : GoType
keyword_list_reply =
    struct "SNAC_0x0F_0x04_KeywordListReply" (
      fields (plain (uint w16) ∷ tagged "count_prefix=uint16" (slice o_dir_keyword_list_item) ∷ []))

abbrev pub odir_messages : List GoType
odir_messages = keyword_list_query ∷ info_query ∷ info_reply ∷ keyword_list_reply ∷ []
