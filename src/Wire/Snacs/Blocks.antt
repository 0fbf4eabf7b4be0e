-- ===== src/Wire/Snacs/Blocks.antt =====
-- Parts that several messages share, of wire/snacs.go.
use go_icq.Prelude.{List, [], ◌∷◌}
use go_icq.Wire.Bytes.{w8, w16, w32}
use go_icq.Wire.GoType.{GoType, uint, string, slice, struct, ptr}
use go_icq.Wire.Messages.{bytes, tlv_block, tlv_l_block, plain, tagged, fields}

abbrev pub tlv_user_info : GoType
tlv_user_info =
    struct "TLVUserInfo"
      (fields (plain tlv_block ∷ tagged "len_prefix=uint8" string ∷ plain (uint w16) ∷ []))

abbrev pub feedbag_item : GoType
feedbag_item = struct "FeedbagItem" (
    fields (
      plain tlv_l_block
      ∷ plain (uint w16)
      ∷ plain (uint w16)
      ∷ plain (uint w16)
      ∷ tagged "len_prefix=uint16" string
      ∷ []))

abbrev pub bart_info : GoType
bart_info = struct "BARTInfo" (fields (plain (uint w8) ∷ tagged "len_prefix=uint8" bytes ∷ []))

abbrev pub bart_id : GoType
bart_id = struct "BARTID" (fields (plain (uint w16) ∷ plain bart_info ∷ []))

abbrev pub bart_ids_w_name : GoType
bart_ids_w_name =
    struct "BartIDsWName"
      (fields (tagged "len_prefix=uint8" (slice bart_id) ∷ tagged "len_prefix=uint8" string ∷ []))

abbrev pub bart_query_reply_id : GoType
bart_query_reply_id =
    struct "BartQueryReplyID" (fields (plain bart_id ∷ plain (uint w8) ∷ plain bart_id ∷ []))

abbrev pub o_dir_keyword_list_item : GoType
o_dir_keyword_list_item =
    struct "ODirKeywordListItem"
      (fields (plain (uint w8) ∷ plain (uint w8) ∷ tagged "len_prefix=uint16" string ∷ []))

abbrev pub rate_params_snac : GoType
rate_params_snac = struct "RateParamsSNAC" (
    fields (
      plain (uint w16)
      ∷ plain (uint w32)
      ∷ plain (uint w32)
      ∷ plain (uint w32)
      ∷ plain (uint w32)
      ∷ plain (uint w32)
      ∷ plain (uint w32)
      ∷ plain (uint w32)
      ∷ tagged "optional" (ptr (struct "" (fields (plain (uint w32) ∷ plain (uint w8) ∷ []))))
      ∷ []))

abbrev pub blocks_messages : List GoType
blocks_messages =
    tlv_user_info ∷ feedbag_item ∷ bart_info ∷ bart_id ∷ bart_ids_w_name ∷ bart_query_reply_id
    ∷ o_dir_keyword_list_item ∷ rate_params_snac ∷ []
