-- ===== src/Wire/Snacs/Feedbag.antt =====
-- The messages of food group Feedbag, of wire/snacs.go.
use go_icq.Prelude.{List, [], ◌∷◌}
use go_icq.Wire.Bytes.{w8, w16, w32}
use go_icq.Wire.GoType.{GoType, uint, string, slice, struct}
use go_icq.Wire.Messages.{tlv_rest_block, plain, tagged, fields}
use go_icq.Wire.Snacs.Blocks.{feedbag_item}

abbrev pub feedbag_rights_query : GoType
feedbag_rights_query =
    struct "SNAC_0x13_0x02_FeedbagRightsQuery" (fields (plain tlv_rest_block ∷ []))

abbrev pub feedbag_rights_reply : GoType
feedbag_rights_reply =
    struct "SNAC_0x13_0x03_FeedbagRightsReply" (fields (plain tlv_rest_block ∷ []))

abbrev pub feedbag_query_if_modified : GoType
feedbag_query_if_modified =
    struct "SNAC_0x13_0x05_FeedbagQueryIfModified"
      (fields (plain (uint w32) ∷ plain (uint w8) ∷ []))

abbrev pub feedbag_status : GoType
feedbag_status = struct "SNAC_0x13_0x0E_FeedbagStatus" (fields (plain (slice (uint w16)) ∷ []))

abbrev pub feedbag_start_cluster : GoType
feedbag_start_cluster =
    struct "SNAC_0x13_0x11_FeedbagStartCluster" (fields (plain tlv_rest_block ∷ []))

abbrev pub feedbag_request_authorization_to_host : GoType
feedbag_request_authorization_to_host = struct "SNAC_0x13_0x18_FeedbagRequestAuthorizationToHost" (
    fields (
      tagged "len_prefix=uint8" string ∷ tagged "len_prefix=uint16" string ∷ plain (uint w16) ∷ []))

abbrev pub feedbag_respond_authorize_to_host : GoType
feedbag_respond_authorize_to_host = struct "SNAC_0x13_0x1A_FeedbagRespondAuthorizeToHost" (
    fields
      (tagged "len_prefix=uint8" string ∷ plain (uint w8) ∷ tagged "len_prefix=uint16" string ∷ []))

abbrev pub feedbag_respond_authorize_to_client : GoType
feedbag_respond_authorize_to_client = struct "SNAC_0x13_0x1B_FeedbagRespondAuthorizeToClient" (
    fields
      (tagged "len_prefix=uint8" string ∷ plain (uint w8) ∷ tagged "len_prefix=uint16" string ∷ []))

abbrev pub feedbag_reply : GoType
feedbag_reply = struct "SNAC_0x13_0x06_FeedbagReply" (
    fields
      (plain (uint w8) ∷ tagged "count_prefix=uint16" (slice feedbag_item) ∷ plain (uint w32) ∷ []))

abbrev pub feedbag_insert_item : GoType
feedbag_insert_item =
    struct "SNAC_0x13_0x08_FeedbagInsertItem" (fields (plain (slice feedbag_item) ∷ []))

abbrev pub feedbag_update_item : GoType
feedbag_update_item =
    struct "SNAC_0x13_0x09_FeedbagUpdateItem" (fields (plain (slice feedbag_item) ∷ []))

abbrev pub feedbag_delete_item : GoType
feedbag_delete_item =
    struct "SNAC_0x13_0x0A_FeedbagDeleteItem" (fields (plain (slice feedbag_item) ∷ []))

abbrev pub feedbag_messages : List GoType
feedbag_messages =
    feedbag_rights_query ∷ feedbag_rights_reply ∷ feedbag_query_if_modified ∷ feedbag_status
    ∷ feedbag_start_cluster ∷ feedbag_request_authorization_to_host
    ∷ feedbag_respond_authorize_to_host ∷ feedbag_respond_authorize_to_client ∷ feedbag_reply
    ∷ feedbag_insert_item ∷ feedbag_update_item ∷ feedbag_delete_item ∷ []
