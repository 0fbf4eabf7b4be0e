-- ===== src/Wire/Snacs/Icq.antt =====
-- The messages of ICQ, which stand in TLVs of its own, of wire/snacs.go.
use go_icq.Prelude.{List, [], ◌∷◌}
use go_icq.Wire.Bytes.{w8, w16, w32}
use go_icq.Wire.GoType.{GoType, uint, string, slice, struct, ptr, iface}
use go_icq.Wire.Messages.{bytes, icq_email, tlv_rest_block, plain, tagged, fields}

abbrev pub icq_message_reply_envelope : GoType → GoType
icq_message_reply_envelope message =
    struct "ICQMessageReplyEnvelope" (fields (tagged "len_prefix=uint16" (iface message) ∷ []))

abbrev pub icq_message_request_envelope : GoType
icq_message_request_envelope =
    struct "ICQMessageRequestEnvelope" (fields (tagged "len_prefix=uint16" bytes ∷ []))

abbrev pub icq_user_search_record : GoType
icq_user_search_record = struct "ICQUserSearchRecord" (
    fields (
      plain (uint w32)
      ∷ plain (uint w16)
      ∷ tagged "len_prefix=uint16,nullterm" string
      ∷ plain (uint w8)
      ∷ plain (uint w8)
      ∷ plain (uint w16)
      ∷ tagged "len_prefix=uint16,nullterm" string
      ∷ tagged "len_prefix=uint16,nullterm" string
      ∷ tagged "len_prefix=uint16,nullterm" string
      ∷ []))

abbrev pub icq_metadata : GoType
icq_metadata =
    struct "ICQMetadata" (fields (plain (uint w32) ∷ plain (uint w16) ∷ plain (uint w16) ∷ []))

abbrev pub icq_metadata_with_sub_type : GoType
icq_metadata_with_sub_type = struct "ICQMetadataWithSubType" (
    fields (
      plain icq_metadata
      ∷ tagged "optional" (ptr (struct "" (fields (plain (uint w16) ∷ []))))
      ∷ []))

abbrev pub icq_interests : GoType
icq_interests =
    struct "ICQInterests"
      (fields (plain (uint w16) ∷ tagged "len_prefix=uint16,nullterm" string ∷ []))

abbrev pub icqdc_info : GoType
icqdc_info = struct "ICQDCInfo" (
    fields (
      plain (uint w32)
      ∷ plain (uint w32)
      ∷ plain (uint w8)
      ∷ plain (uint w16)
      ∷ plain (uint w32)
      ∷ plain (uint w32)
      ∷ plain (uint w32)
      ∷ plain (uint w32)
      ∷ plain (uint w32)
      ∷ plain (uint w32)
      ∷ plain (uint w16)
      ∷ []))

abbrev pub icq_db_query_offline_msg_reply : GoType
icq_db_query_offline_msg_reply = struct "ICQ_0x0041_DBQueryOfflineMsgReply" (
    fields (
      plain icq_metadata
      ∷ plain (uint w32)
      ∷ plain (uint w16)
      ∷ plain (uint w8)
      ∷ plain (uint w8)
      ∷ plain (uint w8)
      ∷ plain (uint w8)
      ∷ plain (uint w8)
      ∷ plain (uint w8)
      ∷ tagged "len_prefix=uint16,nullterm" string
      ∷ []))

abbrev pub icq_db_query_meta_req_short_info : GoType
icq_db_query_meta_req_short_info =
    struct "ICQ_0x07D0_0x04BA_DBQueryMetaReqShortInfo" (fields (plain (uint w32) ∷ []))

abbrev pub icq_db_query_meta_req_xml_req : GoType
icq_db_query_meta_req_xml_req =
    struct "ICQ_0x07D0_0x0898_DBQueryMetaReqXMLReq"
      (fields (tagged "len_prefix=uint16,nullterm" string ∷ []))

abbrev pub icq_db_query_meta_req_search_by_uin : GoType
icq_db_query_meta_req_search_by_uin =
    struct "ICQ_0x07D0_0x051F_DBQueryMetaReqSearchByUIN" (fields (plain (uint w32) ∷ []))

abbrev pub icq_db_query_meta_req_search_by_uin2 : GoType
icq_db_query_meta_req_search_by_uin2 =
    struct "ICQ_0x07D0_0x0569_DBQueryMetaReqSearchByUIN2" (fields (plain tlv_rest_block ∷ []))

abbrev pub icq_db_query_meta_req_search_by_email : GoType
icq_db_query_meta_req_search_by_email =
    struct "ICQ_0x07D0_0x0529_DBQueryMetaReqSearchByEmail"
      (fields (tagged "len_prefix=uint16,nullterm" string ∷ []))

abbrev pub icq_db_query_meta_req_search_by_email3 : GoType
icq_db_query_meta_req_search_by_email3 =
    struct "ICQ_0x07D0_0x0573_DBQueryMetaReqSearchByEmail3" (fields (plain tlv_rest_block ∷ []))

abbrev pub icq_db_query_meta_req_search_white_pages2 : GoType
icq_db_query_meta_req_search_white_pages2 =
    struct "ICQ_0x07D0_0x055F_DBQueryMetaReqSearchWhitePages2" (fields (plain tlv_rest_block ∷ []))

abbrev pub icq_db_query_meta_req_set_notes : GoType
icq_db_query_meta_req_set_notes =
    struct "ICQ_0x07D0_0x0406_DBQueryMetaReqSetNotes"
      (fields (tagged "len_prefix=uint16,nullterm" string ∷ []))

abbrev pub icq_db_query_offline_msg_reply_last : GoType
icq_db_query_offline_msg_reply_last =
    struct "ICQ_0x0042_DBQueryOfflineMsgReplyLast"
      (fields (plain icq_metadata ∷ plain (uint w8) ∷ []))

abbrev pub icq_db_query_meta_req_set_permissions : GoType
icq_db_query_meta_req_set_permissions =
    struct "ICQ_0x07D0_0x0424_DBQueryMetaReqSetPermissions"
      (fields (plain (uint w8) ∷ plain (uint w8) ∷ plain (uint w8) ∷ plain (uint w8) ∷ []))

abbrev pub icq_db_query_meta_req_search_by_details : GoType
icq_db_query_meta_req_search_by_details = struct "ICQ_0x07D0_0x0515_DBQueryMetaReqSearchByDetails" (
    fields (
      tagged "len_prefix=uint16,nullterm" string
      ∷ tagged "len_prefix=uint16,nullterm" string
      ∷ tagged "len_prefix=uint16,nullterm" string
      ∷ []))

abbrev pub icq_db_query_meta_req_set_emails : GoType
icq_db_query_meta_req_set_emails = struct "ICQ_0x07D0_0x040B_DBQueryMetaReqSetEmails" (
    fields (
      tagged "count_prefix=uint8" (
        slice
          (struct "" (fields (plain (uint w8) ∷ tagged "len_prefix=uint16,nullterm" string ∷ []))))
      ∷ []))

abbrev pub icq_db_query_meta_req_set_interests : GoType
icq_db_query_meta_req_set_interests = struct "ICQ_0x07D0_0x0410_DBQueryMetaReqSetInterests" (
    fields (
      tagged "count_prefix=uint8" (
        slice
          (struct "" (fields (plain (uint w16) ∷ tagged "len_prefix=uint16,nullterm" string ∷ []))))
      ∷ []))

abbrev pub icq_db_query_meta_reply_last_user_found : GoType
icq_db_query_meta_reply_last_user_found = struct "ICQ_0x07DA_0x01AE_DBQueryMetaReplyLastUserFound" (
    fields (
      plain icq_metadata
      ∷ plain (uint w16)
      ∷ plain (uint w8)
      ∷ tagged "len_prefix=uint16" icq_user_search_record
      ∷ tagged "optional" (ptr (struct "" (fields (plain (uint w32) ∷ []))))
      ∷ []))

abbrev pub icq_db_query_meta_req_search_white_pages : GoType
icq_db_query_meta_req_search_white_pages =
    struct "ICQ_0x07D0_0x0533_DBQueryMetaReqSearchWhitePages" (
      fields (
        tagged "len_prefix=uint16,nullterm" string
        ∷ tagged "len_prefix=uint16,nullterm" string
        ∷ tagged "len_prefix=uint16,nullterm" string
        ∷ tagged "len_prefix=uint16,nullterm" string
        ∷ plain (uint w16)
        ∷ plain (uint w16)
        ∷ plain (uint w8)
        ∷ plain (uint w8)
        ∷ tagged "len_prefix=uint16,nullterm" string
        ∷ tagged "len_prefix=uint16,nullterm" string
        ∷ plain (uint w16)
        ∷ tagged "len_prefix=uint16,nullterm" string
        ∷ tagged "len_prefix=uint16,nullterm" string
        ∷ tagged "len_prefix=uint16,nullterm" string
        ∷ plain (uint w16)
        ∷ plain (uint w16)
        ∷ tagged "len_prefix=uint16,nullterm" string
        ∷ plain (uint w16)
        ∷ tagged "len_prefix=uint16,nullterm" string
        ∷ plain (uint w16)
        ∷ tagged "len_prefix=uint16,nullterm" string
        ∷ plain (uint w16)
        ∷ tagged "len_prefix=uint16,nullterm" string
        ∷ plain (uint w8)
        ∷ []))

abbrev pub icq_db_query_meta_req_set_more_info : GoType
icq_db_query_meta_req_set_more_info = struct "ICQ_0x07D0_0x03FD_DBQueryMetaReqSetMoreInfo" (
    fields (
      plain (uint w8)
      ∷ plain (uint w16)
      ∷ tagged "len_prefix=uint16,nullterm" string
      ∷ plain (uint w16)
      ∷ plain (uint w8)
      ∷ plain (uint w8)
      ∷ plain (uint w8)
      ∷ plain (uint w8)
      ∷ plain (uint w8)
      ∷ []))

abbrev pub icq_db_query_meta_req_set_work_info : GoType
icq_db_query_meta_req_set_work_info = struct "ICQ_0x07D0_0x03F3_DBQueryMetaReqSetWorkInfo" (
    fields (
      tagged "len_prefix=uint16,nullterm" string
      ∷ tagged "len_prefix=uint16,nullterm" string
      ∷ tagged "len_prefix=uint16,nullterm" string
      ∷ tagged "len_prefix=uint16,nullterm" string
      ∷ tagged "len_prefix=uint16,nullterm" string
      ∷ tagged "len_prefix=uint16,nullterm" string
      ∷ plain (uint w16)
      ∷ tagged "len_prefix=uint16,nullterm" string
      ∷ tagged "len_prefix=uint16,nullterm" string
      ∷ tagged "len_prefix=uint16,nullterm" string
      ∷ plain (uint w16)
      ∷ tagged "len_prefix=uint16,nullterm" string
      ∷ []))

abbrev pub icq_db_query_meta_req_set_affiliations : GoType
icq_db_query_meta_req_set_affiliations = struct "ICQ_0x07D0_0x041A_DBQueryMetaReqSetAffiliations" (
    fields (
      tagged "count_prefix=uint8" (
        slice
          (struct "" (fields (plain (uint w16) ∷ tagged "len_prefix=uint16,nullterm" string ∷ []))))
      ∷ tagged "count_prefix=uint8" (
          slice (
            struct ""
              (fields (plain (uint w16) ∷ tagged "len_prefix=uint16,nullterm" string ∷ []))))
      ∷ []))

abbrev pub icq_db_query_meta_req_set_basic_info : GoType
icq_db_query_meta_req_set_basic_info = struct "ICQ_0x07D0_0x03EA_DBQueryMetaReqSetBasicInfo" (
    fields (
      tagged "len_prefix=uint16,nullterm" string
      ∷ tagged "len_prefix=uint16,nullterm" string
      ∷ tagged "len_prefix=uint16,nullterm" string
      ∷ tagged "len_prefix=uint16,nullterm" string
      ∷ tagged "len_prefix=uint16,nullterm" string
      ∷ tagged "len_prefix=uint16,nullterm" string
      ∷ tagged "len_prefix=uint16,nullterm" string
      ∷ tagged "len_prefix=uint16,nullterm" string
      ∷ tagged "len_prefix=uint16,nullterm" string
      ∷ tagged "len_prefix=uint16,nullterm" string
      ∷ tagged "len_prefix=uint16,nullterm" string
      ∷ plain (uint w16)
      ∷ plain (uint w8)
      ∷ plain (uint w8)
      ∷ []))

abbrev pub icq_db_query_meta_reply_home_page_cat : GoType
icq_db_query_meta_reply_home_page_cat = struct "ICQ_0x07DA_0x010E_DBQueryMetaReplyHomePageCat" (
    fields (
      plain icq_metadata
      ∷ plain (uint w16)
      ∷ plain (uint w8)
      ∷ plain (uint w8)
      ∷ plain (uint w16)
      ∷ tagged "len_prefix=uint16,nullterm" string
      ∷ plain (uint w8)
      ∷ []))

abbrev pub icq_db_query_meta_reply_xml_data : GoType
icq_db_query_meta_reply_xml_data = struct "ICQ_0x07DA_0x08A2_DBQueryMetaReplyXMLData" (
    fields (
      plain icq_metadata
      ∷ plain (uint w16)
      ∷ plain (uint w8)
      ∷ tagged "len_prefix=uint16,nullterm" string
      ∷ []))

abbrev pub icq_db_query_meta_reply_more_info : GoType
icq_db_query_meta_reply_more_info = struct "ICQ_0x07DA_0x00DC_DBQueryMetaReplyMoreInfo" (
    fields (
      plain icq_metadata
      ∷ plain (uint w16)
      ∷ plain (uint w8)
      ∷ plain icq_db_query_meta_req_set_more_info
      ∷ plain (uint w16)
      ∷ tagged "len_prefix=uint16,nullterm" string
      ∷ tagged "len_prefix=uint16,nullterm" string
      ∷ plain (uint w16)
      ∷ plain (uint w8)
      ∷ []))

abbrev pub icq_db_query_meta_reply_ext_email_info : GoType
icq_db_query_meta_reply_ext_email_info = struct "ICQ_0x07DA_0x00EB_DBQueryMetaReplyExtEmailInfo" (
    fields (
      plain icq_metadata
      ∷ plain (uint w16)
      ∷ plain (uint w8)
      ∷ tagged "count_prefix=uint8" (
          slice (
            struct "" (fields (plain (uint w8) ∷ tagged "len_prefix=uint16,nullterm" string ∷ []))))
      ∷ []))

abbrev pub icq_db_query_meta_reply_work_info : GoType
icq_db_query_meta_reply_work_info = struct "ICQ_0x07DA_0x00D2_DBQueryMetaReplyWorkInfo" (
    fields (
      plain icq_metadata
      ∷ plain (uint w16)
      ∷ plain (uint w8)
      ∷ plain icq_db_query_meta_req_set_work_info
      ∷ []))

abbrev pub icq_db_query_meta_reply_interests : GoType
icq_db_query_meta_reply_interests = struct "ICQ_0x07DA_0x00F0_DBQueryMetaReplyInterests" (
    fields (
      plain icq_metadata
      ∷ plain (uint w16)
      ∷ plain (uint w8)
      ∷ tagged "count_prefix=uint8" (
          slice (
            struct ""
              (fields (plain (uint w16) ∷ tagged "len_prefix=uint16,nullterm" string ∷ []))))
      ∷ []))

abbrev pub icq_db_query_meta_reply_notes : GoType
icq_db_query_meta_reply_notes = struct "ICQ_0x07DA_0x00E6_DBQueryMetaReplyNotes" (
    fields (
      plain icq_metadata
      ∷ plain (uint w16)
      ∷ plain (uint w8)
      ∷ plain icq_db_query_meta_req_set_notes
      ∷ []))

abbrev pub icq_db_query_meta_reply_affiliations : GoType
icq_db_query_meta_reply_affiliations = struct "ICQ_0x07DA_0x00FA_DBQueryMetaReplyAffiliations" (
    fields (
      plain icq_metadata
      ∷ plain (uint w16)
      ∷ plain (uint w8)
      ∷ plain icq_db_query_meta_req_set_affiliations
      ∷ []))

abbrev pub icq_db_query_meta_reply_basic_info : GoType
icq_db_query_meta_reply_basic_info = struct "ICQ_0x07DA_0x00C8_DBQueryMetaReplyBasicInfo" (
    fields (
      plain icq_metadata
      ∷ plain (uint w16)
      ∷ plain (uint w8)
      ∷ tagged "len_prefix=uint16,nullterm" string
      ∷ tagged "len_prefix=uint16,nullterm" string
      ∷ tagged "len_prefix=uint16,nullterm" string
      ∷ tagged "len_prefix=uint16,nullterm" string
      ∷ tagged "len_prefix=uint16,nullterm" string
      ∷ tagged "len_prefix=uint16,nullterm" string
      ∷ tagged "len_prefix=uint16,nullterm" string
      ∷ tagged "len_prefix=uint16,nullterm" string
      ∷ tagged "len_prefix=uint16,nullterm" string
      ∷ tagged "len_prefix=uint16,nullterm" string
      ∷ tagged "len_prefix=uint16,nullterm" string
      ∷ plain (uint w16)
      ∷ plain (uint w8)
      ∷ plain (uint w8)
      ∷ plain (uint w8)
      ∷ plain (uint w8)
      ∷ plain (uint w8)
      ∷ []))

abbrev pub icq_db_query_meta_reply_short_info : GoType
icq_db_query_meta_reply_short_info = struct "ICQ_0x07DA_0x0104_DBQueryMetaReplyShortInfo" (
    fields (
      plain icq_metadata
      ∷ plain (uint w16)
      ∷ plain (uint w8)
      ∷ tagged "len_prefix=uint16,nullterm" string
      ∷ tagged "len_prefix=uint16,nullterm" string
      ∷ tagged "len_prefix=uint16,nullterm" string
      ∷ tagged "len_prefix=uint16,nullterm" string
      ∷ plain (uint w8)
      ∷ plain (uint w8)
      ∷ plain (uint w8)
      ∷ []))

abbrev pub icq_messages : List GoType
icq_messages =
    icq_message_request_envelope ∷ icq_user_search_record ∷ icq_metadata
    ∷ icq_metadata_with_sub_type ∷ icq_interests ∷ icqdc_info ∷ icq_db_query_offline_msg_reply
    ∷ icq_db_query_meta_req_short_info ∷ icq_db_query_meta_req_xml_req
    ∷ icq_db_query_meta_req_search_by_uin ∷ icq_db_query_meta_req_search_by_uin2
    ∷ icq_db_query_meta_req_search_by_email ∷ icq_db_query_meta_req_search_by_email3
    ∷ icq_db_query_meta_req_search_white_pages2 ∷ icq_db_query_meta_req_set_notes
    ∷ icq_db_query_offline_msg_reply_last ∷ icq_db_query_meta_req_set_permissions
    ∷ icq_db_query_meta_req_search_by_details ∷ icq_db_query_meta_req_set_emails
    ∷ icq_db_query_meta_req_set_interests ∷ icq_db_query_meta_reply_last_user_found
    ∷ icq_db_query_meta_req_search_white_pages ∷ icq_db_query_meta_req_set_more_info
    ∷ icq_db_query_meta_req_set_work_info ∷ icq_db_query_meta_req_set_affiliations
    ∷ icq_db_query_meta_req_set_basic_info ∷ icq_db_query_meta_reply_home_page_cat
    ∷ icq_db_query_meta_reply_xml_data ∷ icq_db_query_meta_reply_more_info
    ∷ icq_db_query_meta_reply_ext_email_info ∷ icq_db_query_meta_reply_work_info
    ∷ icq_db_query_meta_reply_interests ∷ icq_db_query_meta_reply_notes
    ∷ icq_db_query_meta_reply_affiliations ∷ icq_db_query_meta_reply_basic_info
    ∷ icq_db_query_meta_reply_short_info ∷ icq_email ∷ []
