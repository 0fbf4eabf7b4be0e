-- ===== src/Wire/Snacs/Icbm.antt =====
-- The messages of food group Icbm, of wire/snacs.go.
use go_icq.Prelude.{List, [], ◌∷◌}
use go_icq.Wire.Bytes.{w8, w16, w32, w64}
use go_icq.Wire.GoType.{GoType, uint, string, array, struct, end}
use go_icq.Wire.Messages.{bytes, tlv_rest_block, plain, tagged, fields}
use go_icq.Wire.Snacs.Blocks.{tlv_user_info}

abbrev pub icbm_offline_retrieve : GoType
icbm_offline_retrieve = struct "SNAC_0x04_0x0A_ICBMOfflineRetrieve" end

abbrev pub icbm_offline_retrieve_reply : GoType
icbm_offline_retrieve_reply = struct "SNAC_0x04_0x17_ICBMOfflineRetrieveReply" end

abbrev pub icbm_add_parameters : GoType
icbm_add_parameters = struct "SNAC_0x04_0x02_ICBMAddParameters" (
    fields (
      plain (uint w16)
      ∷ plain (uint w32)
      ∷ plain (uint w16)
      ∷ plain (uint w16)
      ∷ plain (uint w16)
      ∷ plain (uint w32)
      ∷ []))

abbrev pub icbm_parameter_reply : GoType
icbm_parameter_reply = struct "SNAC_0x04_0x05_ICBMParameterReply" (
    fields (
      plain (uint w16)
      ∷ plain (uint w32)
      ∷ plain (uint w16)
      ∷ plain (uint w16)
      ∷ plain (uint w16)
      ∷ plain (uint w32)
      ∷ []))

abbrev pub icbm_channel_msg_to_host : GoType
icbm_channel_msg_to_host = struct "SNAC_0x04_0x06_ICBMChannelMsgToHost" (
    fields (
      plain (uint w64)
      ∷ plain (uint w16)
      ∷ tagged "len_prefix=uint8" string
      ∷ plain tlv_rest_block
      ∷ []))

abbrev pub icbm_evil_request : GoType
icbm_evil_request =
    struct "SNAC_0x04_0x08_ICBMEvilRequest"
      (fields (plain (uint w16) ∷ tagged "len_prefix=uint8" string ∷ []))

abbrev pub icbm_evil_reply : GoType
icbm_evil_reply =
    struct "SNAC_0x04_0x09_ICBMEvilReply" (fields (plain (uint w16) ∷ plain (uint w16) ∷ []))

abbrev pub icbm_client_err : GoType
icbm_client_err = struct "SNAC_0x04_0x0B_ICBMClientErr" (
    fields (
      plain (uint w64)
      ∷ plain (uint w16)
      ∷ tagged "len_prefix=uint8" string
      ∷ plain (uint w16)
      ∷ plain bytes
      ∷ []))

abbrev pub icbm_host_ack : GoType
icbm_host_ack =
    struct "SNAC_0x04_0x0C_ICBMHostAck"
      (fields (plain (uint w64) ∷ plain (uint w16) ∷ tagged "len_prefix=uint8" string ∷ []))

abbrev pub icbm_client_event : GoType
icbm_client_event = struct "SNAC_0x04_0x14_ICBMClientEvent" (
    fields (
      plain (uint w64)
      ∷ plain (uint w16)
      ∷ tagged "len_prefix=uint8" string
      ∷ plain (uint w16)
      ∷ []))

abbrev pub icbm_channel_msg_to_client : GoType
icbm_channel_msg_to_client =
    struct "SNAC_0x04_0x07_ICBMChannelMsgToClient" (
      fields
        (plain (uint w64) ∷ plain (uint w16) ∷ plain tlv_user_info ∷ plain tlv_rest_block ∷ []))

abbrev pub icbm_ch1_fragment : GoType
icbm_ch1_fragment =
    struct "ICBMCh1Fragment"
      (fields (plain (uint w8) ∷ plain (uint w8) ∷ tagged "len_prefix=uint16" bytes ∷ []))

abbrev pub icbm_ch2_fragment : GoType
icbm_ch2_fragment = struct "ICBMCh2Fragment" (
    fields (
      plain (uint w16)
      ∷ plain (array 8 (uint w8))
      ∷ plain (array 16 (uint w8))
      ∷ plain tlv_rest_block
      ∷ []))

abbrev pub icbm_room_info : GoType
icbm_room_info =
    struct "ICBMRoomInfo"
      (fields (plain (uint w16) ∷ tagged "len_prefix=uint8" string ∷ plain (uint w16) ∷ []))

abbrev pub icbm_ch1_message : GoType
icbm_ch1_message =
    struct "ICBMCh1Message" (fields (plain (uint w16) ∷ plain (uint w16) ∷ plain bytes ∷ []))

abbrev pub icbm_ch4_message : GoType
icbm_ch4_message = struct "ICBMCh4Message" (
    fields (
      plain (uint w32)
      ∷ plain (uint w8)
      ∷ plain (uint w8)
      ∷ tagged "len_prefix=uint16,nullterm" string
      ∷ []))

abbrev pub icbm_messages : List GoType
icbm_messages =
    icbm_offline_retrieve ∷ icbm_offline_retrieve_reply ∷ icbm_add_parameters ∷ icbm_parameter_reply
    ∷ icbm_channel_msg_to_host ∷ icbm_evil_request ∷ icbm_evil_reply ∷ icbm_client_err
    ∷ icbm_host_ack ∷ icbm_client_event ∷ icbm_channel_msg_to_client ∷ icbm_ch1_fragment
    ∷ icbm_ch2_fragment ∷ icbm_room_info ∷ icbm_ch1_message ∷ icbm_ch4_message ∷ []
