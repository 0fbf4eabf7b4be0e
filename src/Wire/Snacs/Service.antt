-- ===== src/Wire/Snacs/Service.antt =====
-- The messages of food group Service, of wire/snacs.go.
use go_icq.Prelude.{List, [], ◌∷◌}
use go_icq.Wire.Bytes.{w16, w32}
use go_icq.Wire.GoType.{GoType, uint, string, slice, struct, ptr}
use go_icq.Wire.Messages.{tlv_rest_block, plain, tagged, fields}
use go_icq.Wire.Snacs.Blocks.{bart_id, bart_query_reply_id, rate_params_snac, tlv_user_info}

abbrev pub o_service_rate_params_reply : GoType
o_service_rate_params_reply = struct "SNAC_0x01_0x07_OServiceRateParamsReply" (
    fields (
      tagged "count_prefix=uint16" (slice rate_params_snac)
      ∷ plain (
          slice (
            struct "" (
              fields (
                plain (uint w16)
                ∷ tagged "count_prefix=uint16"
                    (slice (struct "" (fields (plain (uint w16) ∷ plain (uint w16) ∷ []))))
                ∷ []))))
      ∷ []))

abbrev pub o_service_idle_notification : GoType
o_service_idle_notification =
    struct "SNAC_0x01_0x11_OServiceIdleNotification" (fields (plain (uint w32) ∷ []))

abbrev pub o_service_client_online : GoType
o_service_client_online = struct "SNAC_0x01_0x02_OServiceClientOnline" (
    fields (
      plain (
        slice (
          struct "" (
            fields
              (plain (uint w16) ∷ plain (uint w16) ∷ plain (uint w16) ∷ plain (uint w16) ∷ []))))
      ∷ []))

abbrev pub o_service_host_online : GoType
o_service_host_online =
    struct "SNAC_0x01_0x03_OServiceHostOnline" (fields (plain (slice (uint w16)) ∷ []))

abbrev pub o_service_service_request : GoType
o_service_service_request =
    struct "SNAC_0x01_0x04_OServiceServiceRequest"
      (fields (plain (uint w16) ∷ plain tlv_rest_block ∷ []))

abbrev pub tlv_room_info : GoType
tlv_room_info =
    struct "SNAC_0x01_0x04_TLVRoomInfo"
      (fields (plain (uint w16) ∷ tagged "len_prefix=uint8" string ∷ plain (uint w16) ∷ []))

abbrev pub o_service_service_response : GoType
o_service_service_response =
    struct "SNAC_0x01_0x05_OServiceServiceResponse" (fields (plain tlv_rest_block ∷ []))

abbrev pub o_service_rate_params_sub_add : GoType
o_service_rate_params_sub_add =
    struct "SNAC_0x01_0x08_OServiceRateParamsSubAdd" (fields (plain (slice (uint w16)) ∷ []))

abbrev pub o_service_client_versions : GoType
o_service_client_versions =
    struct "SNAC_0x01_0x17_OServiceClientVersions" (fields (plain (slice (uint w16)) ∷ []))

abbrev pub o_service_host_versions : GoType
o_service_host_versions =
    struct "SNAC_0x01_0x18_OServiceHostVersions" (fields (plain (slice (uint w16)) ∷ []))

abbrev pub o_service_set_user_info_fields : GoType
o_service_set_user_info_fields =
    struct "SNAC_0x01_0x1E_OServiceSetUserInfoFields" (fields (plain tlv_rest_block ∷ []))

abbrev pub o_service_bart_reply : GoType
o_service_bart_reply = struct "SNAC_0x01_0x21_OServiceBARTReply" (fields (plain bart_id ∷ []))

abbrev pub o_service_bart2_reply : GoType
o_service_bart2_reply =
    struct "SNAC_0x01_0x23_OServiceBART2Reply" (fields (plain (slice bart_query_reply_id) ∷ []))

abbrev pub o_service_rate_params_change : GoType
o_service_rate_params_change =
    struct "SNAC_0x01_0x0A_OServiceRateParamsChange"
      (fields (plain (uint w16) ∷ plain rate_params_snac ∷ []))

abbrev pub o_service_user_info_update : GoType
o_service_user_info_update =
    struct "SNAC_0x01_0x0F_OServiceUserInfoUpdate" (fields (plain (slice tlv_user_info) ∷ []))

abbrev pub o_service_evil_notification : GoType
o_service_evil_notification = struct "SNAC_0x01_0x10_OServiceEvilNotification" (
    fields (
      plain (uint w16)
      ∷ tagged "optional" (ptr (struct "" (fields (plain tlv_user_info ∷ []))))
      ∷ []))

abbrev pub o_service_set_privacy_flags : GoType
o_service_set_privacy_flags =
    struct "SNAC_0x01_0x14_OServiceSetPrivacyFlags" (fields (plain (uint w32) ∷ []))

abbrev pub service_messages : List GoType
service_messages =
    o_service_rate_params_reply ∷ o_service_idle_notification ∷ o_service_client_online
    ∷ o_service_host_online ∷ o_service_service_request ∷ tlv_room_info ∷ o_service_service_response
    ∷ o_service_rate_params_sub_add ∷ o_service_client_versions ∷ o_service_host_versions
    ∷ o_service_set_user_info_fields ∷ o_service_bart_reply ∷ o_service_bart2_reply
    ∷ o_service_rate_params_change ∷ o_service_user_info_update ∷ o_service_evil_notification
    ∷ o_service_set_privacy_flags ∷ []
