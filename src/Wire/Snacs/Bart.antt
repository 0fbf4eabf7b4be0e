-- ===== src/Wire/Snacs/Bart.antt =====
-- The messages of food group Bart, of wire/snacs.go.
use go_icq.Prelude.{List, [], ◌∷◌}
use go_icq.Wire.Bytes.{w8, w16}
use go_icq.Wire.GoType.{GoType, uint, string, slice, struct}
use go_icq.Wire.Messages.{bytes, plain, tagged, fields}
use go_icq.Wire.Snacs.Blocks.{bart_id, bart_query_reply_id}

abbrev pub bart_upload_query : GoType
bart_upload_query =
    struct "SNAC_0x10_0x02_BARTUploadQuery"
      (fields (plain (uint w16) ∷ tagged "len_prefix=uint16" bytes ∷ []))

abbrev pub bart_upload_reply : GoType
bart_upload_reply =
    struct "SNAC_0x10_0x03_BARTUploadReply" (fields (plain (uint w8) ∷ plain bart_id ∷ []))

abbrev pub bart_download_query : GoType
bart_download_query =
    struct "SNAC_0x10_0x04_BARTDownloadQuery"
      (fields (tagged "len_prefix=uint8" string ∷ plain (uint w8) ∷ plain bart_id ∷ []))

abbrev pub bart_download_reply : GoType
bart_download_reply = struct "SNAC_0x10_0x05_BARTDownloadReply" (
    fields
      (tagged "len_prefix=uint8" string ∷ plain bart_id ∷ tagged "len_prefix=uint16" bytes ∷ []))

abbrev pub bart_download2_query : GoType
bart_download2_query =
    struct "SNAC_0x10_0x06_BARTDownload2Query"
      (fields (tagged "len_prefix=uint8" string ∷ tagged "count_prefix=uint8" (slice bart_id) ∷ []))

abbrev pub bart_download2_reply : GoType
bart_download2_reply = struct "SNAC_0x10_0x07_BARTDownload2Reply" (
    fields (
      tagged "len_prefix=uint8" string
      ∷ plain bart_query_reply_id
      ∷ tagged "len_prefix=uint16" bytes
      ∷ []))

abbrev pub bart_messages : List GoType
bart_messages =
    bart_upload_query ∷ bart_upload_reply ∷ bart_download_query ∷ bart_download_reply
    ∷ bart_download2_query ∷ bart_download2_reply ∷ []
