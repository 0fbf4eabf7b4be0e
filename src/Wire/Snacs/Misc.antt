-- ===== src/Wire/Snacs/Misc.antt =====
-- The messages of the small food groups, of wire/snacs.go.
use go_icq.Prelude.{List, [], ◌∷◌}
use go_icq.Wire.Bytes.{w16}
use go_icq.Wire.GoType.{GoType, uint, struct, end}
use go_icq.Wire.Messages.{bytes, tlv_rest_block, plain, fields}

abbrev pub b_query : GoType
b_query = struct "SNAC_0x15_0x02_BQuery" (fields (plain tlv_rest_block ∷ []))

abbrev pub db_reply : GoType
db_reply = struct "SNAC_0x15_0x02_DBReply" (fields (plain tlv_rest_block ∷ []))

abbrev pub user_lookup_find_by_email : GoType
user_lookup_find_by_email =
    struct "SNAC_0x0A_0x02_UserLookupFindByEmail" (fields (plain bytes ∷ []))

abbrev pub user_lookup_find_reply : GoType
user_lookup_find_reply =
    struct "SNAC_0x0A_0x03_UserLookupFindReply" (fields (plain tlv_rest_block ∷ []))

abbrev pub stats_set_min_report_interval : GoType
stats_set_min_report_interval =
    struct "SNAC_0x0B_0x02_StatsSetMinReportInterval" (fields (plain (uint w16) ∷ []))

abbrev pub stats_report_events : GoType
stats_report_events = struct "SNAC_0x0B_0x03_StatsReportEvents" (fields (plain tlv_rest_block ∷ []))

abbrev pub stats_report_ack : GoType
stats_report_ack = struct "SNAC_0x0B_0x04_StatsReportAck" end

abbrev pub misc_messages : List GoType
misc_messages =
    b_query ∷ db_reply ∷ user_lookup_find_by_email ∷ user_lookup_find_reply
    ∷ stats_set_min_report_interval ∷ stats_report_events ∷ stats_report_ack ∷ []
