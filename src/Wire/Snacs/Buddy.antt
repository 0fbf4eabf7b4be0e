-- ===== src/Wire/Snacs/Buddy.antt =====
-- The messages of food group Buddy, of wire/snacs.go.
use go_icq.Prelude.{List, [], ◌∷◌}
use go_icq.Wire.GoType.{GoType, string, slice, struct}
use go_icq.Wire.Messages.{tlv_rest_block, plain, tagged, fields}
use go_icq.Wire.Snacs.Blocks.{tlv_user_info}

abbrev pub buddy_rights_query : GoType
buddy_rights_query = struct "SNAC_0x03_0x02_BuddyRightsQuery" (fields (plain tlv_rest_block ∷ []))

abbrev pub buddy_rights_reply : GoType
buddy_rights_reply = struct "SNAC_0x03_0x03_BuddyRightsReply" (fields (plain tlv_rest_block ∷ []))

abbrev pub buddy_add_buddies : GoType
buddy_add_buddies =
    struct "SNAC_0x03_0x04_BuddyAddBuddies"
      (fields (plain (slice (struct "" (fields (tagged "len_prefix=uint8" string ∷ [])))) ∷ []))

abbrev pub buddy_del_buddies : GoType
buddy_del_buddies =
    struct "SNAC_0x03_0x05_BuddyDelBuddies"
      (fields (plain (slice (struct "" (fields (tagged "len_prefix=uint8" string ∷ [])))) ∷ []))

abbrev pub buddy_add_temp_buddies : GoType
buddy_add_temp_buddies =
    struct "SNAC_0x03_0x0F_BuddyAddTempBuddies"
      (fields (plain (slice (struct "" (fields (tagged "len_prefix=uint8" string ∷ [])))) ∷ []))

abbrev pub buddy_del_temp_buddies : GoType
buddy_del_temp_buddies =
    struct "SNAC_0x03_0x10_BuddyDelTempBuddies"
      (fields (plain (slice (struct "" (fields (tagged "len_prefix=uint8" string ∷ [])))) ∷ []))

abbrev pub buddy_arrived : GoType
buddy_arrived = struct "SNAC_0x03_0x0B_BuddyArrived" (fields (plain tlv_user_info ∷ []))

abbrev pub buddy_departed : GoType
buddy_departed = struct "SNAC_0x03_0x0C_BuddyDeparted" (fields (plain tlv_user_info ∷ []))

abbrev pub buddy_messages : List GoType
buddy_messages =
    buddy_rights_query ∷ buddy_rights_reply ∷ buddy_add_buddies ∷ buddy_del_buddies
    ∷ buddy_add_temp_buddies ∷ buddy_del_temp_buddies ∷ buddy_arrived ∷ buddy_departed ∷ []
