-- ===== src/Wire/Snacs/Deny.antt =====
-- The messages of food group Deny, of wire/snacs.go.
use go_icq.Prelude.{List, [], ◌∷◌}
use go_icq.Wire.Bytes.{w32}
use go_icq.Wire.GoType.{GoType, uint, string, slice, struct}
use go_icq.Wire.Messages.{tlv_rest_block, plain, tagged, fields}

abbrev pub permit_deny_rights_reply : GoType
permit_deny_rights_reply =
    struct "SNAC_0x09_0x03_PermitDenyRightsReply" (fields (plain tlv_rest_block ∷ []))

abbrev pub permit_deny_add_perm_list_entries : GoType
permit_deny_add_perm_list_entries =
    struct "SNAC_0x09_0x05_PermitDenyAddPermListEntries"
      (fields (plain (slice (struct "" (fields (tagged "len_prefix=uint8" string ∷ [])))) ∷ []))

abbrev pub permit_deny_del_perm_list_entries : GoType
permit_deny_del_perm_list_entries =
    struct "SNAC_0x09_0x06_PermitDenyDelPermListEntries"
      (fields (plain (slice (struct "" (fields (tagged "len_prefix=uint8" string ∷ [])))) ∷ []))

abbrev pub permit_deny_add_deny_list_entries : GoType
permit_deny_add_deny_list_entries =
    struct "SNAC_0x09_0x07_PermitDenyAddDenyListEntries"
      (fields (plain (slice (struct "" (fields (tagged "len_prefix=uint8" string ∷ [])))) ∷ []))

abbrev pub permit_deny_del_deny_list_entries : GoType
permit_deny_del_deny_list_entries =
    struct "SNAC_0x09_0x08_PermitDenyDelDenyListEntries"
      (fields (plain (slice (struct "" (fields (tagged "len_prefix=uint8" string ∷ [])))) ∷ []))

abbrev pub permit_deny_set_group_permit_mask : GoType
permit_deny_set_group_permit_mask =
    struct "SNAC_0x09_0x04_PermitDenySetGroupPermitMask" (fields (plain (uint w32) ∷ []))

abbrev pub deny_messages : List GoType
deny_messages =
    permit_deny_rights_reply ∷ permit_deny_add_perm_list_entries ∷ permit_deny_del_perm_list_entries
    ∷ permit_deny_add_deny_list_entries ∷ permit_deny_del_deny_list_entries
    ∷ permit_deny_set_group_permit_mask ∷ []
