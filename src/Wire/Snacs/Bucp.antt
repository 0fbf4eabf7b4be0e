-- ===== src/Wire/Snacs/Bucp.antt =====
-- The messages of food group Bucp, of wire/snacs.go.
use go_icq.Prelude.{List, [], ◌∷◌}
use go_icq.Wire.GoType.{GoType, string, struct}
use go_icq.Wire.Messages.{tlv_rest_block, plain, tagged, fields}

abbrev pub bucp_login_request : GoType
bucp_login_request = struct "SNAC_0x17_0x02_BUCPLoginRequest" (fields (plain tlv_rest_block ∷ []))

abbrev pub bucp_login_response : GoType
bucp_login_response = struct "SNAC_0x17_0x03_BUCPLoginResponse" (fields (plain tlv_rest_block ∷ []))

abbrev pub bucp_challenge_request : GoType
bucp_challenge_request =
    struct "SNAC_0x17_0x06_BUCPChallengeRequest" (fields (plain tlv_rest_block ∷ []))

abbrev pub bucp_challenge_response : GoType
bucp_challenge_response =
    struct "SNAC_0x17_0x07_BUCPChallengeResponse" (fields (tagged "len_prefix=uint16" string ∷ []))

abbrev pub bucp_messages : List GoType
bucp_messages =
    bucp_login_request ∷ bucp_login_response ∷ bucp_challenge_request ∷ bucp_challenge_response ∷ []
