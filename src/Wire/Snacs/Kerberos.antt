-- ===== src/Wire/Snacs/Kerberos.antt =====
-- The Kerberos sign-on, of wire/snacs.go.
use go_icq.Prelude.{List, [], ◌∷◌}
use go_icq.Wire.Bytes.{w8, w16, w32}
use go_icq.Wire.GoType.{GoType, uint, string, slice, struct}
use go_icq.Wire.Messages.{bytes, tlv_block, plain, tagged, fields}

abbrev pub kerberos_ticket : GoType
kerberos_ticket = struct "KerberosTicket" (
    fields (
      plain (uint w16)
      ∷ tagged "len_prefix=uint16" bytes
      ∷ tagged "len_prefix=uint16" string
      ∷ tagged "len_prefix=uint16" string
      ∷ tagged "len_prefix=uint16" string
      ∷ tagged "len_prefix=uint16" string
      ∷ plain (uint w8)
      ∷ tagged "len_prefix=uint16" bytes
      ∷ plain (uint w32)
      ∷ plain (uint w32)
      ∷ plain (uint w32)
      ∷ plain (uint w32)
      ∷ plain (uint w32)
      ∷ plain (uint w32)
      ∷ plain (uint w32)
      ∷ plain (uint w32)
      ∷ plain (uint w32)
      ∷ plain tlv_block
      ∷ []))

abbrev pub kerberos_login_request_ticket : GoType
kerberos_login_request_ticket = struct "KerberosLoginRequestTicket" (
    fields (
      plain (uint w32)
      ∷ plain (uint w16)
      ∷ plain (uint w32)
      ∷ plain (uint w16)
      ∷ tagged "len_prefix=uint16" bytes
      ∷ plain tlv_block
      ∷ []))

abbrev pub kerberos_bos_server_info : GoType
kerberos_bos_server_info =
    struct "KerberosBOSServerInfo" (fields (plain (uint w16) ∷ plain tlv_block ∷ []))

abbrev pub kerberos_login_request : GoType
kerberos_login_request = struct "SNAC_0x050C_0x0002_KerberosLoginRequest" (
    fields (
      plain (uint w32)
      ∷ plain (uint w32)
      ∷ plain (uint w32)
      ∷ plain (uint w32)
      ∷ plain (uint w32)
      ∷ plain tlv_block
      ∷ plain (uint w32)
      ∷ plain (uint w32)
      ∷ tagged "len_prefix=uint16" string
      ∷ tagged "len_prefix=uint16" string
      ∷ plain tlv_block
      ∷ plain (uint w32)
      ∷ plain (uint w8)
      ∷ tagged "len_prefix=uint16" string
      ∷ tagged "len_prefix=uint16" string
      ∷ plain (uint w32)
      ∷ plain (uint w16)
      ∷ plain tlv_block
      ∷ []))

abbrev pub kerberos_login_success_response : GoType
kerberos_login_success_response = struct "SNAC_0x050C_0x0003_KerberosLoginSuccessResponse" (
    fields (
      plain (uint w32)
      ∷ plain (uint w32)
      ∷ plain (uint w32)
      ∷ tagged "len_prefix=uint16" string
      ∷ tagged "len_prefix=uint16" string
      ∷ tagged "count_prefix=uint16" (slice kerberos_ticket)
      ∷ plain tlv_block
      ∷ []))

abbrev pub kerberos_login_err_response : GoType
kerberos_login_err_response = struct "SNAC_0x050C_0x0004_KerberosLoginErrResponse" (
    fields (
      plain (uint w32)
      ∷ tagged "len_prefix=uint16" string
      ∷ plain (uint w16)
      ∷ tagged "len_prefix=uint16" string
      ∷ plain (uint w32)
      ∷ plain tlv_block
      ∷ []))

abbrev pub kerberos_messages : List GoType
kerberos_messages =
    kerberos_ticket ∷ kerberos_login_request_ticket ∷ kerberos_bos_server_info
    ∷ kerberos_login_request ∷ kerberos_login_success_response ∷ kerberos_login_err_response ∷ []
