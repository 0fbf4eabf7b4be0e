-- ===== src/Wire/Messages.antt =====
-- Message types of package wire: wire/tlv.go and wire/frames.go as wire/encode.go and wire/decode.go
-- see them, field by field in the source's order, and the records that the other modules use.
use go_icq.Prelude.{ℕ, Option, some, none, String, codes, List, [], ◌∷◌}
use go_icq.Wire.Bytes.{w8, w16, w32}
use go_icq.Wire.GoType.{GoType, uint, string, slice, struct, Fields, end, field, Value}

abbrev pub oscar : String → Option (List ℕ)
oscar s = some (codes s)

-- A field with its tag, and the fields of a struct in their order.
pub data Field : Type 0 where
  plain : GoType → Field
  tagged : String → GoType → Field

abbrev pub fields : List Field → Fields
fields [] = end
fields (plain t ∷ fs) = field none t (fields fs)
fields (tagged s t ∷ fs) = field (oscar s) t (fields fs)

abbrev pub bytes : GoType
bytes = slice (uint w8)

abbrev pub tlv : GoType
tlv = struct "TLV" (field none (uint w16) (field (oscar "len_prefix=uint16") bytes end))

abbrev pub tlv_block : GoType
tlv_block = struct "TLVBlock" (field (oscar "count_prefix=uint16") (slice tlv) end)

abbrev pub tlv_l_block : GoType
tlv_l_block = struct "TLVLBlock" (field (oscar "len_prefix=uint16") (slice tlv) end)

abbrev pub tlv_rest_block : GoType
tlv_rest_block = struct "TLVRestBlock" (field none (slice tlv) end)

abbrev pub flap_frame : GoType
flap_frame = struct "FLAPFrame" (
    field none (uint w8)
      (field none (uint w8) (field none (uint w16) (field (oscar "len_prefix=uint16") bytes end))))

-- The embedded block stands before the version.
abbrev pub flap_signon_frame : GoType
flap_signon_frame = struct "FLAPSignonFrame" (field none tlv_rest_block (field none (uint w32) end))

abbrev pub flap_frame_disconnect : GoType
flap_frame_disconnect =
    struct "FLAPFrameDisconnect"
      (field none (uint w8) (field none (uint w8) (field none (uint w16) end)))

abbrev pub snac_frame : GoType
snac_frame = struct "SNACFrame" (
    field none (uint w16)
      (field none (uint w16) (field none (uint w16) (field none (uint w32) end))))

-- One of the ICQ messages with a string, of wire/snacs.go.
abbrev pub icq_email : GoType
icq_email = struct "ICQEmail" (field (oscar "len_prefix=uint16,nullterm") string end)

abbrev pub snac_error : GoType
snac_error = struct "SNACError" (field none tlv_rest_block (field none (uint w16) end))

pub record Tlv : Type 0 where
  pub tag : ℕ
  pub value : List ℕ

abbrev pub tlv_value : Tlv → Value tlv
tlv_value t = (t.tag, (t.value, tt))

abbrev pub of_tlv_value : Value tlv → Tlv
of_tlv_value (tag, (value, u)) = record { tag = tag; value = value }

pub record FlapFrame : Type 0 where
  pub start_marker : ℕ
  pub frame_type : ℕ
  pub sequence : ℕ
  pub payload : List ℕ

abbrev pub flap_value : FlapFrame → Value flap_frame
flap_value f = (f.start_marker, (f.frame_type, (f.sequence, (f.payload, tt))))

abbrev pub of_flap_value : Value flap_frame → FlapFrame
of_flap_value (m, (t, (s, (p, u)))) = record {
  start_marker = m;
  frame_type = t;
  sequence = s;
  payload = p;
}

pub record SnacFrame : Type 0 where
  pub food_group : ℕ
  pub sub_group : ℕ
  pub flags : ℕ
  pub request_id : ℕ

abbrev pub snac_value : SnacFrame → Value snac_frame
snac_value f = (f.food_group, (f.sub_group, (f.flags, (f.request_id, tt))))

abbrev pub of_snac_value : Value snac_frame → SnacFrame
of_snac_value (g, (s, (f, (r, u)))) = record {
  food_group = g;
  sub_group = s;
  flags = f;
  request_id = r;
}
