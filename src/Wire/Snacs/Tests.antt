-- ===== src/Wire/Snacs/Tests.antt =====
-- The message types at concrete values.
use go_icq.Prelude.{ℕ, ◌≤◌, ◌≡◌, ◌≢◌, refl, List, [], ◌∷◌, All, length, arith}
use go_icq.Wire.Bytes.{IsByte, big_endian, little_endian, put_uint}
use go_icq.Wire.Result.{ok, stuck}
use go_icq.Wire.GoType.{Value}
use go_icq.Wire.Tag.{no_tag, parse_oscar_tag}
use go_icq.Wire.Encode.{
  marshal, marshal_elems, marshal_string, check_pointer, struct_order, struct_prefix, slice_prefix,
  marshal_unsigned_int, write_fixed, is_fixed,
}
use go_icq.Wire.Decode.{unmarshal}
use go_icq.Wire.Snacs.Codable.{InRange}
use go_icq.Wire.Snacs.Checked.{unmarshal_message-ends, message-round_trip}
use go_icq.Wire.Messages.{tlv, tlv_block}
use go_icq.Wire.Snacs.Blocks.{tlv_user_info}

-- User `bob` with one TLV.
abbrev bob : Value tlv_user_info
bob = ((((1, (7 ∷ [], tt)) ∷ [], tt)), (98 ∷ 111 ∷ 98 ∷ [], (0, tt)))

bob-InRange : InRange tlv_user_info no_tag big_endian bob
unfolding parse_oscar_tag marshal marshal_elems marshal_string check_pointer struct_order
    struct_prefix slice_prefix marshal_unsigned_int write_fixed is_fixed put_uint
bob-InRange =
    let tlvs : InRange tlv no_tag big_endian (1, (7 ∷ [], tt)) =
      ((omega arith, (((omega arith, tt), omega arith, tt), tt)), tt) in
    let block : InRange tlv_block no_tag big_endian ((1, (7 ∷ [], tt)) ∷ [], tt) =
      ((((tlvs, tt), tt, omega arith), tt), tt) in
    (
      (block, (((omega arith, (omega arith, (omega arith, tt))), omega arith), (omega arith, tt))),
      tt,
    )

message-round_trip_example :
    (bs : List ℕ) × (marshal tlv_user_info no_tag big_endian bob ≡ ok bs)
    × All IsByte bs
    × (unmarshal tlv_user_info no_tag big_endian bs ≡ (ok bob, []))
message-round_trip_example = message-round_trip 0 tlv_user_info big_endian bob refl refl bob-InRange

unmarshal_message-ends_example :
    ((unmarshal tlv_user_info no_tag little_endian (255 ∷ 255 ∷ 1 ∷ [])).0 ≢ stuck)
    × (length (unmarshal tlv_user_info no_tag little_endian (255 ∷ 255 ∷ 1 ∷ [])).1 ≤ 3)
unmarshal_message-ends_example =
    unmarshal_message-ends 0 tlv_user_info little_endian (255 ∷ 255 ∷ 1 ∷ []) refl
