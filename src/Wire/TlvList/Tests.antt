-- ===== src/Wire/TlvList/Tests.antt =====
-- The theorems on the TLV list of wire/tlv.go at concrete inputs.
use go_icq.Prelude.{ℕ, ◌<◌, ◌≡◌, refl, ◌↔◌, List, [], ◌∷◌, length, arith}
use go_icq.Wire.Bytes.{big_endian}
use go_icq.Wire.Result.{ok}
use go_icq.Wire.Messages.{Tlv, icq_email}
use go_icq.Wire.TlvList.{panics, append, bytes, uint16, icq_string, new_tlv_le, typed, has_tag}
use go_icq.Wire.TlvList.Laws.{uint16-panics, icq_string-new_tlv_le, icq_result}

abbrev short_value : List Tlv
short_value = record { tag = 4; value = 9 ∷ [] } ∷ record { tag = 5; value = 1 ∷ 2 ∷ [] } ∷ []

uint16-panics_example : (uint16 short_value 4 big_endian ≡ panics) ↔ (length {A = ℕ} (9 ∷ []) < 2)
unfolding bytes
uint16-panics_example = uint16-panics short_value 4 big_endian (9 ∷ []) refl

icq_string-new_tlv_le_example :
    (t : Tlv) × (new_tlv_le 8 (typed icq_email (97 ∷ 64 ∷ 98 ∷ [], tt)) ≡ ok t)
    × (icq_string (append short_value t) 8 ≡ icq_result (97 ∷ 64 ∷ 98 ∷ []))
unfolding has_tag
icq_string-new_tlv_le_example =
    icq_string-new_tlv_le short_value 8 (97 ∷ 64 ∷ 98 ∷ []) refl (omega arith)
