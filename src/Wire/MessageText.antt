-- ===== src/Wire/MessageText.antt =====
-- The functions and methods of wire/snacs.go: the text of instant messages and of chat messages, and tests of
-- flags.
pub mod Laws
mod Tests
use go_icq.Prelude.{ℕ, ◌%◌, ◌^◌, Bool, List, [], ◌∷◌, map, ◌==◌, bytes_eq, bit_and, if◌then◌else◌}
use go_icq.Wire.Result.{Result, ok, err, panic, stuck, Error, ◌>>=◌}
use go_icq.Wire.GoType.{slice, Value}
use go_icq.Wire.Messages.{Tlv, tlv_rest_block, of_tlv_value}
use go_icq.Wire.Encode.{marshal_be}
use go_icq.Wire.Decode.{unmarshal_be}
use go_icq.Wire.TlvList.{Found, found, missing, panics, bytes, uint16_be}
use go_icq.Wire.Snacs.Icbm.{icbm_ch1_fragment, icbm_ch1_message}

-- The text, or an error: of the codec, or as there is none. A panic and a loop without an end are outcomes
-- too.
pub data MessageText : Type 0 where
  text : List ℕ → MessageText
  no_text panicked spinning : MessageText
  codec : Error → MessageText

abbrev on_codec : {A : Type 0} → Result A → (A → MessageText) → MessageText
on_codec (ok a) f = f a
on_codec (err e) f = codec e
on_codec panic f = panicked
on_codec stuck f = spinning

-- The two fragments: capabilities, and the message.
unfoldable pub icbm_fragment_list : List ℕ → Result (List (Value icbm_ch1_fragment))
icbm_fragment_list s = do
  msg ← marshal_be icbm_ch1_message (0, (0, (s, tt)))
  ok ((5, (1, (1 ∷ 1 ∷ 2 ∷ [], tt))) ∷ (1, (1, (msg, tt))) ∷ [])

-- The loop: the first fragment with the ID of a text is the message.
unfoldable pub find_text : List (Value icbm_ch1_fragment) → MessageText
find_text [] = no_text
find_text (frag ∷ frags) =
    let rest = find_text frags in
    if frag.0 == 1
    then on_codec (unmarshal_be icbm_ch1_message frag.1.1.0).0 (λ msg. text msg.1.1.0)
    else rest

unfoldable pub unmarshal_icbm_message_text : List ℕ → MessageText
unfolding find_text
unmarshal_icbm_message_text b = on_codec (unmarshal_be (slice icbm_ch1_fragment) b).0 find_text

-- The TLV of a chat message that has the text.
abbrev of_found : Found (List ℕ) → MessageText
of_found (found s) = text s
of_found missing = no_text
of_found panics = panicked

unfoldable pub unmarshal_chat_message_text : List ℕ → MessageText
unmarshal_chat_message_text b =
    on_codec (unmarshal_be tlv_rest_block b).0
      λ block. of_found (bytes (map of_tlv_value block.0) 0x01)

-- All bits of a flag are set.
abbrev pub is_set : ℕ → ℕ → Bool
is_set flags flag = bit_and flags flag == flag

-- `IsAway`; a value that is too short panics.
unfoldable pub is_away : List Tlv → Found Bool
is_away tlvs = elim (uint16_be tlvs 0x01) [
  | found flags ↦ found (is_set flags 0x0020)
  | missing ↦ found (is_set 0 0x0020)
  | panics ↦ panics
]

abbrev pub get_clear_icon_hash : List ℕ
get_clear_icon_hash = 0x02 ∷ 0x01 ∷ 0xd2 ∷ 0x04 ∷ 0x72 ∷ []

unfoldable pub has_clear_icon_hash : List ℕ → Bool
has_clear_icon_hash hash = bytes_eq hash get_clear_icon_hash

unfoldable pub idle_flag : ℕ → Bool
idle_flag privacy_flags = is_set privacy_flags 0x00000001

unfoldable pub member_flag : ℕ → Bool
member_flag privacy_flags = is_set privacy_flags 0x00000002

unfoldable pub request_profile : ℕ → Bool
request_profile query_type = is_set query_type 0x0001

unfoldable pub request_away_message : ℕ → Bool
request_away_message query_type = is_set query_type 0x0002

-- The lowest 16 bits of the mask.
unfoldable pub is_flag_set : ℕ → ℕ → Bool
is_flag_set perm_mask flag = is_set (perm_mask % 2 ^ 16) flag
