-- ===== src/Wire/MessageText/Tests.antt =====
-- Message texts at concrete inputs.
use go_icq.Prelude.{ℕ, ◌≡◌, refl, true, List, codes, arith}
use go_icq.Wire.Result.{ok}
use go_icq.Wire.GoType.{slice, Value}
use go_icq.Wire.Encode.{marshal_be}
use go_icq.Wire.Snacs.Icbm.{icbm_ch1_fragment}
use go_icq.Wire.MessageText.{
  text, icbm_fragment_list, unmarshal_icbm_message_text, has_clear_icon_hash, get_clear_icon_hash,
}
use go_icq.Wire.MessageText.Laws.{unmarshal_icbm_message_text-icbm_fragment_list}

clear_hash : has_clear_icon_hash get_clear_icon_hash ≡ true
unfolding has_clear_icon_hash
clear_hash = refl

unmarshal_icbm_message_text-icbm_fragment_list_example :
    (frags : List (Value icbm_ch1_fragment)) × (bs : List ℕ) × (icbm_fragment_list (codes "hi")
      ≡ ok frags)
    × (marshal_be (slice icbm_ch1_fragment) frags ≡ ok bs)
    × (unmarshal_icbm_message_text bs ≡ text (codes "hi"))
unmarshal_icbm_message_text-icbm_fragment_list_example =
    unmarshal_icbm_message_text-icbm_fragment_list (codes "hi") (omega arith) (omega arith)
