-- ===== src/Wire/MessageText/Laws.antt =====
-- The text of an instant message, of wire/snacs.go, goes into fragments and comes back.
use go_icq.Prelude.{
  ℕ, ◌+◌, ◌-◌, ◌^◌, ◌<◌, ◌≡◌, refl, sym, ◌∙◌, List, [], ◌∷◌, ◌++◌, All, length, length-append,
  arith,
}
use go_icq.Wire.Bytes.{IsByte, w8, w16, big_endian, put_uint, length-put_uint}
use go_icq.Wire.Result.{ok}
use go_icq.Wire.GoType.{uint, slice, Value}
use go_icq.Wire.Tag.{no_tag, parse_oscar_tag}
use go_icq.Wire.Encode.{
  marshal, marshal_be, marshal_elems, write_fixed, is_fixed, each, check_pointer, struct_order,
  struct_prefix, slice_prefix,
}
use go_icq.Wire.Decode.{unmarshal_be}
use go_icq.Wire.Flap.Transfer.{length-each_byte}
use go_icq.Wire.Snacs.Codable.{wants_input, codable, InRange}
use go_icq.Wire.Snacs.Carried.{codable-round_trip}
use go_icq.Wire.Snacs.Icbm.{icbm_ch1_fragment, icbm_ch1_message}
use go_icq.Wire.MessageText.{text, icbm_fragment_list, find_text, unmarshal_icbm_message_text}

ok-injective : {A : Type 0} {a b : A} → ok a ≡ ok b → a ≡ b
ok-injective e = cc

marshal_be-message :
    (s : List ℕ)
    → marshal_be icbm_ch1_message (0, (0, (s, tt)))
      ≡ ok (
          put_uint w16 big_endian 0
          ++ (put_uint w16 big_endian 0 ++ (each (write_fixed (uint w8) big_endian) s ++ [])))
unfolding marshal_be marshal marshal_elems is_fixed parse_oscar_tag check_pointer struct_order
    struct_prefix slice_prefix
marshal_be-message s = refl

length-message :
    (s bs : List ℕ)
    → marshal_be icbm_ch1_message (0, (0, (s, tt))) ≡ ok bs
    → length bs ≡ 4 + length s
length-message s bs h =
    let same = ok-injective (sym (marshal_be-message s) ∙ h) in
    let written = each (write_fixed (uint w8) big_endian) s in
    rw
      (
        ← same,
        length-append (put_uint w16 big_endian 0) (put_uint w16 big_endian 0 ++ (written ++ [])),
        length-append (put_uint w16 big_endian 0) (written ++ []),
        length-append written [],
        length-put_uint w16 big_endian 0,
        length-each_byte s,
      )
      (omega arith)

fragments-InRange :
    (msg : List ℕ)
    → All IsByte msg
    → length msg < 2 ^ 16
    → InRange
        (slice icbm_ch1_fragment)
        no_tag
        big_endian
        ((5, (1, (1 ∷ 1 ∷ 2 ∷ [], tt))) ∷ (1, (1, (msg, tt))) ∷ [])
unfolding parse_oscar_tag marshal_elems write_fixed is_fixed put_uint
fragments-InRange msg bytes short =
    let room = rw (← length-each_byte msg) at short in
    let capabilities : InRange icbm_ch1_fragment no_tag big_endian (5, (1, (1 ∷ 1 ∷ 2 ∷ [], tt))) =
      (
        (
          omega arith,
          (omega arith, (((omega arith, (omega arith, (omega arith, tt))), omega arith, tt), tt)),
        ),
        tt,
      ) in
    let message : InRange icbm_ch1_fragment no_tag big_endian (1, (1, (msg, tt))) =
      ((omega arith, (omega arith, ((bytes, room, tt), tt))), tt) in
    ((capabilities, (message, tt)), tt, tt)

-- The fragments of a text of bytes that is shorter than 65532 are made without an error and marshalled,
-- and the text that is extracted from the marshalled fragments is the same.
pub unmarshal_icbm_message_text-icbm_fragment_list :
    (s : List ℕ)
    → All IsByte s
    → length s < 2 ^ 16 - 4
    → (frags : List (Value icbm_ch1_fragment)) × (bs : List ℕ) × (icbm_fragment_list s ≡ ok frags)
      × (marshal_be (slice icbm_ch1_fragment) frags ≡ ok bs)
      × (unmarshal_icbm_message_text bs ≡ text s)
unfolding icbm_fragment_list unmarshal_icbm_message_text find_text codable wants_input
    parse_oscar_tag marshal_be unmarshal_be
unmarshal_icbm_message_text-icbm_fragment_list s bytes short =
    let (msg, written, hm, read) =
      codable-round_trip icbm_ch1_message big_endian (0, (0, (s, tt))) refl
        ((omega arith, (omega arith, ((bytes, tt, tt), tt))), tt) in
    let size = length-message s msg written in
    let frags : List (Value icbm_ch1_fragment) =
      (5, (1, (1 ∷ 1 ∷ 2 ∷ [], tt))) ∷ (1, (1, (msg, tt))) ∷ [] in
    let (bs, written', hb, read') =
      codable-round_trip (slice icbm_ch1_fragment) big_endian frags refl
        (fragments-InRange msg hm (omega arith)) in
    (frags, bs, rw written refl, written', rw (read', read) refl)
