-- ===== src/Wire/Tests.antt =====
-- Runs of the codec and of `FlapClient`, and the theorems of package wire at concrete inputs.
use go_icq.Prelude.{
  ℕ, zero, suc, ◌+◌, ◌^◌, ◌≤◌, ◌≡◌, ◌≢◌, refl, true, false, some, List, [], ◌∷◌, ◌++◌, All, length,
  replicate, length-replicate, arith,
}
use go_icq.Wire.Bytes.{IsByte, big_endian, put_uint, get_uint}
use go_icq.Wire.Result.{ok, stuck}
use go_icq.Wire.Reader.{read_uint}
use go_icq.Wire.GoType.{Value}
use go_icq.Wire.Tag.{no_tag, parse_oscar_tag}
use go_icq.Wire.Encode.{
  marshal, marshal_be, marshal_le, marshal_elems, check_pointer, struct_order, struct_prefix,
  slice_prefix, marshal_unsigned_int, write_fixed, is_fixed,
}
use go_icq.Wire.Decode.{unmarshal, unmarshal_be, unmarshal_slice, unmarshal_struct}
use go_icq.Wire.RoundTrip.{unmarshal-marshal, unmarshal_be-marshal_be}
use go_icq.Wire.RoundTrip.Conditions.{Fits}
use go_icq.Wire.Termination.{min_size, always_ends, unmarshal_ends}
use go_icq.Wire.Messages.{tlv, tlv_rest_block, flap_frame, SnacFrame}
use go_icq.Wire.Flap.{FlapClient, send_snac, receive_snac, receive_signon_frame}
use go_icq.Wire.Flap.Transfer.{All-bytes, send_all, receive_all, receive_all-send_all}
use go_icq.Wire.Flap.Snac.{receive_snac-send_snac}
use go_icq.Wire.Flap.Oversize.{Oversized, receive_flap-oversize}
use go_icq.Wire.Flap.Signon.{receive_signon_frame-fails}

-- Opens the codec for a run.
codec : Unit {0}
unfolding marshal_be marshal_le marshal marshal_elems parse_oscar_tag check_pointer struct_order
    struct_prefix slice_prefix marshal_unsigned_int is_fixed write_fixed put_uint unmarshal
    unmarshal_be unmarshal_slice unmarshal_struct read_uint get_uint min_size always_ends
codec = tt

-- Two TLVs, the second with an empty value.
abbrev two_tlvs : Value tlv_rest_block
two_tlvs = ((1, (10 ∷ 20 ∷ [], tt)) ∷ (2, ([], tt)) ∷ [], tt)

abbrev two_tlvs_bytes : List ℕ
two_tlvs_bytes = 0 ∷ 1 ∷ 0 ∷ 2 ∷ 10 ∷ 20 ∷ 0 ∷ 2 ∷ 0 ∷ 0 ∷ []

two_tlvs_marshalled : marshal_be tlv_rest_block two_tlvs ≡ ok two_tlvs_bytes
unfolding codec
two_tlvs_marshalled = refl

-- A TLV that is cut off behind its tag is dropped without an error.
cut_tlv : unmarshal_be tlv_rest_block (two_tlvs_bytes ++ (0 ∷ 3 ∷ [])) ≡ (ok two_tlvs, [])
unfolding codec
cut_tlv = refl

two_tlvs-Fits : Fits true tlv_rest_block no_tag big_endian two_tlvs
unfolding codec
two_tlvs-Fits =
    let first : Fits false tlv no_tag big_endian (1, (10 ∷ 20 ∷ [], tt)) = (
      refl,
      refl,
      (
        refl,
        (refl, omega arith),
        (refl, (refl, refl, All-bytes (10 ∷ 20 ∷ []) (omega arith), (omega arith, refl)), tt),
      ),
    ) in
    let second : Fits false tlv no_tag big_endian (2, ([], tt)) = (
      refl,
      refl,
      (refl, (refl, omega arith), (refl, (refl, refl, tt, (omega arith, refl)), tt)),
    ) in
    (refl, refl, (refl, (refl, refl, (first, (second, tt)), (refl, refl)), tt))

unmarshal_be-marshal_be_example :
    (bs : List ℕ) × (marshal_be tlv_rest_block two_tlvs ≡ ok bs)
    × All IsByte bs
    × (unmarshal_be tlv_rest_block bs ≡ (ok two_tlvs, []))
unmarshal_be-marshal_be_example = unmarshal_be-marshal_be tlv_rest_block two_tlvs two_tlvs-Fits

abbrev small_frame : Value flap_frame
small_frame = (42, (2, (7, (1 ∷ 2 ∷ 3 ∷ [], tt))))

small_frame-Fits : Fits false flap_frame no_tag big_endian small_frame
unfolding codec
small_frame-Fits = (
  refl,
  refl,
  (
    refl,
    (refl, omega arith),
    (
      refl,
      (refl, omega arith),
      (
        refl,
        (refl, omega arith),
        (refl, (refl, refl, All-bytes (1 ∷ 2 ∷ 3 ∷ []) (omega arith), (omega arith, refl)), tt),
      ),
    ),
  ),
)

unmarshal-marshal_example :
    (bs : List ℕ) × (marshal flap_frame no_tag big_endian small_frame ≡ ok bs)
    × All IsByte bs
    × ((rest : List ℕ)
        → unmarshal flap_frame no_tag big_endian (bs ++ rest) ≡ (ok small_frame, rest))
unmarshal-marshal_example =
    unmarshal-marshal flap_frame no_tag big_endian small_frame small_frame-Fits

unmarshal_ends_example :
    ((unmarshal tlv_rest_block no_tag big_endian (0 ∷ 1 ∷ 0 ∷ [])).0 ≢ stuck)
    × (length (unmarshal tlv_rest_block no_tag big_endian (0 ∷ 1 ∷ 0 ∷ [])).1 ≤ 3)
    × ((v : Value tlv_rest_block)
        → (unmarshal tlv_rest_block no_tag big_endian (0 ∷ 1 ∷ 0 ∷ [])).0 ≡ ok v
        → length (unmarshal tlv_rest_block no_tag big_endian (0 ∷ 1 ∷ 0 ∷ [])).1
            + min_size tlv_rest_block no_tag
          ≤ 3)
unfolding codec
unmarshal_ends_example = unmarshal_ends tlv_rest_block no_tag big_endian (0 ∷ 1 ∷ 0 ∷ []) refl

-- A client that has sent 65535 frames.
abbrev client : FlapClient
client = record { sequence = 65535; input = []; output = [] }

receive_all-send_all_example :
    (bs : List ℕ) × ((send_all client ((1 ∷ []) ∷ (2 ∷ 3 ∷ []) ∷ [])).output ≡ [] ++ bs)
    × ((g : FlapClient) (rest : List ℕ)
        → g.input ≡ bs ++ rest
        → receive_all 2 g ≡ (
          ok (
              record { start_marker = 42; frame_type = 2; sequence = 65535; payload = 1 ∷ [] }
              ∷ record { start_marker = 42; frame_type = 2; sequence = 0; payload = 2 ∷ 3 ∷ [] }
              ∷ []),
          record g { input = rest },
        ))
receive_all-send_all_example =
    receive_all-send_all client ((1 ∷ []) ∷ (2 ∷ 3 ∷ []) ∷ []) (omega arith)

abbrev snac : SnacFrame
snac = record { food_group = 1; sub_group = 3; flags = 0; request_id = 9 }

receive_snac-send_snac_example :
    (bs : List ℕ) × (send_snac client snac (some (tlv_rest_block, two_tlvs))
      ≡ (ok tt, record client { output = [] ++ bs; sequence = 65536 }))
    × ((g : FlapClient) (rest : List ℕ)
        → g.input ≡ bs ++ rest
        → receive_snac tlv_rest_block g ≡ (ok (snac, two_tlvs), record g { input = rest }))
unfolding codec
receive_snac-send_snac_example =
    receive_snac-send_snac client snac tlv_rest_block two_tlvs (omega arith) two_tlvs-Fits
      (omega arith)

receive_signon_frame-fails_example : (receive_signon_frame client).0 ≢ ok ([], 1)
receive_signon_frame-fails_example = receive_signon_frame-fails client ([], 1)

long_payload-IsByte : (n : ℕ) → All IsByte (replicate n 7)
long_payload-IsByte zero = tt
long_payload-IsByte (suc n) = (omega arith, long_payload-IsByte n)

receive_flap-oversize_example : Oversized client (replicate (2 ^ 16 + 2) 7)
receive_flap-oversize_example =
    receive_flap-oversize client (replicate (2 ^ 16 + 2) 7) (long_payload-IsByte (2 ^ 16 + 2))
      (rw length-replicate (omega arith))
