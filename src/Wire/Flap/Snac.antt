-- ===== src/Wire/Flap/Snac.antt =====
-- `SendSNAC` and `ReceiveSNAC` of wire/frames.go: a SNAC frame and its body inside one FLAP frame.
use go_icq.Prelude.{
  ℕ, ◌+◌, ◌^◌, ◌<◌, ◌≡◌, refl, true, false, some, List, [], ◌++◌, All-append, length-append, arith,
}
use go_icq.Wire.Bytes.{IsByte, w16, w32, big_endian, put_uint, length-put_uint}
use go_icq.Wire.Result.{ok}
use go_icq.Wire.GoType.{GoType, Value}
use go_icq.Wire.Tag.{no_tag, parse_oscar_tag}
use go_icq.Wire.Encode.{marshal, marshal_be, check_pointer, struct_order, struct_prefix}
use go_icq.Wire.Decode.{unmarshal_be}
use go_icq.Wire.RoundTrip.{unmarshal-marshal, unmarshal_be-marshal_be}
use go_icq.Wire.RoundTrip.Conditions.{Fits, encoded_length}
use go_icq.Wire.Messages.{SnacFrame, snac_frame, snac_value}
use go_icq.Wire.Flap.{FlapClient, next_sequence, send_snac, receive_snac, flap_frame_data}
use go_icq.Wire.Flap.Transfer.{write_frame-read_frame, IsPayload}

pub record SnacFits (f : SnacFrame) : Type 0 where
  pub group : f.food_group < 2 ^ 16
  pub sub : f.sub_group < 2 ^ 16
  pub flag : f.flags < 2 ^ 16
  pub request : f.request_id < 2 ^ 32

snac_frame-Fits :
    (f : SnacFrame) → SnacFits f → Fits false snac_frame no_tag big_endian (snac_value f)
unfolding parse_oscar_tag check_pointer struct_order
snac_frame-Fits f h = (
  refl,
  refl,
  (
    refl,
    (refl, h.group),
    (refl, (refl, h.sub), (refl, (refl, h.flag), (refl, (refl, h.request), tt))),
  ),
)

-- A SNAC frame takes ten bytes.
length-snac_frame : (f : SnacFrame) → encoded_length (marshal_be snac_frame (snac_value f)) ≡ 10
unfolding marshal_be marshal parse_oscar_tag check_pointer struct_order struct_prefix
length-snac_frame f =
    let request = put_uint w32 big_endian f.request_id in
    let flags = put_uint w16 big_endian f.flags in
    let sub = put_uint w16 big_endian f.sub_group in
    let group = put_uint w16 big_endian f.food_group in
    omega (
      arith,
      length-append group (sub ++ (flags ++ (request ++ []))),
      length-append sub (flags ++ (request ++ [])),
      length-append flags (request ++ []),
      length-append request [],
      length-put_uint w32 big_endian f.request_id,
      length-put_uint w16 big_endian f.flags,
      length-put_uint w16 big_endian f.sub_group,
      length-put_uint w16 big_endian f.food_group,
    )

-- The payload is the SNAC frame and the body, one behind the other.
snac_parts :
    (f : FlapClient) (frame : SnacFrame) (t : GoType) (v : Value t) (head tail : List ℕ)
    → marshal_be snac_frame (snac_value frame) ≡ ok head
    → marshal_be t v ≡ ok tail
    → unmarshal_be snac_frame (head ++ tail) ≡ (ok (snac_value frame), tail)
    → unmarshal_be t tail ≡ (ok v, [])
    → IsPayload (head ++ tail)
    → (bs : List ℕ) × (send_snac f frame (some (t, v))
        ≡ (ok tt, record f { output = f.output ++ bs; sequence = next_sequence f.sequence }))
      × ((g : FlapClient) (rest : List ℕ)
          → g.input ≡ bs ++ rest
          → receive_snac t g ≡ (ok (frame, v), record g { input = rest }))
unfolding send_snac receive_snac
snac_parts f frame t v head tail e e' r r' fits =
    let (bs, sent, got) =
      write_frame-read_frame f flap_frame_data (head ++ tail) (omega arith) fits in
    (bs, rw (e, e') sent, λ g rest i. rw (got g rest i, r, r'))

-- A SNAC message whose frame and body fit their types, and whose body is at most 65525 bytes long,
-- is sent without an error and counted. A client that finds the bytes sent at the front of its input
-- and asks for a body of the same type receives the same frame and body, and leaves what follows.
pub receive_snac-send_snac :
    (f : FlapClient) (frame : SnacFrame) (t : GoType) (v : Value t)
    → SnacFits frame
    → Fits true t no_tag big_endian v
    → encoded_length (marshal_be t v) + 10 < 2 ^ 16
    → (bs : List ℕ) × (send_snac f frame (some (t, v))
        ≡ (ok tt, record f { output = f.output ++ bs; sequence = next_sequence f.sequence }))
      × ((g : FlapClient) (rest : List ℕ)
          → g.input ≡ bs ++ rest
          → receive_snac t g ≡ (ok (frame, v), record g { input = rest }))
unfolding marshal_be unmarshal_be
receive_snac-send_snac f frame t v hf hv short =
    let (head, e, y, r) =
      unmarshal-marshal snac_frame no_tag big_endian (snac_value frame)
        (snac_frame-Fits frame hf) in
    let (tail, e', ys, r') = unmarshal_be-marshal_be t v hv in
    let head_length = rw e at (length-snac_frame frame) in
    let tail_length = rw e' at short in
    snac_parts f frame t v head tail e e' (r tail) r'
      (All-append IsByte head tail y ys, omega (arith, length-append head tail))
