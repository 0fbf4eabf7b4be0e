-- ===== src/Wire/Flap/Oversize.antt =====
-- Payloads that are too long for the length field of a frame (wire/frames.go, and
-- `marshalUnsignedInt` of wire/encode.go, which cuts the length to 16 bits).
use go_icq.Prelude.{
  ℕ, zero, suc, ◌/◌, ◌%◌, ◌^◌, ◌≤◌, ◌<◌, ◌≡◌, refl, ap, sym, ◌∙◌, List, [], ◌∷◌, ◌++◌, All, length,
  take, drop, length-take, length-drop, arith,
}
use mathlib.Core.List.{append-nil, append_assoc}
use go_icq.Wire.Bytes.{IsByte, w8, w16, big_endian, put_uint, digits}
use go_icq.Wire.Result.{ok}
use go_icq.Wire.Tag.{no_tag, parse_oscar_tag}
use go_icq.Wire.Encode.{
  marshal, marshal_be, marshal_elems, marshal_unsigned_int, is_fixed, write_fixed, each,
  check_pointer, struct_order, struct_prefix, slice_prefix,
}
use go_icq.Wire.Decode.{unmarshal_be}
use go_icq.Wire.RoundTrip.{unmarshal-marshal}
use go_icq.Wire.Messages.{FlapFrame, flap_frame, flap_value}
use go_icq.Wire.Flap.{
  FlapClient, write_frame, next_sequence, send_data_frame, receive_flap, read_frame,
  flap_frame_data,
}
use go_icq.Wire.Flap.Transfer.{FrameFits, flap_frame-Fits, next_frame}

-- A list is what stands before a position, and what stands behind it.
take-append-drop {ℓ} : {A : Type ℓ} (n : ℕ) (xs : List A) → take n xs ++ drop n xs ≡ xs
take-append-drop zero xs = refl
take-append-drop (suc n) [] = refl
take-append-drop (suc n) (x ∷ xs) = ap (◌∷◌ x) (take-append-drop n xs)

take-All {ℓ κ} : {A : Type ℓ} (P : A → Type κ) (n : ℕ) (xs : List A) → All P xs → All P (take n xs)
take-All P zero xs h = tt
take-All P (suc n) [] h = tt
take-All P (suc n) (x ∷ xs) (h, hs) = (h, take-All P n xs hs)

put_uint_wraps : (n : ℕ) → put_uint w16 big_endian n ≡ put_uint w16 big_endian (n % 2 ^ 16)
unfolding put_uint digits
put_uint_wraps n =
    let low : n % 256 ≡ n % 2 ^ 16 % 256 = omega arith in
    let high : n / 256 % 256 ≡ n % 2 ^ 16 / 256 % 256 = omega arith in cc (low, high)

each_byte : (xs : List ℕ) → All IsByte xs → each (put_uint w8 big_endian) xs ≡ xs
unfolding put_uint digits
each_byte [] h = refl
each_byte (x ∷ xs) (h, hs) = let low : x % 256 ≡ x = omega arith in rw (low, each_byte xs hs)

abbrev frame_head : FlapFrame → List ℕ
frame_head f =
    put_uint w8 big_endian f.start_marker
    ++ (put_uint w8 big_endian f.frame_type ++ put_uint w16 big_endian f.sequence)

-- The bytes of a frame.
marshal-flap_frame :
    (f : FlapFrame)
    → All IsByte f.payload
    → marshal_be flap_frame (flap_value f)
      ≡ ok (frame_head f ++ (put_uint w16 big_endian (length f.payload) ++ f.payload))
unfolding marshal_be marshal marshal_elems parse_oscar_tag check_pointer struct_order struct_prefix
    slice_prefix marshal_unsigned_int is_fixed write_fixed
marshal-flap_frame f h = rw (
  each_byte f.payload h,
  append-nil (put_uint w16 big_endian (length f.payload) ++ f.payload),
  append_assoc (put_uint w8 big_endian f.start_marker)
      (put_uint w8 big_endian f.frame_type ++ put_uint w16 big_endian f.sequence)
      (put_uint w16 big_endian (length f.payload) ++ f.payload),
  append_assoc (put_uint w8 big_endian f.frame_type) (put_uint w16 big_endian f.sequence)
      (put_uint w16 big_endian (length f.payload) ++ f.payload),
)

-- What is left of a payload when its length is cut to 16 bits.
abbrev pub cut : List ℕ → List ℕ
cut payload = take (length payload % 2 ^ 16) payload

abbrev pub overhang : List ℕ → List ℕ
overhang payload = drop (length payload % 2 ^ 16) payload

length-cut : (p : List ℕ) → length (cut p) ≡ length p % 2 ^ 16
length-cut p = length-take (length p % 2 ^ 16) p (omega arith)

ok-injective {ℓ} : {A : Type ℓ} {a b : A} → ok a ≡ ok b → a ≡ b
ok-injective e = cc

-- The frame of a long payload is the frame of its front, and the rest behind it.
marshal-cut :
    (f : FlapFrame) (bs : List ℕ)
    → All IsByte f.payload
    → marshal_be flap_frame (flap_value (record f { payload = cut f.payload })) ≡ ok bs
    → marshal_be flap_frame (flap_value f) ≡ ok (bs ++ overhang f.payload)
marshal-cut f bs h e =
    let p = f.payload in
    let size = put_uint w16 big_endian (length p) in
    let front =
      marshal-flap_frame (record f { payload = cut p }) (take-All IsByte (length p % 2 ^ 16) p h) in
    let same_size : put_uint w16 big_endian (length (cut p)) ≡ size =
      ap (put_uint w16 big_endian) (length-cut p) ∙ sym (put_uint_wraps (length p)) in
    let bytes : bs ≡ frame_head f ++ (size ++ cut p) =
      ok-injective (sym e ∙ front) ∙ ap (λ s. frame_head f ++ (s ++ cut p)) same_size in
    let whole : (frame_head f ++ (size ++ cut p)) ++ overhang p ≡ frame_head f ++ (size ++ p) =
      append_assoc (frame_head f) (size ++ cut p) (overhang p)
      ∙ ap (◌++◌ (frame_head f)) (
          append_assoc size (cut p) (overhang p)
          ∙ ap (◌++◌ size) (take-append-drop (length p % 2 ^ 16) p)) in
    marshal-flap_frame f h ∙ ap ok (sym whole ∙ ap (λ b. b ++ overhang p) (sym bytes))

abbrev pub Oversized : FlapClient → List ℕ → Type 0
Oversized f payload =
    (bs : List ℕ) × (send_data_frame f payload
      ≡ (ok tt, record f { output = f.output ++ bs; sequence = next_sequence f.sequence }))
    × ((g : FlapClient) (rest : List ℕ)
        → g.input ≡ bs ++ rest
        → receive_flap g ≡ (
          ok (next_frame f flap_frame_data (cut payload)),
          record g { input = overhang payload ++ rest },
        ))
    × (0 < length (overhang payload))

-- A data frame whose payload is too long is sent without an error. A client that finds the bytes sent
-- at the front of its input receives a frame with the front of the payload, as long as the payload's
-- length modulo 2^16, and what remains of the payload is left as if it were the next frame.
pub receive_flap-oversize :
    (f : FlapClient) (payload : List ℕ)
    → All IsByte payload
    → 2 ^ 16 ≤ length payload
    → Oversized f payload
unfolding send_data_frame receive_flap write_frame read_frame unmarshal_be
receive_flap-oversize f payload h long =
    let frame = next_frame f flap_frame_data (cut payload) in
    let fits : FrameFits frame = record {
      marker = omega arith;
      kind = omega arith;
      number = omega arith;
      bytes_fit = take-All IsByte (length payload % 2 ^ 16) payload h;
      short = rw (length-cut payload) (omega arith);
    } in
    let (bs, e, _, r) =
      unmarshal-marshal flap_frame no_tag big_endian (flap_value frame)
        (flap_frame-Fits frame fits) in
    let e' = marshal-cut (next_frame f flap_frame_data payload) bs h (unfold marshal_be in e) in
    (
      bs ++ overhang payload,
      rw (e', write_frame),
      (λ g rest i. rw (i, append_assoc bs (overhang payload) rest, r (overhang payload ++ rest))),
      rw (length-drop (length payload % 2 ^ 16) payload) (omega arith),
    )
