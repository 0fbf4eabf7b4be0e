-- ===== src/Wire/Flap/Transfer.antt =====
-- Frames of wire/frames.go on their way: what one `FlapClient` sends another receives.
use go_icq.Prelude.{
  ℕ, zero, suc, ◌%◌, ◌^◌, ◌<◌, ◌≡◌, refl, sym, ap, ◌∙◌, false, List, [], ◌∷◌, ◌++◌, All, length,
  arith,
}
use mathlib.Core.List.{append-nil, append_assoc}
use go_icq.Wire.Bytes.{IsByte, w8, big_endian, put_uint}
use go_icq.Wire.Reader.{read_uint}
use go_icq.Wire.Result.{Result, ok, ◌>>=◌, map_ok}
use go_icq.Wire.GoType.{uint}
use go_icq.Wire.Tag.{no_tag, parse_oscar_tag}
use go_icq.Wire.Encode.{marshal_elems, marshal_be, write_fixed, each, check_pointer, struct_order}
use go_icq.Wire.Decode.{unmarshal, unmarshal_be}
use go_icq.Wire.RoundTrip.{unmarshal-marshal}
use go_icq.Wire.RoundTrip.Conditions.{Fits}
use go_icq.Wire.Messages.{FlapFrame, flap_frame, flap_value}
use go_icq.Wire.Flap.{
  FlapClient, write_frame, next_sequence, send_data_frame, receive_flap, read_frame,
  flap_frame_data,
}

-- A number fits each field, and the payload its length prefix.
pub record FrameFits (f : FlapFrame) : Type 0 where
  pub marker : f.start_marker < 256
  pub kind : f.frame_type < 256
  pub number : f.sequence < 2 ^ 16
  pub bytes_fit : All IsByte f.payload
  pub short : length f.payload < 2 ^ 16

pub All-bytes :
    (xs : List ℕ) → All IsByte xs → All (λ x. Fits false (uint w8) no_tag big_endian x) xs
All-bytes [] h = tt
All-bytes (x ∷ xs) (h, hs) = ((refl, h), All-bytes xs hs)

pub length-each_byte :
    (xs : List ℕ) → length (each (write_fixed (uint w8) big_endian) xs) ≡ length xs
unfolding write_fixed put_uint
length-each_byte [] = refl
length-each_byte (x ∷ xs) = ap suc (length-each_byte xs)

pub flap_frame-Fits :
    (f : FlapFrame) → FrameFits f → Fits false flap_frame no_tag big_endian (flap_value f)
unfolding parse_oscar_tag check_pointer struct_order unmarshal marshal_elems read_uint
flap_frame-Fits f h =
    let short = rw (← length-each_byte f.payload) at h.short in
    let all = All-bytes f.payload h.bytes_fit in
    (
      refl,
      refl,
      (
        refl,
        (refl, h.marker),
        (
          refl,
          (refl, h.kind),
          (refl, (refl, h.number), (refl, (refl, refl, all, (short, refl)), tt)),
        ),
      ),
    )

-- The frame that `f` sends next with a payload.
abbrev pub next_frame : FlapClient → ℕ → List ℕ → FlapFrame
next_frame f frame_type payload = record {
  start_marker = 42;
  frame_type = frame_type;
  sequence = f.sequence % 2 ^ 16;
  payload = payload;
}

-- A byte slice that the length field of a frame can hold.
abbrev pub IsPayload : List ℕ → Type 0
IsPayload p = All IsByte p × (length p < 2 ^ 16)

abbrev pub Sends : FlapClient → ℕ → List ℕ → List ℕ → Type 0
Sends f frame_type payload bs =
    write_frame f frame_type payload
    ≡ (ok tt, record f { output = f.output ++ bs; sequence = next_sequence f.sequence })

pub write_frame-read_frame :
    (f : FlapClient) (frame_type : ℕ) (payload : List ℕ)
    → frame_type < 256
    → IsPayload payload
    → (bs : List ℕ) × Sends f frame_type payload bs
      × ((g : FlapClient) (rest : List ℕ)
          → g.input ≡ bs ++ rest
          → read_frame g ≡ (ok (next_frame f frame_type payload), record g { input = rest }))
unfolding write_frame read_frame marshal_be unmarshal_be
write_frame-read_frame f frame_type payload k (b, short) =
    let frame = next_frame f frame_type payload in
    let fits : FrameFits frame = record {
      marker = omega arith;
      kind = k;
      number = omega arith;
      bytes_fit = b;
      short = short;
    } in
    let (bs, e, _, r) =
      unmarshal-marshal flap_frame no_tag big_endian (flap_value frame)
        (flap_frame-Fits frame fits) in
    (bs, rw (e, write_frame), λ g rest i. rw (i, r rest))

-- A run of `SendDataFrame`, and one of `ReceiveFLAP` that ends at the first error.
unfoldable pub send_all : FlapClient → List (List ℕ) → FlapClient
send_all f [] = f
send_all f (p ∷ ps) = send_all (send_data_frame f p).1 ps

unfoldable pub receive_all : ℕ → FlapClient → Result (List FlapFrame) × FlapClient
receive_all zero g = (ok [], g)
receive_all (suc n) g =
    let (r, g') = receive_flap g in
    let (rs, g'') = receive_all n g' in (r >>= λ frame. map_ok (◌∷◌ frame) rs, g'')

-- The data frames that carry the payloads, numbered on from a sequence number.
abbrev pub frames_from : ℕ → List (List ℕ) → List FlapFrame
frames_from s [] = []
frames_from s (p ∷ ps) =
    record { start_marker = 42; frame_type = flap_frame_data; sequence = s % 2 ^ 16; payload = p }
    ∷ frames_from (next_sequence s) ps

-- A run of `SendDataFrame` over payloads that fit adds some bytes to the connection. A client that
-- finds these bytes at the front of its input receives the payloads whole and in order, in frames
-- numbered on from the sender's sequence number modulo 2^16, and leaves the bytes that follow.
pub receive_all-send_all :
    (f : FlapClient) (ps : List (List ℕ))
    → All IsPayload ps
    → (bs : List ℕ) × ((send_all f ps).output ≡ f.output ++ bs)
      × ((g : FlapClient) (rest : List ℕ)
          → g.input ≡ bs ++ rest
          → receive_all (length ps) g ≡ (ok (frames_from f.sequence ps), record g { input = rest }))
unfolding send_all receive_all send_data_frame receive_flap
receive_all-send_all f [] h = ([], sym (append-nil f.output), λ g rest i. ground (arith, i))
receive_all-send_all f (p ∷ ps) (h, hs) =
    let (b, sent, received) = write_frame-read_frame f flap_frame_data p (omega arith) h in
    let f' : FlapClient = record f {
      output = f.output ++ b;
      sequence = next_sequence f.sequence;
    } in
    let (bs, out, rec) = receive_all-send_all f' ps hs in
    (
      b ++ bs,
      ap (λ (r : Result (Unit {0}) × FlapClient). (send_all r.1 ps).output) sent
          ∙ out
          ∙ append_assoc f.output b bs,
      λ g rest i.
          let got = received g (bs ++ rest) (i ∙ append_assoc b bs rest) in
          rw (got, rec (record g { input = bs ++ rest }) rest refl),
    )
