-- ===== src/Wire/Flap.antt =====
-- `FlapClient` of wire/frames.go. The reader is the bytes that have arrived and are not read, the
-- writer the bytes that have been sent; each method is one step, as under its mutex.
pub mod Transfer
pub mod Snac
pub mod Oversize
pub mod Signon
use go_icq.Prelude.{ℕ, ◌+◌, ◌%◌, ◌^◌, Option, some, none, List, [], ◌∷◌, ◌++◌, map}
use go_icq.Wire.Result.{Result, ok, err, panic, stuck, nil_snac, ◌>>=◌, map_ok}
use go_icq.Wire.GoType.{GoType, Value}
use go_icq.Wire.Encode.{marshal_be}
use go_icq.Wire.Decode.{unmarshal_be}
use go_icq.Wire.Messages.{
  Tlv, tlv_value, of_tlv_value, tlv_rest_block, FlapFrame, flap_frame, flap_value, of_flap_value,
  flap_signon_frame, flap_frame_disconnect, SnacFrame, snac_frame, snac_value, of_snac_value,
}

abbrev pub flap_frame_signon : ℕ
flap_frame_signon = 0x01

abbrev pub flap_frame_data : ℕ
flap_frame_data = 0x02

abbrev pub flap_frame_error : ℕ
flap_frame_error = 0x03

abbrev pub flap_frame_signoff : ℕ
flap_frame_signoff = 0x04

abbrev pub flap_frame_keep_alive : ℕ
flap_frame_keep_alive = 0x05

pub record FlapClient : Type 0 where
  pub sequence : ℕ
  pub input : List ℕ
  pub output : List ℕ

pub new_flap_client : ℕ → List ℕ → FlapClient
new_flap_client start_seq input = record { sequence = start_seq; input = input; output = [] }

-- `f.sequence++` on a uint32.
abbrev pub next_sequence : ℕ → ℕ
next_sequence s = (s + 1) % 2 ^ 32

-- The tail of each method that sends a frame: marshal it to the writer, and count it if that worked.
unfoldable pub write_frame : FlapClient → ℕ → List ℕ → Result (Unit {0}) × FlapClient
write_frame f frame_type payload =
    let frame : FlapFrame = record {
      start_marker = 42;
      frame_type = frame_type;
      sequence = f.sequence % 2 ^ 16;
      payload = payload;
    } in
    elim (marshal_be flap_frame (flap_value frame)) [
      | ok bs ↦ (ok tt, record f { output = f.output ++ bs; sequence = next_sequence f.sequence })
      | err e ↦ (err e, f)
      | panic ↦ (panic, f)
      | stuck ↦ (stuck, f)
    ]

-- What is marshalled to a buffer first.
abbrev pub with_payload :
    FlapClient
    → Result (List ℕ)
    → (List ℕ → Result (Unit {0}) × FlapClient)
    → Result (Unit {0}) × FlapClient
with_payload f (ok bs) k = k bs
with_payload f (err e) k = (err e, f)
with_payload f panic k = (panic, f)
with_payload f stuck k = (stuck, f)

unfoldable pub send_signon_frame : FlapClient → List Tlv → Result (Unit {0}) × FlapClient
send_signon_frame f tlvs =
    with_payload f (marshal_be flap_signon_frame ((map tlv_value tlvs, tt), (1, tt)))
      λ payload. write_frame f flap_frame_signon payload

unfoldable pub send_data_frame : FlapClient → List ℕ → Result (Unit {0}) × FlapClient
send_data_frame f payload = write_frame f flap_frame_data payload

unfoldable pub send_keep_alive_frame : FlapClient → Result (Unit {0}) × FlapClient
send_keep_alive_frame f = write_frame f flap_frame_keep_alive []

-- The body is an interface: nil, or a value with its type.
unfoldable pub marshal_body : Option ((t : GoType) × Value t) → Result (List ℕ)
marshal_body none = err nil_snac
marshal_body (some (t, v)) = marshal_be t v

unfoldable pub send_snac :
    FlapClient → SnacFrame → Option ((t : GoType) × Value t) → Result (Unit {0}) × FlapClient
unfolding marshal_body
send_snac f frame body =
    with_payload f
      (do
        head ← marshal_be snac_frame (snac_value frame)
        tail ← marshal_body body
        ok (head ++ tail))
      λ payload. write_frame f flap_frame_data payload

-- The disconnect frame has no payload and is not counted.
unfoldable pub old_signoff : FlapClient → Result (Unit {0}) × FlapClient
old_signoff f =
    with_payload f
      (marshal_be flap_frame_disconnect (42, (flap_frame_signoff, (f.sequence % 2 ^ 16, tt))))
      λ bs. (ok tt, record f { output = f.output ++ bs })

unfoldable pub new_signoff : FlapClient → List Tlv → Result (Unit {0}) × FlapClient
new_signoff f tlvs =
    with_payload f (marshal_be tlv_rest_block (map tlv_value tlvs, tt))
      λ payload. write_frame f flap_frame_signoff payload

-- Reading a frame takes its bytes off the input, as far as they were read when an error came.
unfoldable pub read_frame : FlapClient → Result FlapFrame × FlapClient
read_frame f =
    let (r, rest) = unmarshal_be flap_frame f.input in
    (map_ok of_flap_value r, record f { input = rest })

-- `ReceiveFLAP`. With an error it also returns what was read of the frame, which is not kept here.
unfoldable pub receive_flap : FlapClient → Result FlapFrame × FlapClient
receive_flap f = read_frame f

-- The TLVs and the version of a signon frame.
unfoldable pub receive_signon_frame : FlapClient → Result (List Tlv × ℕ) × FlapClient
receive_signon_frame f =
    let (frame, f') = read_frame f in
    (
      frame >>= λ flap.
          map_ok (λ v. (map of_tlv_value v.0.0, v.1.0))
            (unmarshal_be flap_signon_frame flap.payload).0,
      f',
    )

-- The SNAC frame and the body, of the type that the caller asks for.
unfoldable pub receive_snac : (t : GoType) → FlapClient → Result (SnacFrame × Value t) × FlapClient
receive_snac t f =
    let (frame, f') = read_frame f in
    (
      frame >>= λ flap.
          let (head, buf) = unmarshal_be snac_frame flap.payload in
          head >>= λ h. map_ok (λ body. (of_snac_value h, body)) (unmarshal_be t buf).0,
      f',
    )
