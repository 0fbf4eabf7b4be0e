-- ===== src/Wire/Flap/Signon.antt =====
-- `ReceiveSignonFrame` of wire/frames.go, whose frame type has its TLV block before the version.
use go_icq.Prelude.{
  ℕ, zero, suc, ◌≡◌, ◌≢◌, refl, ap, ◌∙◌, ◌⊎◌, inl, inr, List, [], ◌∷◌, length, arith, none, some,
}
use go_icq.Wire.Bytes.{ByteOrder, Width, w8, w16, w32, big_endian, size}
use go_icq.Wire.Result.{Result, ok, err, panic, stuck, Error, eof, map_ok, ◌>>=◌}
use go_icq.Wire.Reader.{Reader, pure, on_ok, on_ok-eq-ok, read_full, read_uint}
use go_icq.Wire.GoType.{Value}
use go_icq.Wire.Tag.{no_tag, Prefix, uint16, parse_oscar_tag}
use go_icq.Wire.Encode.{check_pointer, width_of}
use go_icq.Wire.Decode.{
  unmarshal, unmarshal_be, unmarshal_slice, read_slice, read_rest, read_until_empty, read_prefixed,
  unmarshal_unsigned_int, unmarshal_struct, read_struct, lift, or_end,
}
use go_icq.Wire.Messages.{Tlv, tlv, tlv_rest_block, flap_signon_frame}
use go_icq.Wire.Flap.{FlapClient, read_frame, receive_signon_frame}

-- A reader that ends in io.EOF has read everything.
abbrev EofAtEnd : {A : Type 0} → Reader A → Type 0
EofAtEnd read = (bs rest : List ℕ) → read bs ≡ (err eof, rest) → rest ≡ []

on_ok-EofAtEnd :
    {A B : Type 0} (read : Reader A) (f : A → Reader B)
    → EofAtEnd read
    → ((a : A) → EofAtEnd (f a))
    → EofAtEnd (λ bs. on_ok (read bs) f)
on_ok-EofAtEnd {A} {B} read f h k bs rest e = go (read bs) refl e
  where
    go : (r : Result A × List ℕ) → read bs ≡ r → on_ok r f ≡ (err eof, rest) → rest ≡ []
    go (ok a, bs') p e = k a bs' rest e
    go (err x, bs') p e = h bs rest (p ∙ cc)
    go (panic, bs') p e = cc
    go (stuck, bs') p e = cc

read_full-EofAtEnd : (n : ℕ) → EofAtEnd (read_full n)
unfolding read_full
read_full-EofAtEnd n bs rest e = ground arith

read_uint-EofAtEnd : (w : Width) (o : ByteOrder) → EofAtEnd (read_uint w o)
unfolding read_uint
read_uint-EofAtEnd w o =
    on_ok-EofAtEnd (read_full (size w)) _ (read_full-EofAtEnd (size w)) (λ a bs rest e. cc)

-- Reading single bytes out of a buffer never ends in an error.
bytes_no_error :
    (fuel : ℕ) (bs : List ℕ) (e : Error)
    → (read_until_empty fuel (read_uint w8 big_endian) bs).0 ≢ err e
unfolding read_until_empty read_uint read_full
bytes_no_error fuel [] e h = cc
bytes_no_error zero (b ∷ bs) e h = cc
bytes_no_error (suc fuel) (b ∷ bs) e h = ground (arith, bytes_no_error fuel bs e)

read_prefixed-EofAtEnd : (p : Prefix) (o : ByteOrder) → EofAtEnd (read_prefixed p o)
unfolding read_prefixed unmarshal_unsigned_int
read_prefixed-EofAtEnd p o =
    on_ok-EofAtEnd (read_uint (width_of p) o) read_full (read_uint-EofAtEnd (width_of p) o)
      read_full-EofAtEnd

bytes-EofAtEnd :
    (p : Prefix) → EofAtEnd (read_slice (some p) none big_endian (read_uint w8 big_endian))
unfolding read_slice
bytes-EofAtEnd p =
    on_ok-EofAtEnd (read_prefixed p big_endian)
      (λ buf. lift (read_until_empty (length buf) (read_uint w8 big_endian) buf).0)
      (read_prefixed-EofAtEnd p big_endian)
      (λ buf bs rest e.
        absurd (bytes_no_error (length buf) buf eof (ap (λ (r : Result (List ℕ) × List ℕ). r.0) e)))

tlv-EofAtEnd : EofAtEnd (unmarshal tlv no_tag big_endian)
unfolding unmarshal unmarshal_slice unmarshal_struct check_pointer parse_oscar_tag
tlv-EofAtEnd =
    on_ok-EofAtEnd (read_uint w16 big_endian) _ (read_uint-EofAtEnd w16 big_endian) λ tag.
      on_ok-EofAtEnd _ (λ vs. pure (tag, vs))
        (on_ok-EofAtEnd (read_slice (some uint16) none big_endian (read_uint w8 big_endian))
          (λ v. pure (v, tt)) (bytes-EofAtEnd uint16) (λ value bs rest e. cc))
        (λ value bs rest e. cc)

or_end-eq-ok :
    {A : Type 0} (r : Result A × List ℕ) (f : A → Reader (List A)) {xs : List A} {rest : List ℕ}
    → or_end r f ≡ (ok xs, rest)
    → (r ≡ (err eof, rest)) ⊎ ((a : A) × (bs : List ℕ) × (f a bs ≡ (ok xs, rest)))
or_end-eq-ok (ok a, bs) f e = inr (a, bs, e)
or_end-eq-ok (err eof, bs) f e = inl (cc)
or_end-eq-ok (err x, bs) f e = cc
or_end-eq-ok (panic, bs) f e = cc
or_end-eq-ok (stuck, bs) f e = cc

-- The loop over a slice without a prefix leaves nothing, if its elements do.
read_rest-at_end :
    {A : Type 0} (read : Reader A) (fuel : ℕ) (bs rest : List ℕ) (xs : List A)
    → EofAtEnd read
    → read_rest fuel read bs ≡ (ok xs, rest)
    → rest ≡ []
unfolding read_rest
read_rest-at_end read zero bs rest xs h e = cc
read_rest-at_end read (suc fuel) bs rest xs h e = elim (or_end-eq-ok (read bs) _ e) [
  | inl p ↦ h bs rest p
  | inr (a, bs', p) ↦
      let (ys, bs'', q, r) = on_ok-eq-ok (read_rest fuel read bs') _ p in
      read_rest-at_end read fuel bs' rest ys h (q ∙ cc)
]

only_field :
    {A : Type 0} (r : Result A × List ℕ) {v : A × Unit {0}} {rest : List ℕ}
    → on_ok r (λ a. pure (a, tt)) ≡ (ok v, rest)
    → r ≡ (ok v.0, rest)
only_field (ok a, bs) e = cc
only_field (err x, bs) e = cc
only_field (panic, bs) e = cc
only_field (stuck, bs) e = cc

rest_block-at_end :
    (bs rest : List ℕ) (v : Value tlv_rest_block)
    → unmarshal tlv_rest_block no_tag big_endian bs ≡ (ok v, rest)
    → rest ≡ []
unfolding unmarshal unmarshal_slice unmarshal_struct read_struct read_slice check_pointer
    parse_oscar_tag
rest_block-at_end bs rest v e =
    read_rest-at_end (unmarshal tlv no_tag big_endian) (suc (length bs)) bs rest v.0 tlv-EofAtEnd
      (only_field (read_rest (suc (length bs)) (unmarshal tlv no_tag big_endian) bs) e)

-- Nothing is left for the version behind the block.
version_missing :
    (payload rest : List ℕ) (v : Value flap_signon_frame)
    → unmarshal_be flap_signon_frame payload ≢ (ok v, rest)
unfolding unmarshal_be unmarshal unmarshal_struct read_struct read_uint read_full check_pointer
    parse_oscar_tag
version_missing payload rest v e =
    let (block, bs, p, q) =
      on_ok-eq-ok (unmarshal tlv_rest_block no_tag big_endian payload)
        (λ block bs.
          on_ok (on_ok (read_uint w32 big_endian bs) (λ v. pure (v, tt))) (λ vs. pure (block, vs)))
        e in
    let nothing = rest_block-at_end payload bs block p in let starved = rw nothing at q in cc

map_ok-ne-ok :
    {A B : Type 0} (r : Result A × List ℕ) (f : A → B) (b : B)
    → ((a : A) (rest : List ℕ) → r ≢ (ok a, rest))
    → map_ok f r.0 ≢ ok b
map_ok-ne-ok (ok a, bs) f b h e = h a bs refl
map_ok-ne-ok (err x, bs) f b h e = cc
map_ok-ne-ok (panic, bs) f b h e = cc
map_ok-ne-ok (stuck, bs) f b h e = cc

bind-ne-ok :
    {A B : Type 0} (r : Result A) (f : A → Result B) (b : B)
    → ((a : A) → f a ≢ ok b)
    → (r >>= f) ≢ ok b
bind-ne-ok (ok a) f b h e = h a e
bind-ne-ok (err x) f b h e = cc
bind-ne-ok panic f b h e = cc
bind-ne-ok stuck f b h e = cc

-- Whatever has arrived, `ReceiveSignonFrame` does not succeed: the TLV block of `FLAPSignonFrame`
-- takes all of the payload, and the version behind it is never there.
pub receive_signon_frame-fails :
    (f : FlapClient) (r : List Tlv × ℕ) → (receive_signon_frame f).0 ≢ ok r
unfolding receive_signon_frame
receive_signon_frame-fails f r = bind-ne-ok (read_frame f).0 _ r λ flap.
    map_ok-ne-ok (unmarshal_be flap_signon_frame flap.payload) _ r
      λ v rest. version_missing flap.payload rest v
