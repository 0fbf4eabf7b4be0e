-- ===== src/Wire/Snacs/Carried.antt =====
-- A codable message type carries every value in range, by wire/encode.go and wire/decode.go.
use go_icq.Prelude.{
  ℕ, zero, suc, ◌≡◌, refl, ◌⊎◌, inl, inr, Bool, true, false, ◌&&◌, ◌||◌, not, Option, none, some,
  List, [], ◌++◌, String, All, All-map, str_eq, and_parts,
}
use go_icq.Wire.Bytes.{Width, w8, w16, w32, w64, IsByte, ByteOrder, big_endian, little_endian}
use go_icq.Wire.Result.{Result, ok, err, panic, stuck, eof}
use go_icq.Wire.Reader.{read_uint, read_full, Reader, on_ok, pure}
use go_icq.Wire.GoType.{
  GoType, uint, string, slice, array, struct, ptr, iface, other, Fields, end, field, Value,
  FieldValues, is_struct, is_ptr, is_end,
}
use go_icq.Wire.Tag.{OscarTag, no_tag, Prefix, parse_oscar_tag}
use go_icq.Wire.Encode.{
  width_of, marshal, marshal_be, marshal_le, struct_order, check_pointer, clear_optional,
}
use go_icq.Wire.Decode.{
  unmarshal, unmarshal_be, unmarshal_le, unmarshal_fields, unmarshal_slice, unmarshal_string,
  unmarshal_struct, read_slice, read_string, read_struct, read_prefixed, unmarshal_unsigned_int,
  read_count, lift, unless_optional,
}
use go_icq.Wire.RoundTrip.{unmarshal-marshal, unmarshal_be-marshal_be, unmarshal_le-marshal_le}
use go_icq.Wire.RoundTrip.Conditions.{
  Fits, FitsFields, FitsField, FitsStruct, FitsString, SliceRoom, NeedsInput,
}
use go_icq.Wire.Snacs.Codable.{
  wants_input, fields_want, codable, points_to_struct, fields_codable, slice_codable, has_prefix,
  on_tag, Room, InRange, InRangeFields, InRangeField,
}

is_false : (b : Bool) → not b ≡ true → b ≡ false
is_false true h = cc
is_false false h = refl

or_parts : (a b : Bool) → (a || b) ≡ true → (a ≡ true) ⊎ (b ≡ true)
or_parts true b h = inl refl
or_parts false b h = inr h

-- At the end of the input.
uint-NeedsInput : (w : Width) (order : ByteOrder) → read_uint w order [] ≡ (err eof, [])
unfolding read_uint read_full
uint-NeedsInput w8 order = refl
uint-NeedsInput w16 order = refl
uint-NeedsInput w32 order = refl
uint-NeedsInput w64 order = refl

prefixed-NeedsInput : (p : Prefix) (order : ByteOrder) → read_prefixed p order [] ≡ (err eof, [])
unfolding read_prefixed unmarshal_unsigned_int
prefixed-NeedsInput p order = rw (uint-NeedsInput (width_of p) order)

slice-NeedsInput :
    {A : Type 0} (l c : Option Prefix) (order : ByteOrder) (read : Reader A)
    → (has_prefix l || has_prefix c) ≡ true
    → read_slice l c order read [] ≡ (err eof, [])
unfolding read_slice unmarshal_unsigned_int
slice-NeedsInput (some p) c order read h = rw (prefixed-NeedsInput p order)
slice-NeedsInput none (some p) order read h = rw (uint-NeedsInput (width_of p) order)
slice-NeedsInput none none order read h = cc

struct-NeedsInput :
    {A : Type 0} (l : Option Prefix) (order : ByteOrder) (read : Reader A) (b : Bool)
    → (has_prefix l || b) ≡ true
    → (b ≡ true → read [] ≡ (err eof, []))
    → read_struct l order read [] ≡ (err eof, [])
unfolding read_struct
struct-NeedsInput (some p) order read b h e = rw (prefixed-NeedsInput p order)
struct-NeedsInput none order read b h e = e h

string-NeedsInput :
    (l : Option Prefix) (tag : OscarTag) (order : ByteOrder)
    → has_prefix l ≡ true
    → read_string l tag order [] ≡ (err eof, [])
unfolding read_string
string-NeedsInput (some p) tag order h = rw (prefixed-NeedsInput p order)
string-NeedsInput none tag order h = cc

checked :
    (t : GoType) (fs : Fields)
    → (not (is_ptr t) || (is_end fs && points_to_struct t)) ≡ true
    → check_pointer t fs ≡ ok tt
unfolding check_pointer
checked (ptr t) fs h = let (e, s) = and_parts (is_end fs) (is_struct t) h in rw (e, s)
checked _ fs h = refl

not_pointer : (t : GoType) (b : Bool) → not (is_ptr t) ≡ true → (not (is_ptr t) || b) ≡ true
not_pointer t b h = rw h

field-NeedsInput :
    {A B : Type 0} (c : Result (Unit {0})) (p : Result OscarTag) (f : OscarTag → Bool)
    (read : OscarTag → Reader A) (reads : Reader B)
    → c ≡ ok tt
    → on_tag p f ≡ true
    → ((tag : OscarTag) → f tag ≡ true → read tag [] ≡ (err eof, []))
    → on_ok (lift c []) (λ _ bs0.
      on_ok (lift p bs0) (λ tag bs.
        on_ok (read tag bs) (λ v bs'. on_ok (reads bs') (λ vs. pure {A = A × B} (v, vs)))))
      ≡ (err eof, [])
field-NeedsInput c (ok tag) f read reads o h e = rw (o, e tag h)
field-NeedsInput c (err x) f read reads o h e = cc
field-NeedsInput c panic f read reads o h e = cc
field-NeedsInput c stuck f read reads o h e = cc

unless_optional-NeedsInput :
    {A : Type 0} (tag : OscarTag) (read : Reader A)
    → not tag.optional ≡ true
    → read [] ≡ (err eof, [])
    → unless_optional tag read [] ≡ (err eof, [])
unless_optional-NeedsInput tag read o e = rw (is_false tag.optional o, e)

mutual
  unfolding unmarshal unmarshal_slice unmarshal_string unmarshal_struct wants_input read_count
      check_pointer

  wants_input-NeedsInput :
      (t : GoType) (tag : OscarTag) (order : ByteOrder)
      → wants_input t tag ≡ true
      → NeedsInput t tag order
  wants_input-NeedsInput (uint w) tag order h = rw (is_false _ h, uint-NeedsInput w order)
  wants_input-NeedsInput string tag order h =
      let (o, p) = and_parts _ _ h in
      unless_optional-NeedsInput tag _ o (string-NeedsInput tag.len_prefix tag order p)
  wants_input-NeedsInput (slice t) tag order h =
      let (o, p) = and_parts _ _ h in
      unless_optional-NeedsInput tag _ o
        (slice-NeedsInput tag.len_prefix tag.count_prefix order (unmarshal t no_tag order) p)
  wants_input-NeedsInput (array zero t) tag order h = cc
  wants_input-NeedsInput (array (suc n) t) tag order h =
      let (o, p) = and_parts _ _ h in
      unless_optional-NeedsInput tag (read_count (suc n) (unmarshal t no_tag order)) o
        (rw (wants_input-NeedsInput t no_tag order p))
  wants_input-NeedsInput (struct name fs) tag order h =
      let (o, p) = and_parts _ _ h in
      unless_optional-NeedsInput tag _ o (
        struct-NeedsInput tag.len_prefix order (unmarshal_fields fs order) (fields_want fs) p
          (fields_want-NeedsInput fs order))
  wants_input-NeedsInput (ptr t) tag order h = cc
  wants_input-NeedsInput (iface t) tag order h = cc
  wants_input-NeedsInput other tag order h = cc

  fields_want-NeedsInput :
      (fs : Fields) (order : ByteOrder)
      → fields_want fs ≡ true
      → unmarshal_fields fs order [] ≡ (err eof, [])
  fields_want-NeedsInput end order h = cc
  fields_want-NeedsInput (field tag t fs) order h =
      let (n, wants) = and_parts _ _ h in
      field-NeedsInput (check_pointer t fs) (parse_oscar_tag tag) (λ parsed. wants_input t parsed)
        (λ parsed. unmarshal t parsed order) (unmarshal_fields fs order)
        (checked t fs (not_pointer t (is_end fs && points_to_struct t) n)) wants
        (λ parsed. wants_input-NeedsInput t parsed order)

string-Room : (l : Option Prefix) (n : ℕ) → has_prefix l ≡ true → Room l n → FitsString l n
string-Room none n h r = cc
string-Room (some p) n h r = r

slice_room :
    (last : Bool) (l c : Option Prefix) (bytes count : ℕ) (wants : Bool) {W : Type 0}
    → slice_codable last l c wants ≡ true
    → (wants ≡ true → W)
    → Room l bytes
    → Room c count
    → SliceRoom last l c bytes count W
slice_room last (some p) c bytes count wants h w r s = (r, w h)
slice_room last none (some p) bytes count wants h w r s = s
slice_room last none none bytes count wants h w r s = let (a, b) = and_parts _ _ h in (a, w b)

struct-Room :
    (last : Bool) (l : Option Prefix) (P : Bool → Type 0) (n : ℕ)
    → P (last || has_prefix l)
    → Room l n
    → FitsStruct last l P n
struct-Room true none P n h r = h
struct-Room false none P n h r = h
struct-Room true (some p) P n h r = (h, r)
struct-Room false (some p) P n h r = (h, r)

FitsField-codable :
    (p : Result OscarTag) (f : OscarTag → Bool) {P Q : OscarTag → Type 0}
    → on_tag p f ≡ true
    → InRangeField p P
    → ((tag : OscarTag) → f tag ≡ true → P tag → Q tag)
    → FitsField p Q
FitsField-codable (ok tag) f h r step = step tag h r
FitsField-codable (err e) f h r step = cc
FitsField-codable panic f h r step = cc
FitsField-codable stuck f h r step = cc

same_order :
    (name : String) (order : ByteOrder)
    → not (str_eq name "ICQMessageReplyEnvelope") ≡ true
    → struct_order name order ≡ order
unfolding struct_order
same_order name order h = rw (is_false (str_eq name "ICQMessageReplyEnvelope") h)

mutual
  unfolding codable check_pointer

  codable-Fits :
      (last : Bool) (t : GoType) (tag : OscarTag) (order : ByteOrder) (v : Value t)
      → codable last t tag ≡ true
      → InRange t tag order v
      → Fits last t tag order v
  codable-Fits last (uint w) tag order v h r = (is_false _ h, r)
  codable-Fits last string tag order v h (bytes, r) =
      let (o, p) = and_parts _ _ h in (is_false _ o, bytes, string-Room tag.len_prefix _ p r)
  codable-Fits last (slice t) tag order v h (rs, l, c) =
      let (o, h1) = and_parts _ _ h in
      let (shape, h2) = and_parts _ _ h1 in
      let (elem, room) = and_parts _ _ h2 in
      (
        is_false _ o,
        shape,
        All-map (λ x. codable-Fits false t no_tag order x elem) v rs,
        slice_room last tag.len_prefix tag.count_prefix _ _ (wants_input t no_tag) room
            (wants_input-NeedsInput t no_tag order) l c,
      )
  codable-Fits last (array n t) tag order v h (rs, len) =
      let (o, h1) = and_parts _ _ h in
      let (shape, elem) = and_parts _ _ h1 in
      (is_false _ o, shape, All-map (λ x. codable-Fits false t no_tag order x elem) v rs, len)
  codable-Fits last (struct name fs) tag order v h (rs, room) =
      let (o, h1) = and_parts _ _ h in
      let (named, hs) = and_parts _ _ h1 in
      (
        is_false _ o,
        same_order name order named,
        struct-Room last tag.len_prefix (λ b. FitsFields b fs order v) _
            (codable-FitsFields _ fs order v hs rs) room,
      )
  codable-Fits last (ptr t) tag order none h r =
      let (o, h1) = and_parts _ _ h in
      let (s, h2) = and_parts _ _ h1 in
      let (at_end, h3) = and_parts _ _ h2 in
      let (wants, h4) = and_parts _ _ h3 in
      (o, s, at_end, wants_input-NeedsInput t (clear_optional tag) order wants)
  codable-Fits last (ptr t) tag order (some v) h r =
      let (o, h1) = and_parts _ _ h in
      let (s, h2) = and_parts _ _ h1 in
      let (at_end, h3) = and_parts _ _ h2 in
      let (wants, h4) = and_parts _ _ h3 in
      (o, s, codable-Fits last t (clear_optional tag) order v h4 r)
  codable-Fits last (iface t) tag order v h r = cc
  codable-Fits last other tag order v h r = cc

  codable-FitsFields :
      (last : Bool) (fs : Fields) (order : ByteOrder) (v : FieldValues fs)
      → fields_codable last fs ≡ true
      → InRangeFields fs order v
      → FitsFields last fs order v
  codable-FitsFields last end order v h r = tt
  codable-FitsFields last (field tag t fs) order (v, vs) h (r, rs) =
      let (pointer, h') = and_parts _ _ h in
      let (here, there) = and_parts _ _ h' in
      (
        checked t fs pointer,
        FitsField-codable (parse_oscar_tag tag) _ here r
            (λ parsed c x. codable-Fits (last && is_end fs) t parsed order v c x),
        codable-FitsFields last fs order vs there rs,
      )

-- A message whose type is codable is carried over whole, in either byte order.
pub codable-round_trip :
    (t : GoType) (order : ByteOrder) (v : Value t)
    → codable true t no_tag ≡ true
    → InRange t no_tag order v
    → (bs : List ℕ) × (marshal t no_tag order v ≡ ok bs)
      × All IsByte bs
      × (unmarshal t no_tag order bs ≡ (ok v, []))
unfolding marshal_be marshal_le unmarshal_be unmarshal_le
codable-round_trip t big_endian v h r =
    unmarshal_be-marshal_be t v (codable-Fits true t no_tag big_endian v h r)
codable-round_trip t little_endian v h r =
    unmarshal_le-marshal_le t v (codable-Fits true t no_tag little_endian v h r)

-- The same in front of other bytes, for a type that does not go on to the end of the input.
pub codable-carried :
    (t : GoType) (v : Value t)
    → codable false t no_tag ≡ true
    → InRange t no_tag big_endian v
    → (bs : List ℕ) × (marshal_be t v ≡ ok bs)
      × All IsByte bs
      × ((rest : List ℕ) → unmarshal_be t (bs ++ rest) ≡ (ok v, rest))
unfolding marshal_be unmarshal_be
codable-carried t v h r =
    unmarshal-marshal t no_tag big_endian v (codable-Fits false t no_tag big_endian v h r)
