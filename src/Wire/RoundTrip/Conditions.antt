-- ===== src/Wire/RoundTrip/Conditions.antt =====
-- Which values wire/encode.go writes in a form that wire/decode.go reads back: a condition on the
-- type, its tags and the value.
use go_icq.Prelude.{
  ℕ, ◌<◌, ◌≡◌, Bool, true, false, ◌&&◌, ◌||◌, Option, none, some, List, [], length, All,
}
use go_icq.Wire.Bytes.{IsByte, ByteOrder, modulus}
use go_icq.Wire.Result.{Result, ok, err, eof}
use go_icq.Wire.GoType.{
  GoType, uint, string, slice, array, struct, ptr, iface, other, Fields, end, field, Value,
  FieldValues, is_struct, is_end,
}
use go_icq.Wire.Tag.{OscarTag, no_tag, Prefix, parse_oscar_tag}
use go_icq.Wire.Encode.{
  width_of, with_terminator, marshal_elems, marshal, marshal_fields, struct_order, check_pointer,
  clear_optional,
}
use go_icq.Wire.Decode.{unmarshal}

-- Numbers, and arrays of such: binary.Write writes these as `marshal` would.
abbrev pub is_flat : GoType → Bool
is_flat (uint w) = true
is_flat (array n t) = is_flat t
is_flat _ = false

abbrev pub encoded_length : Result (List ℕ) → ℕ
encoded_length (ok bs) = length bs
encoded_length _ = 0

-- At the end of the input decoding the type ends in io.EOF.
abbrev pub NeedsInput : GoType → OscarTag → ByteOrder → Type 0
NeedsInput t tag order = unmarshal t tag order [] ≡ (err eof, [])

abbrev pub FitsString : Option Prefix → ℕ → Type 0
FitsString none n = ⊥
FitsString (some p) n = n < modulus (width_of p)

-- A length prefix has room for the `bytes`, or a count prefix for the `count`; without a prefix the
-- slice stands last. An element that `wants` input ends a loop that goes by the bytes.
abbrev pub SliceRoom : Bool → Option Prefix → Option Prefix → ℕ → ℕ → Type 0 → Type 0
SliceRoom last (some p) c bytes count wants = (bytes < modulus (width_of p)) × wants
SliceRoom last none (some p) bytes count wants = count < modulus (width_of p)
SliceRoom last none none bytes count wants = (last ≡ true) × wants

-- A length prefix gives the fields a buffer, and so an end, of their own.
abbrev pub FitsStruct : Bool → Option Prefix → (Bool → Type 0) → ℕ → Type 0
FitsStruct last none P bytes = P last
FitsStruct last (some p) P bytes = P true × (bytes < modulus (width_of p))

abbrev pub FitsField : Result OscarTag → (OscarTag → Type 0) → Type 0
FitsField (ok tag) P = P tag
FitsField _ P = ⊥

abbrev mutual
  pub Fits : Bool → (t : GoType) → OscarTag → ByteOrder → Value t → Type 0
  Fits last (uint w) tag order v = (tag.optional ≡ false) × (v < modulus w)
  Fits last string tag order v =
      (tag.optional ≡ false)
      × All IsByte v
      × FitsString tag.len_prefix (length (with_terminator tag v))
  Fits last (slice t) tag order v =
      (tag.optional ≡ false)
      × ((is_struct t || is_flat t) ≡ true)
      × All (λ x. Fits false t no_tag order x) v
      × SliceRoom last tag.len_prefix tag.count_prefix
          (encoded_length (marshal_elems t order (marshal t no_tag order) v)) (length v)
          (NeedsInput t no_tag order)
  Fits last (array n t) tag order v =
      (tag.optional ≡ false)
      × ((is_struct t || is_flat t) ≡ true)
      × All (λ x. Fits false t no_tag order x) v
      × (length v ≡ n)
  Fits last (struct name fs) tag order v =
      (tag.optional ≡ false)
      × (struct_order name order ≡ order)
      × FitsStruct last tag.len_prefix (λ end_of_buffer. FitsFields end_of_buffer fs order v)
          (encoded_length (marshal_fields fs order v))
  Fits last (ptr t) tag order none =
      (tag.optional ≡ true)
      × (is_struct t ≡ true)
      × (last ≡ true)
      × NeedsInput t (clear_optional tag) order
  Fits last (ptr t) tag order (some v) =
      (tag.optional ≡ true) × (is_struct t ≡ true) × Fits last t (clear_optional tag) order v
  Fits last (iface t) tag order v = ⊥
  Fits last other tag order v = ⊥

  pub FitsFields : Bool → (fs : Fields) → ByteOrder → FieldValues fs → Type 0
  FitsFields last end order v = Unit {0}
  FitsFields last (field tag t fs) order v =
      (check_pointer t fs ≡ ok tt)
      × FitsField (parse_oscar_tag tag) (λ parsed. Fits (last && is_end fs) t parsed order v.0)
      × FitsFields last fs order v.1
