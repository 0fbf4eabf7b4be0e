-- ===== src/Wire/Snacs/Codable.antt =====
-- A test on a message type and its tags, and bounds on a value, that together are enough for
-- wire/encode.go and wire/decode.go to carry the value over.
use go_icq.Prelude.{
  ℕ, zero, suc, ◌<◌, ◌≡◌, Bool, true, false, ◌&&◌, ◌||◌, not, Option, none, some, length, All,
  str_eq,
}
use go_icq.Wire.Bytes.{IsByte, ByteOrder, modulus}
use go_icq.Wire.Result.{Result, ok}
use go_icq.Wire.GoType.{
  GoType, uint, string, slice, array, struct, ptr, iface, other, Fields, end, field, Value,
  FieldValues, is_struct, is_ptr, is_end,
}
use go_icq.Wire.Tag.{OscarTag, no_tag, Prefix, parse_oscar_tag}
use go_icq.Wire.Encode.{
  width_of, with_terminator, marshal_elems, marshal, marshal_fields, clear_optional,
}
use go_icq.Wire.RoundTrip.Conditions.{is_flat, encoded_length}

abbrev pub has_prefix : Option Prefix → Bool
has_prefix none = false
has_prefix (some p) = true

abbrev pub on_tag : Result OscarTag → (OscarTag → Bool) → Bool
on_tag (ok tag) f = f tag
on_tag _ f = false

-- Whether the first thing that a type reads is a number, a prefix among them.
unfoldable mutual
  pub wants_input : GoType → OscarTag → Bool
  wants_input (uint w) tag = not tag.optional
  wants_input string tag = not tag.optional && has_prefix tag.len_prefix
  wants_input (slice t) tag =
      not tag.optional && (has_prefix tag.len_prefix || has_prefix tag.count_prefix)
  wants_input (array zero t) tag = false
  wants_input (array (suc n) t) tag = not tag.optional && wants_input t no_tag
  wants_input (struct name fs) tag =
      not tag.optional && (has_prefix tag.len_prefix || fields_want fs)
  wants_input _ tag = false

  pub fields_want : Fields → Bool
  fields_want end = false
  fields_want (field tag t fs) =
      not (is_ptr t) && on_tag (parse_oscar_tag tag) (λ parsed. wants_input t parsed)

abbrev pub points_to_struct : GoType → Bool
points_to_struct (ptr t) = is_struct t
points_to_struct _ = false

abbrev pub slice_codable : Bool → Option Prefix → Option Prefix → Bool → Bool
slice_codable last (some p) c wants = wants
slice_codable last none (some p) wants = true
slice_codable last none none wants = last && wants

-- The elements of a slice are structs or numbers, a string has a prefix, and what has no prefix stands
-- last. The order of the bytes is that of the message, which `ICQMessageReplyEnvelope` changes.
unfoldable mutual
  unfolding wants_input

  pub codable : Bool → GoType → OscarTag → Bool
  codable last (uint w) tag = not tag.optional
  codable last string tag = not tag.optional && has_prefix tag.len_prefix
  codable last (slice t) tag =
      not tag.optional
      && ((is_struct t || is_flat t)
          && (codable false t no_tag
              && slice_codable last tag.len_prefix tag.count_prefix (wants_input t no_tag)))
  codable last (array n t) tag =
      not tag.optional && ((is_struct t || is_flat t) && codable false t no_tag)
  codable last (struct name fs) tag =
      not tag.optional
      && (not (str_eq name "ICQMessageReplyEnvelope")
          && fields_codable (last || has_prefix tag.len_prefix) fs)
  codable last (ptr t) tag =
      tag.optional
      && (is_struct t
          && (last && (wants_input t (clear_optional tag) && codable last t (clear_optional tag))))
  codable last (iface t) tag = false
  codable last other tag = false

  pub fields_codable : Bool → Fields → Bool
  fields_codable last end = true
  fields_codable last (field tag t fs) =
      (not (is_ptr t) || (is_end fs && points_to_struct t))
      && (on_tag (parse_oscar_tag tag) (λ parsed. codable (last && is_end fs) t parsed)
          && fields_codable last fs)

-- A prefix has room for a number.
abbrev pub Room : Option Prefix → ℕ → Type 0
Room none n = Unit {0}
Room (some p) n = n < modulus (width_of p)

abbrev pub InRangeField : Result OscarTag → (OscarTag → Type 0) → Type 0
InRangeField (ok tag) P = P tag
InRangeField _ P = Unit {0}

-- The bounds on a value: of its numbers, of the bytes of its strings and of what its prefixes announce.
abbrev mutual
  pub InRange : (t : GoType) → OscarTag → ByteOrder → Value t → Type 0
  InRange (uint w) tag order v = v < modulus w
  InRange string tag order v = All IsByte v × Room tag.len_prefix (length (with_terminator tag v))
  InRange (slice t) tag order v =
      All (λ x. InRange t no_tag order x) v
      × Room tag.len_prefix (encoded_length (marshal_elems t order (marshal t no_tag order) v))
      × Room tag.count_prefix (length v)
  InRange (array n t) tag order v = All (λ x. InRange t no_tag order x) v × (length v ≡ n)
  InRange (struct name fs) tag order v =
      InRangeFields fs order v × Room tag.len_prefix (encoded_length (marshal_fields fs order v))
  InRange (ptr t) tag order none = Unit {0}
  InRange (ptr t) tag order (some v) = InRange t (clear_optional tag) order v
  InRange (iface t) tag order v = Unit {0}
  InRange other tag order v = Unit {0}

  pub InRangeFields : (fs : Fields) → ByteOrder → FieldValues fs → Type 0
  InRangeFields end order v = Unit {0}
  InRangeFields (field tag t fs) order v =
      InRangeField (parse_oscar_tag tag) (λ parsed. InRange t parsed order v.0)
      × InRangeFields fs order v.1
