-- ===== src/Wire/Decode.antt =====
-- `UnmarshalBE`, `UnmarshalLE` and what they call, of wire/decode.go, on the types and values of
-- GoType. What a failed call leaves in the caller's variable is not kept.
use go_icq.Prelude.{ℕ, zero, suc, Option, none, some, List, [], ◌∷◌, length, if◌then◌else◌, ◌==◌}
use go_icq.Wire.Bytes.{ByteOrder, big_endian, little_endian}
use go_icq.Wire.Result.{
  Result, ok, err, panic, stuck, map_ok, eof, not_null_terminated, missing_len_prefix,
  non_optional_pointer, unsupported_type,
}
use go_icq.Wire.Reader.{Reader, pure, fail, panics, on_ok, ◌>>=◌, read_full, read_uint}
use go_icq.Wire.GoType.{
  GoType, uint, string, slice, array, struct, ptr, iface, other, Fields, end, field, Value,
  FieldValues, is_struct,
}
use go_icq.Wire.Tag.{OscarTag, no_tag, Prefix, parse_oscar_tag}
use go_icq.Wire.Encode.{width_of, check_pointer, clear_optional}

unfoldable pub unmarshal_unsigned_int : Prefix → ByteOrder → Reader ℕ
unfolding read_uint
unmarshal_unsigned_int p order = read_uint (width_of p) order

abbrev pub lift : {A : Type 0} → Result A → Reader A
lift r bs = (r, bs)

-- The bytes that a length prefix announces.
unfoldable pub read_prefixed : Prefix → ByteOrder → Reader (List ℕ)
unfolding unmarshal_unsigned_int read_full
read_prefixed p order = do n ← unmarshal_unsigned_int p order; read_full n

-- The last byte of a string must be its terminator, which is cut off.
unfoldable pub strip_terminator : List ℕ → Result (List ℕ)
strip_terminator [] = err not_null_terminated
strip_terminator (b ∷ []) = if b == 0 then ok [] else err not_null_terminated
strip_terminator (b ∷ c ∷ bs) = map_ok (◌∷◌ b) (strip_terminator (c ∷ bs))

unfoldable pub string_body : OscarTag → List ℕ → Result (List ℕ)
unfolding strip_terminator
string_body tag [] = ok []
string_body tag (b ∷ bs) = if tag.null_terminated then strip_terminator (b ∷ bs) else ok (b ∷ bs)

unfoldable pub read_string : Option Prefix → OscarTag → ByteOrder → Reader (List ℕ)
unfolding read_prefixed string_body
read_string none tag order = fail missing_len_prefix
read_string (some p) tag order = do buf ← read_prefixed p order; lift (string_body tag buf)

unfoldable pub unmarshal_string : OscarTag → ByteOrder → Reader (List ℕ)
unfolding read_string
unmarshal_string tag order = read_string tag.len_prefix tag order

-- The three loops of `unmarshalSlice`. Each reads one element with `read`.
-- Over the buffer of a length prefix: until it is empty. A round that reads nothing would go on for
-- ever; with as much fuel as bytes the loop is `stuck` only then.
unfoldable pub read_until_empty : {A : Type 0} → ℕ → Reader A → Reader (List A)
read_until_empty fuel read [] = (ok [], [])
read_until_empty zero read (b ∷ bs) = (stuck, b ∷ bs)
read_until_empty (suc fuel) read (b ∷ bs) =
    on_ok (read (b ∷ bs)) λ a. read_until_empty fuel read >>= λ elems. pure (a ∷ elems)

-- As often as a count prefix says.
unfoldable pub read_count : {A : Type 0} → ℕ → Reader A → Reader (List A)
read_count zero read bs = (ok [], bs)
read_count (suc n) read bs = on_ok (read bs) λ a. read_count n read >>= λ elems. pure (a ∷ elems)

-- Without a prefix: until an element ends in io.EOF, which is then dropped with what it has read.
abbrev pub or_end :
    {A : Type 0} → Result A × List ℕ → (A → Reader (List A)) → Result (List A) × List ℕ
or_end (ok a, bs) f = f a bs
or_end (err eof, bs) f = (ok [], bs)
or_end (err e, bs) f = (err e, bs)
or_end (panic, bs) f = (panic, bs)
or_end (stuck, bs) f = (stuck, bs)

unfoldable pub read_rest : {A : Type 0} → ℕ → Reader A → Reader (List A)
read_rest zero read bs = (stuck, bs)
read_rest (suc fuel) read bs =
    or_end (read bs) λ a. read_rest fuel read >>= λ elems. pure (a ∷ elems)

-- The length prefix counts if there is one, then the count prefix.
unfoldable pub read_slice :
    {A : Type 0} → Option Prefix → Option Prefix → ByteOrder → Reader A → Reader (List A)
unfolding read_until_empty read_count read_rest read_prefixed unmarshal_unsigned_int
read_slice (some p) c order read = do
  buf ← read_prefixed p order
  lift (read_until_empty (length buf) read buf).0
read_slice none (some p) order read = do n ← unmarshal_unsigned_int p order; read_count n read
read_slice none none order read = λ bs. read_rest (suc (length bs)) read bs

-- `unmarshalSlice`, with the reader of one element.
unfoldable pub unmarshal_slice : {A : Type 0} → OscarTag → ByteOrder → Reader A → Reader (List A)
unfolding read_slice
unmarshal_slice tag order read = read_slice tag.len_prefix tag.count_prefix order read

-- A length prefix gives the fields of a struct a buffer of their own, and what they leave of it is
-- dropped.
unfoldable pub read_struct : {A : Type 0} → Option Prefix → ByteOrder → Reader A → Reader A
unfolding read_prefixed
read_struct (some p) order read = do buf ← read_prefixed p order; lift (read buf).0
read_struct none order read = read

-- `unmarshalStruct`, with the reader of its fields.
unfoldable pub unmarshal_struct : {A : Type 0} → OscarTag → ByteOrder → Reader A → Reader A
unfolding read_struct
unmarshal_struct tag order read = read_struct tag.len_prefix order read

-- An optional struct is absent where reading it ends in io.EOF.
abbrev pub or_absent : {A : Type 0} → Result A × List ℕ → Result (Option A) × List ℕ
or_absent (ok a, bs) = (ok (some a), bs)
or_absent (err eof, bs) = (ok none, bs)
or_absent (err e, bs) = (err e, bs)
or_absent (panic, bs) = (panic, bs)
or_absent (stuck, bs) = (stuck, bs)

-- The tag `optional` on a type with no pointer ends in a panic of package reflect.
abbrev pub unless_optional : {A : Type 0} → OscarTag → Reader A → Reader A
unless_optional tag r = if tag.optional then panics else r

unfoldable mutual
  -- `unmarshal` after its tag has been parsed.
  pub unmarshal : (t : GoType) → OscarTag → ByteOrder → Reader (Value t)
  unmarshal (uint w) tag order = unless_optional tag (read_uint w order)
  unmarshal string tag order = unless_optional tag (unmarshal_string tag order)
  unmarshal (slice t) tag order =
      unless_optional tag (unmarshal_slice tag order (unmarshal t no_tag order))
  unmarshal (array n t) tag order = unless_optional tag (read_count n (unmarshal t no_tag order))
  unmarshal (struct name fs) tag order =
      unless_optional tag (unmarshal_struct tag order (unmarshal_fields fs order))
  unmarshal (ptr t) tag order =
      if tag.optional
      then if is_struct t
        then (λ bs. or_absent (unmarshal t (clear_optional tag) order bs))
        else panics
      else fail non_optional_pointer
  unmarshal (iface t) tag order = unless_optional tag (fail unsupported_type)
  unmarshal other tag order = unless_optional tag (fail unsupported_type)

  pub unmarshal_fields : (fs : Fields) → ByteOrder → Reader (FieldValues fs)
  unmarshal_fields end order = pure tt
  unmarshal_fields (field tag t fs) order = do
    _ ← lift (check_pointer t fs)
    parsed ← lift (parse_oscar_tag tag)
    v ← unmarshal t parsed order
    vs ← unmarshal_fields fs order
    pure (v, vs)

unfoldable pub unmarshal_be : (t : GoType) → Reader (Value t)
unmarshal_be t = unmarshal t no_tag big_endian

unfoldable pub unmarshal_le : (t : GoType) → Reader (Value t)
unmarshal_le t = unmarshal t no_tag little_endian
