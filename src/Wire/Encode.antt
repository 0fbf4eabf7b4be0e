-- ===== src/Wire/Encode.antt =====
-- `MarshalBE`, `MarshalLE` and what they call, of wire/encode.go, on the types and values of GoType.
-- The result is all that is written to the io.Writer, which is taken not to fail.
use go_icq.Prelude.{
  ℕ, Bool, true, false, ◌&&◌, Option, none, some, List, [], ◌∷◌, ◌++◌, String, length,
  if◌then◌else◌, str_eq,
}
use go_icq.Wire.Bytes.{Width, w8, w16, ByteOrder, big_endian, little_endian, put_uint}
use go_icq.Wire.Result.{
  Result, ok, err, panic, ◌>>=◌, pointer_not_final, pointer_not_struct, optional_non_pointer,
  non_optional_pointer, unsupported_type, interface_not_struct, elem_not_fixed,
}
use go_icq.Wire.GoType.{
  GoType, uint, string, slice, array, struct, ptr, iface, other, Fields, end, field, Value,
  FieldValues, is_struct, is_end,
}
use go_icq.Wire.Tag.{OscarTag, no_tag, Prefix, uint8, uint16, parse_oscar_tag}

abbrev pub width_of : Prefix → Width
width_of uint8 = w8
width_of uint16 = w16

-- The length is an int, and is cut to the prefix's width.
unfoldable pub marshal_unsigned_int : Prefix → ℕ → ByteOrder → List ℕ
marshal_unsigned_int p n order = put_uint (width_of p) order n

-- The prefix that a tag asks for, if it does.
abbrev pub prefix_bytes : Option Prefix → ℕ → ByteOrder → List ℕ
prefix_bytes none n order = []
prefix_bytes (some p) n order = marshal_unsigned_int p n order

abbrev pub with_terminator : OscarTag → List ℕ → List ℕ
with_terminator tag [] = []
with_terminator tag (b ∷ bs) = if tag.null_terminated then (b ∷ bs) ++ (0 ∷ []) else b ∷ bs

unfoldable pub marshal_string : OscarTag → ByteOrder → List ℕ → List ℕ
marshal_string tag order v =
    let str = with_terminator tag v in prefix_bytes tag.len_prefix (length str) order ++ str

-- `encoding/binary`: the types whose values have one size, and how binary.Write writes them.
unfoldable mutual
  pub is_fixed : GoType → Bool
  is_fixed (uint w) = true
  is_fixed (array n t) = is_fixed t
  is_fixed (struct name fs) = are_fixed fs
  is_fixed _ = false

  pub are_fixed : Fields → Bool
  are_fixed end = true
  are_fixed (field tag t fs) = is_fixed t && are_fixed fs

abbrev pub each {ℓ} : {A : Type ℓ} → (A → List ℕ) → List A → List ℕ
each f [] = []
each f (x ∷ xs) = f x ++ each f xs

unfoldable mutual
  pub write_fixed : (t : GoType) → ByteOrder → Value t → List ℕ
  write_fixed (uint w) order v = put_uint w order v
  write_fixed (array n t) order v = each (write_fixed t order) v
  write_fixed (struct name fs) order v = write_fixed_fields fs order v
  write_fixed string order v = []
  write_fixed (slice t) order v = []
  write_fixed (ptr t) order v = []
  write_fixed (iface t) order v = []
  write_fixed other order v = []

  pub write_fixed_fields : (fs : Fields) → ByteOrder → FieldValues fs → List ℕ
  write_fixed_fields end order v = []
  write_fixed_fields (field tag t fs) order v =
      write_fixed t order v.0 ++ write_fixed_fields fs order v.1

-- The loop over the elements, which stops at the first error.
abbrev pub marshal_each {ℓ} : {A : Type ℓ} → (A → Result (List ℕ)) → List A → Result (List ℕ)
marshal_each f [] = ok []
marshal_each f (x ∷ xs) = do bs ← f x; rest ← marshal_each f xs; ok (bs ++ rest)

-- The elements of an array or a slice: structs one by one, and others by one call of binary.Write.
unfoldable pub marshal_elems :
    (t : GoType) → ByteOrder → (Value t → Result (List ℕ)) → List (Value t) → Result (List ℕ)
unfolding write_fixed is_fixed
marshal_elems t order marshal_elem v =
    if is_struct t
    then marshal_each marshal_elem v
    else if is_fixed t
    then ok (each (write_fixed t order) v)
    else err elem_not_fixed

-- A length counts bytes, and a count elements; the length goes first where both are there.
abbrev pub slice_prefix_bytes : Option Prefix → Option Prefix → ℕ → ByteOrder → List ℕ → List ℕ
slice_prefix_bytes (some p) c count order buf = marshal_unsigned_int p (length buf) order
slice_prefix_bytes none c count order buf = prefix_bytes c count order

-- `marshalSlice` after the elements.
unfoldable pub slice_prefix : OscarTag → ℕ → ByteOrder → List ℕ → List ℕ
slice_prefix tag count order buf =
    slice_prefix_bytes tag.len_prefix tag.count_prefix count order buf

-- `marshalStruct` after the fields.
unfoldable pub struct_prefix : OscarTag → ByteOrder → List ℕ → List ℕ
struct_prefix tag order buf = prefix_bytes tag.len_prefix (length buf) order

-- ICQ messages are written in little endian.
unfoldable pub struct_order : String → ByteOrder → ByteOrder
struct_order name order = if str_eq name "ICQMessageReplyEnvelope" then little_endian else order

-- The checks that `marshalStruct` and `unmarshalStruct` make on a field before they visit it.
unfoldable pub check_pointer : GoType → Fields → Result (Unit {0})
check_pointer (ptr t) rest =
    if is_end rest
    then if is_struct t then ok tt else err pointer_not_struct
    else err pointer_not_final
check_pointer _ rest = ok tt

abbrev pub unless_optional {ℓ} : {A : Type ℓ} → OscarTag → Result A → Result A
unless_optional tag r = if tag.optional then err optional_non_pointer else r

abbrev pub clear_optional : OscarTag → OscarTag
clear_optional tag = record tag { optional = false }

unfoldable mutual
  -- `marshal` after its tag has been parsed.
  pub marshal : (t : GoType) → OscarTag → ByteOrder → Value t → Result (List ℕ)
  marshal (uint w) tag order v = unless_optional tag (ok (put_uint w order v))
  marshal string tag order v = unless_optional tag (ok (marshal_string tag order v))
  marshal (slice t) tag order v = unless_optional tag (do
    buf ← marshal_elems t order (marshal t no_tag order) v
    ok (slice_prefix tag (length v) order buf ++ buf))
  marshal (array n t) tag order v =
      unless_optional tag (marshal_elems t order (marshal t no_tag order) v)
  marshal (struct name fs) tag order v = unless_optional tag (do
    buf ← marshal_fields fs (struct_order name order) v
    ok (struct_prefix tag (struct_order name order) buf ++ buf))
  marshal (ptr t) tag order none = if tag.optional then ok [] else err non_optional_pointer
  marshal (ptr t) tag order (some v) =
      if tag.optional
      then if is_struct t then marshal t (clear_optional tag) order v else panic
      else err non_optional_pointer
  marshal (iface t) tag order none = unless_optional tag (err interface_not_struct)
  marshal (iface t) tag order (some v) =
      unless_optional tag (if is_struct t then marshal t tag order v else err interface_not_struct)
  marshal other tag order v = unless_optional tag (err unsupported_type)

  -- `marshalEachField`.
  pub marshal_fields : (fs : Fields) → ByteOrder → FieldValues fs → Result (List ℕ)
  marshal_fields end order v = ok []
  marshal_fields (field tag t fs) order v = do
    _ ← check_pointer t fs
    parsed ← parse_oscar_tag tag
    bs ← marshal t parsed order v.0
    rest ← marshal_fields fs order v.1
    ok (bs ++ rest)

unfoldable pub marshal_be : (t : GoType) → Value t → Result (List ℕ)
marshal_be t v = marshal t no_tag big_endian v

unfoldable pub marshal_le : (t : GoType) → Value t → Result (List ℕ)
marshal_le t v = marshal t no_tag little_endian v
