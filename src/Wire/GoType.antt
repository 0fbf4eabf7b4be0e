-- ===== src/Wire/GoType.antt =====
-- What package reflect shows the codec of wire/encode.go and wire/decode.go: types and their values.
use go_icq.Prelude.{ℕ, List, Option, String, Bool, true, false}
use go_icq.Wire.Bytes.{Width}

-- A field's tag is what `tag.Lookup("oscar")` gives. An array has its length. `iface t` is an
-- interface that holds a value of the type `t`, or nil. `other` is a kind that encoding/binary
-- refuses too, such as map or int.
mutual
  pub data GoType : Type 0 where
    uint : Width → GoType
    string : GoType
    slice : GoType → GoType
    array : ℕ → GoType → GoType
    struct : String → Fields → GoType
    ptr : GoType → GoType
    iface : GoType → GoType
    other : GoType

  pub data Fields : Type 0 where
    end : Fields
    field : Option (List ℕ) → GoType → Fields → Fields

-- A string is its bytes, and a pointer or an interface may be nil.
abbrev mutual
  pub Value : GoType → Type 0
  Value (uint w) = ℕ
  Value string = List ℕ
  Value (slice t) = List (Value t)
  Value (array n t) = List (Value t)
  Value (struct name fs) = FieldValues fs
  Value (ptr t) = Option (Value t)
  Value (iface t) = Option (Value t)
  Value other = Unit {0}

  pub FieldValues : Fields → Type 0
  FieldValues end = Unit {0}
  FieldValues (field tag t fs) = Value t × FieldValues fs

abbrev pub is_struct : GoType → Bool
is_struct (struct name fs) = true
is_struct _ = false

abbrev pub is_ptr : GoType → Bool
is_ptr (ptr t) = true
is_ptr _ = false

abbrev pub is_end : Fields → Bool
is_end end = true
is_end _ = false
