-- ===== src/Wire/Termination.antt =====
-- The loops of wire/decode.go end on every input, well formed or not, if the elements of the slices
-- that go by bytes have a size.
mod Readers
use go_icq.Prelude.{
  ℕ, ◌+◌, ◌*◌, ◌≤◌, ◌<◌, ◌≡◌, ◌≢◌, refl, Bool, true, false, ◌&&◌, Option, none, some, List, [],
  length, ltb, and_parts, ltb→lt, if◌then◌else◌, Bool-cases, inl, inr, arith,
}
use go_icq.Wire.Bytes.{ByteOrder, size}
use go_icq.Wire.Result.{Result, ok, err, panic, stuck, non_optional_pointer}
use go_icq.Wire.Reader.{Reader, read_uint, on_ok, pure, fail, panics}
use go_icq.Wire.GoType.{
  GoType, uint, string, slice, array, struct, ptr, iface, other, Fields, end, field, Value,
  FieldValues, is_struct,
}
use go_icq.Wire.Tag.{OscarTag, Prefix, no_tag, parse_oscar_tag}
use go_icq.Wire.Encode.{width_of, clear_optional, check_pointer}
use go_icq.Wire.Tag.Outcomes.{parse_oscar_tag-ne-stuck}
use go_icq.Wire.Decode.{
  unmarshal, unmarshal_fields, unmarshal_slice, unmarshal_struct, unmarshal_string, read_slice,
  read_struct, read_string, read_count, or_absent, lift,
}
use Readers.{
  Step, Takes, Takes-bind, Takes-weaken, Takes-pure, Takes-read_uint, Takes-read_count,
  Takes-read_string, Takes-read_struct, Takes-read_slice, Step-or_absent, Step-outcome, prefix_size,
  slice_size, struct_size, slice_ends,
}

-- The bytes that every value of a type takes at least. A pointer may be absent, and types that are
-- refused have no value.
abbrev pub field_size : Result OscarTag → (OscarTag → ℕ) → ℕ
field_size (ok tag) f = f tag
field_size _ f = 0

unfoldable mutual
  pub min_size : GoType → OscarTag → ℕ
  min_size (uint w) tag = size w
  min_size string tag = prefix_size tag.len_prefix
  min_size (slice t) tag = slice_size tag.len_prefix tag.count_prefix
  min_size (array n t) tag = n * min_size t no_tag
  min_size (struct name fs) tag = struct_size tag.len_prefix (min_size_fields fs)
  min_size (ptr t) tag = 0
  min_size (iface t) tag = 0
  min_size other tag = 0

  pub min_size_fields : Fields → ℕ
  min_size_fields end = 0
  min_size_fields (field tag t fs) =
      field_size (parse_oscar_tag tag) (λ parsed. min_size t parsed) + min_size_fields fs

-- Every slice in the type that goes by bytes has elements of one byte at least.
abbrev pub field_ends : Result OscarTag → (OscarTag → Bool) → Bool
field_ends (ok tag) f = f tag
field_ends _ f = true

unfoldable mutual
  unfolding min_size

  pub always_ends : GoType → OscarTag → Bool
  always_ends (slice t) tag =
      slice_ends tag.len_prefix tag.count_prefix (min_size t no_tag) && always_ends t no_tag
  always_ends (array n t) tag = always_ends t no_tag
  always_ends (struct name fs) tag = fields_end fs
  always_ends (ptr t) tag = always_ends t (clear_optional tag)
  always_ends (uint w) tag = true
  always_ends string tag = true
  always_ends (iface t) tag = true
  always_ends other tag = true

  pub fields_end : Fields → Bool
  fields_end end = true
  fields_end (field tag t fs) =
      field_ends (parse_oscar_tag tag) (λ parsed. always_ends t parsed) && fields_end fs

Takes-gate :
    {A : Type 0} (k : ℕ) (read : Reader A) (b : Bool)
    → Takes k read
    → Takes k (if b then panics else read)
Takes-gate k read true t = λ bs. omega arith
Takes-gate k read false t = t

Takes-ptr :
    {A : Type 0} (k : ℕ) (read : Reader A) (b c : Bool)
    → Takes k read
    → Takes 0 (
        if b
        then (if c then (λ bs. or_absent (read bs)) else panics)
        else fail non_optional_pointer)
Takes-ptr k read true true t = λ bs. Step-or_absent k (length bs) (read bs) (t bs)
Takes-ptr k read true false t = λ bs. omega arith
Takes-ptr k read false c t = λ bs. omega arith

-- The checks before a field take nothing.
Takes-field :
    {A B : Type 0} (j : OscarTag → ℕ) (l : ℕ) (c : Result (Unit {0})) (p : Result OscarTag)
    (read : OscarTag → Reader A) (reads : Reader B)
    → c ≢ stuck
    → p ≢ stuck
    → ((tag : OscarTag) → p ≡ ok tag → Takes (j tag) (read tag))
    → Takes l reads
    → Takes {A = A × B} (field_size p j + l) (λ bs. on_ok (lift c bs) (λ _ bs'.
      on_ok
        (lift p bs')
        (λ tag bs''. on_ok (read tag bs'') (λ v bs3. on_ok (reads bs3) (λ vs. pure (v, vs))))))
Takes-field {A} {B} j l (ok u) (ok tag) read reads hc hp t ts =
    Takes-weaken (j tag + (l + 0)) (j tag + l) _ (omega arith) (
      Takes-bind (j tag) (l + 0) (read tag) _ (t tag refl)
        λ v. Takes-bind l 0 reads (λ vs. pure (v, vs)) ts (λ vs. Takes-pure {A = A × B} (v, vs)))
Takes-field {A} {B} j l (ok u) (err e) read reads hc hp t ts = λ bs. omega arith
Takes-field {A} {B} j l (ok u) panic read reads hc hp t ts = λ bs. omega arith
Takes-field {A} {B} j l (ok u) stuck read reads hc hp t ts = absurd (hp refl)
Takes-field {A} {B} j l (err e) p read reads hc hp t ts = λ bs. omega arith
Takes-field {A} {B} j l panic p read reads hc hp t ts = λ bs. omega arith
Takes-field {A} {B} j l stuck p read reads hc hp t ts = absurd (hc refl)

check_pointer-ne-stuck : (t : GoType) (fs : Fields) → check_pointer t fs ≢ stuck
unfolding check_pointer
check_pointer-ne-stuck (ptr t) fs = λ e. ground arith
check_pointer-ne-stuck _ fs = λ e. cc

field_ends-ok :
    {tag : OscarTag} (p : Result OscarTag) (f : OscarTag → Bool)
    → p ≡ ok tag
    → field_ends p f ≡ true
    → f tag ≡ true
field_ends-ok (ok x) f e h = ground arith
field_ends-ok (err x) f e h = cc
field_ends-ok panic f e h = cc
field_ends-ok stuck f e h = cc

mutual
  unfolding unmarshal unmarshal_slice unmarshal_string unmarshal_struct min_size always_ends

  Takes-unmarshal :
      (t : GoType) (tag : OscarTag) (order : ByteOrder)
      → always_ends t tag ≡ true
      → Takes (min_size t tag) (unmarshal t tag order)
  Takes-unmarshal (uint w) tag order h = Takes-gate _ _ tag.optional (Takes-read_uint w order)
  Takes-unmarshal string tag order h =
      Takes-gate _ _ tag.optional (Takes-read_string tag.len_prefix tag order)
  Takes-unmarshal (slice t) tag order h = Takes-gate _ _ tag.optional (
      Takes-read_slice tag.len_prefix tag.count_prefix order (min_size t no_tag)
        (unmarshal t no_tag order) (and_parts _ _ h).0
        (Takes-unmarshal t no_tag order (and_parts _ _ h).1))
  Takes-unmarshal (array n t) tag order h = Takes-gate _ _ tag.optional (
      Takes-read_count (min_size t no_tag) (unmarshal t no_tag order)
        (Takes-unmarshal t no_tag order h) n)
  Takes-unmarshal (struct name fs) tag order h = Takes-gate _ _ tag.optional (
      Takes-read_struct tag.len_prefix order (min_size_fields fs) (unmarshal_fields fs order)
        (Takes-fields fs order h))
  Takes-unmarshal (ptr t) tag order h =
      Takes-ptr (min_size t (clear_optional tag)) (unmarshal t (clear_optional tag) order)
        tag.optional (is_struct t) (Takes-unmarshal t (clear_optional tag) order h)
  Takes-unmarshal (iface t) tag order h = Takes-gate 0 _ tag.optional (λ bs. omega arith)
  Takes-unmarshal other tag order h = Takes-gate 0 _ tag.optional (λ bs. omega arith)

  Takes-fields :
      (fs : Fields) (order : ByteOrder)
      → fields_end fs ≡ true
      → Takes (min_size_fields fs) (unmarshal_fields fs order)
  Takes-fields end order h = λ bs. omega arith
  Takes-fields (field tag t fs) order h =
      Takes-field (λ parsed. min_size t parsed) (min_size_fields fs) (check_pointer t fs)
        (parse_oscar_tag tag) (λ parsed. unmarshal t parsed order) (unmarshal_fields fs order)
        (check_pointer-ne-stuck t fs) (parse_oscar_tag-ne-stuck tag)
        (λ parsed e.
          Takes-unmarshal t parsed order
            (field_ends-ok (parse_oscar_tag tag) (λ x. always_ends t x) e (and_parts _ _ h).0))
        (Takes-fields fs order (and_parts _ _ h).1)

-- Unmarshalling ends on every input if the slices of the type that go by bytes have elements with a
-- size; it puts nothing back, and a value takes at least the type's size.
pub unmarshal_ends :
    (t : GoType) (tag : OscarTag) (order : ByteOrder) (bs : List ℕ)
    → always_ends t tag ≡ true
    → ((unmarshal t tag order bs).0 ≢ stuck)
      × (length (unmarshal t tag order bs).1 ≤ length bs)
      × ((v : Value t)
          → (unmarshal t tag order bs).0 ≡ ok v
          → length (unmarshal t tag order bs).1 + min_size t tag ≤ length bs)
unmarshal_ends t tag order bs h =
    Step-outcome (min_size t tag) (length bs) (unmarshal t tag order bs)
      (Takes-unmarshal t tag order h bs)
