-- ===== src/Wire/RoundTrip.antt =====
-- wire/encode.go and wire/decode.go together: what one writes the other reads back.
mod Elems
pub mod Conditions
mod Steps
use go_icq.Prelude.{
  ℕ, ◌≡◌, refl, sym, ap, ◌∙◌, Bool, true, false, ◌&&◌, Option, none, some, List, [], ◌∷◌, ◌++◌, All,
  All-append, All-map, length, inl, inr, Bool-cases, arith,
}
use mathlib.Core.List.{append-nil, append_assoc}
use go_icq.Wire.Bytes.{IsByte, ByteOrder, big_endian, little_endian}
use go_icq.Wire.Result.{Result, ok, err, panic, stuck, ◌>>=◌}
use go_icq.Wire.Reader.{Reader, pure, on_ok}
use go_icq.Wire.GoType.{
  GoType, uint, string, slice, array, struct, ptr, iface, other, Fields, end, field, Value,
  FieldValues, is_struct, is_end,
}
use go_icq.Wire.Tag.{OscarTag, Prefix, no_tag, parse_oscar_tag}
use go_icq.Wire.Encode.{
  marshal, marshal_fields, marshal_elems, marshal_string, slice_prefix, struct_prefix, struct_order,
  check_pointer, clear_optional, marshal_be, marshal_le,
}
use go_icq.Wire.Decode.{
  unmarshal, unmarshal_fields, unmarshal_string, unmarshal_slice, unmarshal_struct, read_count,
  or_absent, lift, unmarshal_be, unmarshal_le,
}
use Elems.{Good, Encoded, marshal_each-Encoded, read_count-Encoded}
use Conditions.{Fits, FitsFields, FitsField, FitsStruct, encoded_length}
use Steps.{
  Good-unless, Good-uint, Good-string, Good-struct, Good-slice, Good-some, marshal_elems-each,
}

Good-array :
    (last : Bool) (t : GoType) (order : ByteOrder) (n : ℕ) (xs : List (Value t))
    (read : Reader (Value t)) (buf : List ℕ)
    → marshal_elems t order (marshal t no_tag order) xs ≡ ok buf
    → All IsByte buf
    → Encoded read xs buf
    → length xs ≡ n
    → Good last (marshal_elems t order (marshal t no_tag order) xs) (read_count n read) xs
Good-array last t order n xs read buf e y enc h =
    (buf, e, y, λ rest _. rw (← h) (read_count-Encoded read xs buf rest enc))

nothing_left :
    (last is_last : Bool) (bs rest : List ℕ)
    → (last ≡ true → rest ≡ [])
    → (is_last ≡ true → bs ≡ [])
    → (last && is_last) ≡ true
    → bs ++ rest ≡ []
nothing_left true true bs rest h k e = rw (h refl, k refl)
nothing_left true false bs rest h k e = cc
nothing_left false is_last bs rest h k e = cc

ok-injective {ℓ} : {A : Type ℓ} {a b : A} → ok a ≡ ok b → a ≡ b
ok-injective e = cc

-- The parts of a struct, one behind the other.
Good-field :
    {A B : Type 0} (last is_last : Bool) (m : Result (List ℕ)) (ms : Result (List ℕ))
    (read : Reader A) (reads : Reader B) (v : A) (vs : B)
    → Good (last && is_last) m read v
    → Good last ms reads vs
    → (is_last ≡ true → ms ≡ ok [])
    → Good {A = A × B} last
        (m >>= λ bs. ms >>= λ rest. ok (bs ++ rest))
        (λ bs. on_ok (read bs) (λ a bs'. on_ok (reads bs') (λ as'. pure (a, as'))))
        (v, vs)
Good-field last is_last m ms read reads v vs (b, e, y, r) (bs, e', ys, r') none_left = (
  b ++ bs,
  rw (e, e'),
  All-append IsByte b bs y ys,
  λ rest end_. rw (
    append_assoc b bs rest,
    r (bs ++ rest) (nothing_left last is_last bs rest end_ (λ l. ok-injective (cc (none_left l)))),
    r' rest end_,
  ),
)

no_fields_left :
    (fs : Fields) (order : ByteOrder) (v : FieldValues fs)
    → is_end fs ≡ true
    → marshal_fields fs order v ≡ ok []
unfolding marshal_fields
no_fields_left end order v h = refl
no_fields_left (field tag t fs) order v h = cc

Good-checked :
    {A : Type 0} (last : Bool) (c : Result (Unit {0})) (p : Result OscarTag)
    (m : OscarTag → Result (List ℕ)) (read : OscarTag → Reader A) (v : A)
    → c ≡ ok tt
    → FitsField p (λ tag. Good last (m tag) (read tag) v)
    → Good last (c >>= λ _. p >>= m) (λ bs. on_ok (lift c bs) (λ _ bs'. on_ok (lift p bs') read)) v
Good-checked last c (ok tag) m read v e (bs, e', y, r) =
    (bs, rw (e, e'), y, λ rest end_. rw e (r rest end_))
Good-checked last c (err x) m read v e g = absurd g
Good-checked last c panic m read v e g = absurd g
Good-checked last c stuck m read v e g = absurd g

FitsField-map :
    (p : Result OscarTag) {P Q : OscarTag → Type 0}
    → ((tag : OscarTag) → P tag → Q tag)
    → FitsField p P
    → FitsField p Q
FitsField-map (ok tag) f h = f tag h
FitsField-map (err e) f h = absurd h
FitsField-map panic f h = absurd h
FitsField-map stuck f h = absurd h

FitsStruct-map :
    (last : Bool) (p : Option Prefix) {P Q : Bool → Type 0} (n : ℕ)
    → ((b : Bool) → P b → Q b)
    → FitsStruct last p P n
    → FitsStruct last p Q n
FitsStruct-map last none n f h = f last h
FitsStruct-map last (some p) n f (h, r) = (f true h, r)

mutual
  unfolding marshal unmarshal unmarshal_slice unmarshal_string unmarshal_struct struct_prefix
      slice_prefix marshal_string

  Fits-Good :
      (last : Bool) (t : GoType) (tag : OscarTag) (order : ByteOrder) (v : Value t)
      → Fits last t tag order v
      → Good last (marshal t tag order v) (unmarshal t tag order) v
  Fits-Good last (uint w) tag order v (o, h) =
      Good-unless last _ _ v tag.optional o (Good-uint last w order v h)
  Fits-Good last string tag order v (o, y, h) =
      Good-unless last _ _ v tag.optional o (Good-string last tag.len_prefix tag order v y h)
  Fits-Good last (slice t) tag order v (o, s, hs, room) =
      let elems = All-map (λ x. Fits-Good false t no_tag order x) v hs in
      let (buf, e, y, enc) =
        marshal_each-Encoded (marshal t no_tag order) (unmarshal t no_tag order) v elems in
      Good-unless last _ _ v tag.optional o (
        Good-slice last t order tag.len_prefix tag.count_prefix _ (unmarshal t no_tag order) v buf
          (marshal_elems-each t order v s ∙ e) y enc room)
  Fits-Good last (array n t) tag order v (o, s, hs, n_elems) =
      let elems = All-map (λ x. Fits-Good false t no_tag order x) v hs in
      let (buf, e, y, enc) =
        marshal_each-Encoded (marshal t no_tag order) (unmarshal t no_tag order) v elems in
      Good-unless last _ _ v tag.optional o (
        Good-array last t order n v (unmarshal t no_tag order) buf
          (marshal_elems-each t order v s ∙ e) y enc n_elems)
  Fits-Good last (struct name fs) tag order v (o, same, h) = Good-unless last _ _ v tag.optional o (
      rw same (
        Good-struct last tag.len_prefix order (marshal_fields fs order v)
          (unmarshal_fields fs order) v
          (FitsStruct-map last tag.len_prefix _ (λ b f. FitsFields-Good b fs order v f) h)))
  Fits-Good last (ptr t) tag order none (o, s, at_end, starved) =
      ([], rw o, tt, λ rest end_. rw (o, s, end_ at_end, starved))
  Fits-Good last (ptr t) tag order (some v) (o, s, h) =
      rw (o, s)
        (Good-some last _ (unmarshal t (clear_optional tag) order) v
          (Fits-Good last t (clear_optional tag) order v h))
  Fits-Good last (iface t) tag order v h = absurd h
  Fits-Good last other tag order v h = absurd h

  FitsFields-Good :
      (last : Bool) (fs : Fields) (order : ByteOrder) (v : FieldValues fs)
      → FitsFields last fs order v
      → Good last (marshal_fields fs order v) (unmarshal_fields fs order) v
  FitsFields-Good last end order v h = ([], refl, tt, λ rest _. refl)
  FitsFields-Good last (field tag t fs) order (v, vs) (c, h, hs) =
      Good-checked last (check_pointer t fs) (parse_oscar_tag tag) _ _ (v, vs) c
        (FitsField-map (parse_oscar_tag tag)
          (λ parsed f.
            Good-field last (is_end fs) (marshal t parsed order v) (marshal_fields fs order vs)
              (unmarshal t parsed order) (unmarshal_fields fs order) v vs
              (Fits-Good (last && is_end fs) t parsed order v f)
              (FitsFields-Good last fs order vs hs) (no_fields_left fs order vs))
          h)

-- A value that fits its type is marshalled to bytes without an error, and unmarshalling reads the value back
-- from a stream: it takes exactly the bytes that were written and leaves those that follow.
pub unmarshal-marshal :
    (t : GoType) (tag : OscarTag) (order : ByteOrder) (v : Value t)
    → Fits false t tag order v
    → (bs : List ℕ) × (marshal t tag order v ≡ ok bs)
      × All IsByte bs
      × ((rest : List ℕ) → unmarshal t tag order (bs ++ rest) ≡ (ok v, rest))
unmarshal-marshal t tag order v h =
    let (bs, e, y, r) = Fits-Good false t tag order v h in (bs, e, y, λ rest. r rest (λ f. cc))

-- A value that fits as a whole message, which may end in a slice without a prefix or in an optional
-- struct, is read back by `UnmarshalBE` from what `MarshalBE` writes, and nothing is left.
pub unmarshal_be-marshal_be :
    (t : GoType) (v : Value t)
    → Fits true t no_tag big_endian v
    → (bs : List ℕ) × (marshal_be t v ≡ ok bs) × All IsByte bs × (unmarshal_be t bs ≡ (ok v, []))
unfolding marshal_be unmarshal_be
unmarshal_be-marshal_be t v h =
    let (bs, e, y, r) = Fits-Good true t no_tag big_endian v h in
    (bs, e, y, rw (append-nil bs) at (r [] (λ _. refl)))

-- The same of `UnmarshalLE` and `MarshalLE`.
pub unmarshal_le-marshal_le :
    (t : GoType) (v : Value t)
    → Fits true t no_tag little_endian v
    → (bs : List ℕ) × (marshal_le t v ≡ ok bs) × All IsByte bs × (unmarshal_le t bs ≡ (ok v, []))
unfolding marshal_le unmarshal_le
unmarshal_le-marshal_le t v h =
    let (bs, e, y, r) = Fits-Good true t no_tag little_endian v h in
    (bs, e, y, rw (append-nil bs) at (r [] (λ _. refl)))
