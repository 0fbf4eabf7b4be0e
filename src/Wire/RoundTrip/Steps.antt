-- ===== src/Wire/RoundTrip/Steps.antt =====
-- The round trip of wire/encode.go and wire/decode.go for one constructor of a type, from that of
-- its parts.
use go_icq.Prelude.{
  ℕ, suc, ◌<◌, ◌≡◌, refl, Bool, true, false, ◌||◌, Option, none, some, List, [], ◌∷◌, ◌++◌, length,
  All, All-append, arith, le_refl, if◌then◌else◌, sym, inl, inr, Bool-cases,
}
use mathlib.Core.List.{append-nil, append_assoc}
use go_icq.Wire.Bytes.{IsByte, put_uint-IsByte, Width, ByteOrder, put_uint, modulus}
use go_icq.Wire.Result.{Result, ok, err, eof, optional_non_pointer, ◌>>=◌}
use go_icq.Wire.Reader.{Reader, read_uint, read_uint-put_uint, read_full-append, panics}
use go_icq.Wire.GoType.{
  GoType, uint, string, slice, array, struct, ptr, iface, other, Value, is_struct,
}
use go_icq.Wire.Tag.{OscarTag, no_tag, Prefix}
use go_icq.Wire.Encode.{
  width_of, with_terminator, prefix_bytes, marshal_unsigned_int, marshal_elems, marshal_each,
  slice_prefix_bytes, is_fixed, write_fixed, each, marshal,
}
use go_icq.Wire.Decode.{
  read_prefixed, unmarshal_unsigned_int, string_body, strip_terminator, read_string, read_slice,
  read_struct, or_absent,
}
use go_icq.Wire.RoundTrip.Elems.{
  Good, Encoded, read_count-Encoded, read_until_empty-Encoded, read_rest-Encoded,
}
use go_icq.Wire.RoundTrip.Conditions.{is_flat, encoded_length, FitsString, FitsStruct, SliceRoom}

-- Where the test on `optional` passes, both sides go on.
pub Good-unless :
    {A : Type 0} (last : Bool) (m : Result (List ℕ)) (read : Reader A) (v : A) (b : Bool)
    → b ≡ false
    → Good last m read v
    → Good last (if b then err optional_non_pointer else m) (if b then panics else read) v
Good-unless last m read v false h g = g
Good-unless last m read v true h g = cc

pub Good-uint :
    (last : Bool) (w : Width) (order : ByteOrder) (v : ℕ)
    → v < modulus w
    → Good last (ok (put_uint w order v)) (read_uint w order) v
Good-uint last w order v h = (
  put_uint w order v,
  refl,
  put_uint-IsByte w order v,
  λ rest _. read_uint-put_uint w order v rest h,
)

-- A length that fits its prefix is read back with the bytes that it counts.
pub read_prefixed-append :
    (p : Prefix) (order : ByteOrder) (buf rest : List ℕ)
    → length buf < modulus (width_of p)
    → read_prefixed p order ((marshal_unsigned_int p (length buf) order ++ buf) ++ rest)
      ≡ (ok buf, rest)
unfolding read_prefixed unmarshal_unsigned_int marshal_unsigned_int
read_prefixed-append p order buf rest h =
    rw
      (
        append_assoc (put_uint (width_of p) order (length buf)) buf rest,
        read_uint-put_uint (width_of p) order (length buf) (buf ++ rest) h,
      )
      (read_full-append buf rest)

strip-append : (b : ℕ) (bs : List ℕ) → strip_terminator (b ∷ bs ++ (0 ∷ [])) ≡ ok (b ∷ bs)
unfolding strip_terminator
strip-append b [] = refl
strip-append b (c ∷ bs) = rw (strip-append c bs)

string_body-with_terminator :
    (tag : OscarTag) (v : List ℕ) → string_body tag (with_terminator tag v) ≡ ok v
unfolding string_body
string_body-with_terminator tag [] = refl
string_body-with_terminator tag (b ∷ bs) = ground (arith, strip-append b bs)

with_terminator-IsByte :
    (tag : OscarTag) (v : List ℕ) → All IsByte v → All IsByte (with_terminator tag v)
with_terminator-IsByte tag [] h = tt
with_terminator-IsByte tag (b ∷ bs) h = elim (Bool-cases tag.null_terminated) [
  | inl e ↦ rw e (All-append IsByte (b ∷ bs) (0 ∷ []) h (omega arith))
  | inr e ↦ rw e h
]

prefix-IsByte :
    (p : Prefix) (n : ℕ) (order : ByteOrder) (buf : List ℕ)
    → All IsByte buf
    → All IsByte (marshal_unsigned_int p n order ++ buf)
unfolding marshal_unsigned_int
prefix-IsByte p n order buf h = All-append IsByte _ buf (put_uint-IsByte (width_of p) order n) h

pub Good-string :
    (last : Bool) (p : Option Prefix) (tag : OscarTag) (order : ByteOrder) (v : List ℕ)
    → All IsByte v
    → FitsString p (length (with_terminator tag v))
    → let str = with_terminator tag v in
      Good last (ok (prefix_bytes p (length str) order ++ str)) (read_string p tag order) v
unfolding read_string
Good-string last none tag order v y h = absurd h
Good-string last (some p) tag order v y h =
    let str = with_terminator tag v in
    (
      marshal_unsigned_int p (length str) order ++ str,
      refl,
      prefix-IsByte p (length str) order str (with_terminator-IsByte tag v y),
      λ rest _. rw (read_prefixed-append p order str rest h, string_body-with_terminator tag v),
    )

-- With or without a length prefix, whose buffer is an end of the input for the fields.
pub Good-struct :
    {A : Type 0} (last : Bool) (p : Option Prefix) (order : ByteOrder) (m : Result (List ℕ))
    (read : Reader A) (v : A)
    → FitsStruct last p (λ b. Good b m read v) (encoded_length m)
    → Good last
        (m >>= λ buf. ok (prefix_bytes p (length buf) order ++ buf))
        (read_struct p order read)
        v
unfolding read_struct
Good-struct last none order m read v (bs, e, y, r) = (bs, rw e, y, r)
Good-struct last (some p) order m read v ((bs, e, y, r), h) = (
  marshal_unsigned_int p (length bs) order ++ bs,
  rw e,
  prefix-IsByte p (length bs) order bs y,
  λ rest _.
      let fields = rw (append-nil bs) at (r [] (λ _. refl)) in
      rw (read_prefixed-append p order bs rest (rw e at h), fields),
)

-- The prefix of a slice announces the buffer that holds the encoded elements.
pub Good-slice :
    {A : Type 0} (last : Bool) (t : GoType) (order : ByteOrder) (p c : Option Prefix)
    (m : Result (List ℕ)) (read : Reader A) (xs : List A) (buf : List ℕ)
    → m ≡ ok buf
    → All IsByte buf
    → Encoded read xs buf
    → SliceRoom last p c (encoded_length m) (length xs) (read [] ≡ (err eof, []))
    → Good last
        (m >>= λ bs. ok (slice_prefix_bytes p c (length xs) order bs ++ bs))
        (read_slice p c order read)
        xs
unfolding read_slice
Good-slice last t order (some p) c m read xs buf e y enc (h, starved) = (
  marshal_unsigned_int p (length buf) order ++ buf,
  rw e,
  prefix-IsByte p (length buf) order buf y,
  λ rest _. rw (
    read_prefixed-append p order buf rest (rw e at h),
    read_until_empty-Encoded read xs buf (length buf) starved enc (le_refl _),
  ),
)
Good-slice last t order none (some p) m read xs buf e y enc h = (
  marshal_unsigned_int p (length xs) order ++ buf,
  rw e,
  prefix-IsByte p (length xs) order buf y,
  λ rest _.
      unfold unmarshal_unsigned_int marshal_unsigned_int in
      rw (
        append_assoc (put_uint (width_of p) order (length xs)) buf rest,
        read_uint-put_uint (width_of p) order (length xs) (buf ++ rest) h,
        read_count-Encoded read xs buf rest enc,
      ),
)
Good-slice last t order none none m read xs buf e y enc (at_end, starved) = (
  buf,
  rw e,
  y,
  λ rest none_left.
      rw (none_left at_end, append-nil buf)
        (read_rest-Encoded read xs buf (suc (length buf)) starved enc (le_refl _)),
)

-- binary.Write writes numbers and arrays of numbers as `marshal` does.
flat_is_fixed : (t : GoType) → is_flat t ≡ true → (is_fixed t ≡ true) × (is_struct t ≡ false)
unfolding is_fixed
flat_is_fixed (uint w) h = (refl, refl)
flat_is_fixed (array n t) h = ((flat_is_fixed t h).0, refl)
flat_is_fixed string h = cc
flat_is_fixed (slice t) h = cc
flat_is_fixed (struct name fs) h = cc
flat_is_fixed (ptr t) h = cc
flat_is_fixed (iface t) h = cc
flat_is_fixed other h = cc

each-marshal_each :
    {A : Type 0} (m : A → Result (List ℕ)) (f : A → List ℕ)
    → ((x : A) → m x ≡ ok (f x))
    → (xs : List A) → marshal_each m xs ≡ ok (each f xs)
each-marshal_each m f h [] = refl
each-marshal_each m f h (x ∷ xs) = rw (h x, each-marshal_each m f h xs)

marshal-write_fixed :
    (t : GoType) (order : ByteOrder) (v : Value t)
    → is_flat t ≡ true
    → marshal t no_tag order v ≡ ok (write_fixed t order v)
unfolding marshal write_fixed
marshal-write_fixed (uint w) order v h = refl
marshal-write_fixed (array n t) order v h =
    unfold marshal_elems in rw ((flat_is_fixed t h).1, (flat_is_fixed t h).0)
marshal-write_fixed string order v h = cc
marshal-write_fixed (slice t) order v h = cc
marshal-write_fixed (struct name fs) order v h = cc
marshal-write_fixed (ptr t) order v h = cc
marshal-write_fixed (iface t) order v h = cc
marshal-write_fixed other order v h = cc

-- So the elements are written one by one in both cases.
pub marshal_elems-each :
    (t : GoType) (order : ByteOrder) (xs : List (Value t))
    → (is_struct t || is_flat t) ≡ true
    → marshal_elems t order (marshal t no_tag order) xs ≡ marshal_each (marshal t no_tag order) xs
unfolding marshal_elems
marshal_elems-each t order xs h = elim (Bool-cases (is_struct t)) [
  | inl s ↦ rw s
  | inr s ↦
      let flat : is_flat t ≡ true = rw s at h in
      rw (s, (flat_is_fixed t flat).0)
        (sym (each-marshal_each _ _ (λ x. marshal-write_fixed t order x flat) xs))
]

pub Good-some :
    {A : Type 0} (last : Bool) (m : Result (List ℕ)) (read : Reader A) (v : A)
    → Good last m read v
    → Good last m (λ bs. or_absent (read bs)) (some v)
Good-some last m read v (bs, e, y, r) = (bs, e, y, λ rest end_. rw (r rest end_))
