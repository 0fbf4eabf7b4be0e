-- ===== src/Wire/TlvList/Laws.antt =====
-- What the operations on a `TLVList` (wire/tlv.go) have to do with one another.
use go_icq.Prelude.{
  ℕ, ◌+◌, ◌<◌, ◌^◌, ◌≡◌, refl, ap, ◌↔◌, inl, inr, false, List, [], ◌∷◌, ◌++◌, ◌==◌, ◌&&◌, ltb,
  length, take, drop, map, if◌then◌else◌, ltb→lt, Bool-cases, arith, take-length, drop-length,
  length-append,
}
use mathlib.Core.List.{append-nil}
use go_icq.Wire.Bytes.{
  ByteOrder, big_endian, little_endian, w16, put_uint, get_uint-put_uint, length-put_uint,
}
use go_icq.Wire.Result.{ok}
use go_icq.Wire.GoType.{uint}
use go_icq.Wire.Tag.{parse_oscar_tag}
use go_icq.Wire.Encode.{
  marshal, marshal_be, marshal_le, check_pointer, struct_order, struct_prefix, marshal_string,
  marshal_unsigned_int,
}
use go_icq.Wire.Messages.{Tlv, icq_email}
use go_icq.Wire.TlvList.{
  Found, found, missing, panics, append, replace, bytes, has_tag, uint16, uint16_be, fixed,
  icq_string, icq_value, drop_last, new_tlv_be, new_tlv_le, new_tlv, marshal_content, typed,
}

-- `Replace` gives the new value to a tag that the list has, for every reader of the list, and leaves
-- the values of the other tags and the tags themselves in their order.
pub bytes-replace :
    (l : List Tlv) (new : Tlv) (tag : ℕ)
    → (bytes (replace l new) tag
        ≡ (if tag == new.tag && has_tag l tag then found new.value else bytes l tag))
      × (map (λ (t : Tlv). t.tag) (replace l new) ≡ map (λ (t : Tlv). t.tag) l)
unfolding bytes replace has_tag
bytes-replace [] new tag = (ground arith, refl)
bytes-replace (old ∷ l) new tag =
    (ground (arith, (bytes-replace l new tag).0), ground (arith, (bytes-replace l new tag).1))

-- `Bytes` finds a value exactly if `HasTag` holds, and a TLV that is appended is found only behind
-- those that the list has with its tag.
pub bytes-append :
    (l : List Tlv) (t : Tlv) (tag : ℕ)
    → bytes (append l t) tag
      ≡ (if has_tag l tag then bytes l tag else if tag == t.tag then found t.value else missing)
unfolding bytes append has_tag
bytes-append [] t tag = ground arith
bytes-append (s ∷ l) t tag = ground (arith, bytes-append l t tag)

has_tag-bytes : (l : List Tlv) (tag : ℕ) → has_tag l tag ≡ false → bytes l tag ≡ missing
unfolding bytes has_tag
has_tag-bytes [] tag h = refl
has_tag-bytes (t ∷ l) tag h = ground (arith, has_tag-bytes l tag)

-- `Uint16BE` and `Uint16LE` decode the value that `Bytes` finds: they panic exactly if it is shorter
-- than two bytes, and so can be made to by whoever chooses the value.
pub uint16-bytes :
    (l : List Tlv) (tag : ℕ) (order : ByteOrder)
    → uint16 l tag order
      ≡ elim (bytes l tag) [ found v ↦ fixed 2 order v | missing ↦ missing | panics ↦ panics ]
unfolding uint16 bytes
uint16-bytes [] tag order = refl
uint16-bytes (t ∷ l) tag order = elim (Bool-cases (tag == t.tag)) [
  | inl e ↦ rw (e) refl
  | inr e ↦ rw (e) (uint16-bytes l tag order)
]

fixed-panics :
    (n : ℕ) (order : ByteOrder) (v : List ℕ) → (fixed n order v ≡ panics) ↔ (length v < n)
unfolding fixed
fixed-panics n order v = elim (Bool-cases (ltb (length v) n)) [
  | inl e ↦ rw (e) ((λ h. ltb→lt _ _ e), λ h. refl)
  | inr e ↦ rw (e) ((λ h. cc), λ h. ground arith)
]

-- `Uint16BE` and `Uint16LE` panic exactly if the value that `Bytes` finds is shorter than two bytes.
pub uint16-panics :
    (l : List Tlv) (tag : ℕ) (order : ByteOrder) (v : List ℕ)
    → bytes l tag ≡ found v
    → (uint16 l tag order ≡ panics) ↔ (length v < 2)
uint16-panics l tag order v h = rw (uint16-bytes l tag order, h) (fixed-panics 2 order v)

icq_string-bytes :
    (l : List Tlv) (tag : ℕ)
    → icq_string l tag
      ≡ elim (bytes l tag) [ found v ↦ icq_value v | missing ↦ missing | panics ↦ panics ]
unfolding icq_string bytes
icq_string-bytes [] tag = refl
icq_string-bytes (t ∷ l) tag = elim (Bool-cases (tag == t.tag)) [
  | inl e ↦ rw (e) refl
  | inr e ↦ rw (e) (icq_string-bytes l tag)
]

-- A TLV that is appended to a list without its tag is the one that is found.
bytes-append_new :
    (l : List Tlv) (t : Tlv) → has_tag l t.tag ≡ false → bytes (append l t) t.tag ≡ found t.value
bytes-append_new l t h = rw (bytes-append l t t.tag, h) (ground arith)

take-put_uint :
    (o : ByteOrder) (x : ℕ) (ys : List ℕ) → take 2 (put_uint w16 o x ++ ys) ≡ put_uint w16 o x
take-put_uint o x ys = rw (length-put_uint w16 o x) at (take-length (put_uint w16 o x) ys)

drop-put_uint : (o : ByteOrder) (x : ℕ) (ys : List ℕ) → drop 2 (put_uint w16 o x ++ ys) ≡ ys
drop-put_uint o x ys = rw (length-put_uint w16 o x) at (drop-length (put_uint w16 o x) ys)

fixed-put_uint : (x : ℕ) → x < 2 ^ 16 → fixed 2 big_endian (put_uint w16 big_endian x) ≡ found x
unfolding fixed
fixed-put_uint x h =
    let whole = rw (append-nil (put_uint w16 big_endian x)) at (take-put_uint big_endian x []) in
    rw (length-put_uint w16 big_endian x, whole) (ap found (get_uint-put_uint w16 big_endian x h))

-- A number of 16 bits that `NewTLVBE` puts into a list without its tag is what `Uint16BE` returns.
pub uint16_be-new_tlv_be :
    (l : List Tlv) (tag x : ℕ)
    → has_tag l tag ≡ false
    → x < 2 ^ 16
    → (t : Tlv) × (new_tlv_be tag (typed (uint w16) x) ≡ ok t)
      × (uint16_be (append l t) tag ≡ found x)
unfolding new_tlv_be new_tlv marshal_content uint16_be marshal_be marshal
uint16_be-new_tlv_be l tag x h b =
    let t : Tlv = record { tag = tag; value = put_uint w16 big_endian x } in
    (
      t,
      refl,
      rw (uint16-bytes (append l t) tag big_endian, bytes-append_new l t h) (fixed-put_uint x b),
    )

drop_last-append : (bs : List ℕ) (b : ℕ) → drop_last (bs ++ b ∷ []) ≡ bs
unfolding drop_last
drop_last-append [] b = refl
drop_last-append (c ∷ []) b = refl
drop_last-append (c ∷ d ∷ bs) b = ap (λ r. c ∷ r) (drop_last-append (d ∷ bs) b)

abbrev icq_bytes : List ℕ → List ℕ
icq_bytes s = put_uint w16 little_endian (length (s ++ 0 ∷ [])) ++ (s ++ 0 ∷ [])

icq_value-icq_bytes : (s : List ℕ) → length s + 1 < 2 ^ 16 → icq_value (icq_bytes s) ≡ found s
unfolding icq_value
icq_value-icq_bytes s h =
    let total = length (s ++ 0 ∷ []) in
    rw
      (
        take-put_uint little_endian total (s ++ 0 ∷ []),
        drop-put_uint little_endian total (s ++ 0 ∷ []),
        get_uint-put_uint w16 little_endian total (omega (arith, length-append s (0 ∷ []))),
        drop_last-append s 0,
        length-append (put_uint w16 little_endian total) (s ++ 0 ∷ []),
        length-put_uint w16 little_endian total,
        length-append s (0 ∷ []),
      )
      (ground arith)

zero_prefix : put_uint w16 little_endian 0 ++ [] ++ [] ≡ 0 ∷ 0 ∷ []
unfolding put_uint
zero_prefix = refl

icq_value_empty : icq_value (0 ∷ 0 ∷ []) ≡ missing
unfolding icq_value
icq_value_empty = refl

-- What `ICQString` makes of a string: the empty one has no terminator and is taken for none.
abbrev pub icq_result : List ℕ → Found (List ℕ)
icq_result [] = missing
icq_result (b ∷ bs) = found (b ∷ bs)

-- A string that `NewTLVLE` puts into a list without its tag, in a message of ICQ, is what `ICQString`
-- returns if it is not empty and shorter than 2^16 - 1 bytes; an empty one is not found.
pub icq_string-new_tlv_le :
    (l : List Tlv) (tag : ℕ) (s : List ℕ)
    → has_tag l tag ≡ false
    → length s + 1 < 2 ^ 16
    → (t : Tlv) × (new_tlv_le tag (typed icq_email (s, tt)) ≡ ok t)
      × (icq_string (append l t) tag ≡ icq_result s)
unfolding new_tlv_le new_tlv marshal_content marshal_le marshal parse_oscar_tag check_pointer
    struct_order struct_prefix marshal_string marshal_unsigned_int
icq_string-new_tlv_le l tag [] h b =
    let t : Tlv = record { tag = tag; value = 0 ∷ 0 ∷ [] } in
    (
      t,
      ap (λ v. ok (record { tag = tag; value = v })) zero_prefix,
      rw (icq_string-bytes (append l t) tag, bytes-append_new l t h) icq_value_empty,
    )
icq_string-new_tlv_le l tag (c ∷ s) h b =
    let t : Tlv = record { tag = tag; value = icq_bytes (c ∷ s) } in
    (
      t,
      ap (λ v. ok (record { tag = tag; value = v })) (append-nil (icq_bytes (c ∷ s))),
      rw (icq_string-bytes (append l t) tag, bytes-append_new l t h)
          (icq_value-icq_bytes (c ∷ s) b),
    )
