-- ===== src/Wire/TlvList.antt =====
-- `TLVList` and the constructors of TLVs, of wire/tlv.go.
pub mod Laws
mod Tests
use go_icq.Prelude.{
  ℕ, ◌+◌, ◌<◌, Bool, true, false, List, [], ◌∷◌, ◌++◌, ◌==◌, ltb, length, take, drop, if◌then◌else◌,
  Option, none, some,
}
use go_icq.Wire.Bytes.{ByteOrder, big_endian, little_endian, get_uint}
use go_icq.Wire.Result.{Result, ok, err, panic, stuck}
use go_icq.Wire.GoType.{GoType, Value}
use go_icq.Wire.Encode.{marshal_be, marshal_le}
use go_icq.Wire.Messages.{Tlv}

-- A value with `true`, the zero value with `false`, or a panic.
pub data Found {ℓ} (A : Type ℓ) : Type ℓ where
  found : A → Found A
  missing : Found A
  panics : Found A

-- The second argument of `newTLV`: a byte slice, or another value with its type.
pub data TlvContent : Type 0 where
  raw : List ℕ → TlvContent
  typed : (t : GoType) → Value t → TlvContent

unfoldable pub marshal_content : ByteOrder → TlvContent → Result (List ℕ)
marshal_content order (raw bs) = ok bs
marshal_content big_endian (typed t v) = marshal_be t v
marshal_content little_endian (typed t v) = marshal_le t v

-- `newTLV`: a value that cannot be marshalled ends in a panic.
unfoldable pub new_tlv : ByteOrder → ℕ → TlvContent → Result Tlv
unfolding marshal_content
new_tlv order tag content = elim (marshal_content order content) [
  | ok bs ↦ ok (record { tag = tag; value = bs })
  | err e ↦ panic
  | panic ↦ panic
  | stuck ↦ stuck
]

unfoldable pub new_tlv_be : ℕ → TlvContent → Result Tlv
new_tlv_be = new_tlv big_endian

unfoldable pub new_tlv_le : ℕ → TlvContent → Result Tlv
new_tlv_le = new_tlv little_endian

unfoldable pub append : List Tlv → Tlv → List Tlv
append l t = l ++ t ∷ []

unfoldable pub append_list : List Tlv → List Tlv → List Tlv
append_list l ts = l ++ ts

-- Every TLV with the tag gets the new value.
unfoldable pub replace : List Tlv → Tlv → List Tlv
replace [] new = []
replace (old ∷ l) new =
    (if old.tag == new.tag then record old { value = new.value } else old) ∷ replace l new

-- The loops that return from their first TLV with the tag.
unfoldable pub bytes : List Tlv → ℕ → Found (List ℕ)
bytes [] tag = missing
bytes (t ∷ l) tag = if tag == t.tag then found t.value else bytes l tag

unfoldable pub string : List Tlv → ℕ → Found (List ℕ)
string [] tag = missing
string (t ∷ l) tag = if tag == t.tag then found t.value else string l tag

unfoldable pub has_tag : List Tlv → ℕ → Bool
has_tag [] tag = false
has_tag (t ∷ l) tag = if tag == t.tag then true else has_tag l tag

-- `Uint8` goes on behind a TLV with the tag that is empty.
first_byte : List ℕ → Option ℕ
first_byte [] = none
first_byte (b ∷ bs) = some b

unfoldable pub uint8 : List Tlv → ℕ → Found ℕ
unfolding first_byte
uint8 [] tag = missing
uint8 (t ∷ l) tag =
    let rest = uint8 l tag in
    if tag == t.tag then elim (first_byte t.value) [ some b ↦ found b | none ↦ rest ] else rest

-- binary.ByteOrder's Uint16 and Uint32 on a slice: they panic where it is too short.
unfoldable pub fixed : ℕ → ByteOrder → List ℕ → Found ℕ
fixed n order v = if ltb (length v) n then panics else found (get_uint order (take n v))

unfoldable pub uint16 : List Tlv → ℕ → ByteOrder → Found ℕ
unfolding fixed
uint16 [] tag order = missing
uint16 (t ∷ l) tag order = if tag == t.tag then fixed 2 order t.value else uint16 l tag order

unfoldable pub uint32 : List Tlv → ℕ → ByteOrder → Found ℕ
unfolding fixed
uint32 [] tag order = missing
uint32 (t ∷ l) tag order = if tag == t.tag then fixed 4 order t.value else uint32 l tag order

unfoldable pub uint16_be : List Tlv → ℕ → Found ℕ
uint16_be l tag = uint16 l tag big_endian

unfoldable pub uint16_le : List Tlv → ℕ → Found ℕ
uint16_le l tag = uint16 l tag little_endian

unfoldable pub uint32_be : List Tlv → ℕ → Found ℕ
uint32_be l tag = uint32 l tag big_endian

unfoldable pub uint32_le : List Tlv → ℕ → Found ℕ
uint32_le l tag = uint32 l tag little_endian

-- All but the last byte.
unfoldable pub drop_last : List ℕ → List ℕ
drop_last [] = []
drop_last (b ∷ []) = []
drop_last (b ∷ c ∷ bs) = b ∷ drop_last (c ∷ bs)

-- The string in a value: its length prefix must count what follows it, the terminator included.
unfoldable pub icq_value : List ℕ → Found (List ℕ)
unfolding drop_last
icq_value v =
    if ltb (length v) 3
    then missing
    else if get_uint little_endian (take 2 v) == length (drop 2 v)
    then found (drop_last (drop 2 v))
    else missing

-- The first TLV with the tag decides.
unfoldable pub icq_string : List Tlv → ℕ → Found (List ℕ)
unfolding icq_value
icq_string [] tag = missing
icq_string (t ∷ l) tag = if tag == t.tag then icq_value t.value else icq_string l tag
