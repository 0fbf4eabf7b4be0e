-- ===== src/Wire/Bytes.antt =====
-- encoding/binary as wire/encode.go and wire/decode.go use it: unsigned integers of one, two, four
-- and eight bytes in either order.
use go_icq.Prelude.{
  ℕ, zero, suc, ◌+◌, ◌*◌, ◌/◌, ◌%◌, ◌^◌, ◌<◌, ◌≡◌, refl, ap, List, [], ◌∷◌, reverse, length,
  length-append, All, All-append, arith,
}
use mathlib.Core.List.{reverse-reverse, reverse-cons}

abbrev pub IsByte : ℕ → Type 0
IsByte b = b < 256

pub data ByteOrder : Type 0 where
  big_endian little_endian : ByteOrder

-- The sizes of uint8, uint16, uint32 and uint64.
pub data Width : Type 0 where
  w8 w16 w32 w64 : Width

abbrev pub size : Width → ℕ
size w8 = 1
size w16 = 2
size w32 = 4
size w64 = 8

abbrev pub modulus : Width → ℕ
modulus w8 = 2 ^ 8
modulus w16 = 2 ^ 16
modulus w32 = 2 ^ 32
modulus w64 = 2 ^ 64

-- The `n` lowest bytes of a number, lowest first.
unfoldable pub digits : ℕ → ℕ → List ℕ
digits zero x = []
digits (suc n) x = (x % 256) ∷ digits n (x / 256)

unfoldable pub of_digits : List ℕ → ℕ
of_digits [] = 0
of_digits (b ∷ bs) = b + 256 * of_digits bs

-- The conversion `uint16(x)` and its like keep the lowest bytes, so a number that is too large wraps.
unfoldable pub put_uint : Width → ByteOrder → ℕ → List ℕ
unfolding digits
put_uint w big_endian x = reverse (digits (size w) x)
put_uint w little_endian x = digits (size w) x

unfoldable pub get_uint : ByteOrder → List ℕ → ℕ
unfolding of_digits
get_uint big_endian bs = of_digits (reverse bs)
get_uint little_endian bs = of_digits bs

length-digits : (n x : ℕ) → length (digits n x) ≡ n
unfolding digits
length-digits zero x = refl
length-digits (suc n) x = ap suc (length-digits n (x / 256))

length-reverse_digits : (bytes : List ℕ) (n : ℕ) → length bytes ≡ n → length (reverse bytes) ≡ n
length-reverse_digits [] n h = h
length-reverse_digits (low ∷ bytes) n h =
    let rest = length-reverse_digits bytes (length bytes) refl in
    rw (reverse-cons low bytes, length-append (reverse bytes) (low ∷ []), rest) (omega (arith, h))

pub length-put_uint : (w : Width) (o : ByteOrder) (x : ℕ) → length (put_uint w o x) ≡ size w
unfolding put_uint
length-put_uint w big_endian x =
    length-reverse_digits (digits (size w) x) (size w) (length-digits (size w) x)
length-put_uint w little_endian x = length-digits (size w) x

of_digits-digits : (w : Width) (x : ℕ) → x < modulus w → of_digits (digits (size w) x) ≡ x
unfolding digits of_digits
of_digits-digits w8 x h = omega arith
of_digits-digits w16 x h = omega arith
of_digits-digits w32 x h = omega arith
of_digits-digits w64 x h = omega arith

-- A number that fits its width is read back from the bytes that were written.
pub get_uint-put_uint :
    (w : Width) (o : ByteOrder) (x : ℕ) → x < modulus w → get_uint o (put_uint w o x) ≡ x
unfolding get_uint put_uint
get_uint-put_uint w big_endian x h = rw reverse-reverse (of_digits-digits w x h)
get_uint-put_uint w little_endian x h = of_digits-digits w x h

digits-IsByte : (n x : ℕ) → All IsByte (digits n x)
unfolding digits
digits-IsByte zero x = tt
digits-IsByte (suc n) x = (omega arith, digits-IsByte n (x / 256))

reverse-IsByte : (xs : List ℕ) → All IsByte xs → All IsByte (reverse xs)
reverse-IsByte [] h = tt
reverse-IsByte (x ∷ xs) (h, hs) =
    rw (reverse-cons x xs) (All-append IsByte (reverse xs) (x ∷ []) (reverse-IsByte xs hs) (h, tt))

pub put_uint-IsByte : (w : Width) (o : ByteOrder) (x : ℕ) → All IsByte (put_uint w o x)
unfolding put_uint
put_uint-IsByte w big_endian x = reverse-IsByte _ (digits-IsByte (size w) x)
put_uint-IsByte w little_endian x = digits-IsByte (size w) x
