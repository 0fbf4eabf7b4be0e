-- ===== src/Wire/Reader.antt =====
-- An io.Reader over the bytes that are left, as wire/decode.go uses it. What an operation leaves is
-- part of its outcome, after an error too: the loops of decode.go go on reading after io.EOF.
use go_icq.Prelude.{
  ℕ, ◌<◌, ◌≡◌, refl, List, [], ◌∷◌, ◌++◌, length, leb, if◌then◌else◌, take, drop, take-length,
  drop-length, length-append, arith,
}
use go_icq.Wire.Result.{Result, ok, err, panic, stuck, Error, eof, unexpected_eof}
use go_icq.Wire.Bytes.{Width, ByteOrder, size, modulus, put_uint, get_uint}
use go_icq.Wire.Bytes.{length-put_uint, get_uint-put_uint}

abbrev pub Reader : Type 0 → Type 0
Reader A = List ℕ → Result A × List ℕ

abbrev pub pure : {A : Type 0} → A → Reader A
pure a bs = (ok a, bs)

abbrev pub fail : {A : Type 0} → Error → Reader A
fail e bs = (err e, bs)

abbrev pub panics : {A : Type 0} → Reader A
panics bs = (panic, bs)

abbrev pub on_ok : {A B : Type 0} → Result A × List ℕ → (A → Reader B) → Result B × List ℕ
on_ok (ok a, bs) f = f a bs
on_ok (err e, bs) f = (err e, bs)
on_ok (panic, bs) f = (panic, bs)
on_ok (stuck, bs) f = (stuck, bs)

infixl 5 ◌>>=◌
abbrev pub ◌>>=◌ : {A B : Type 0} → Reader A → (A → Reader B) → Reader B
◌>>=◌ m f bs = on_ok (m bs) f

-- io.ReadFull: EOF where nothing is left, and ErrUnexpectedEOF where too little is, which it reads.
unfoldable pub read_full : ℕ → Reader (List ℕ)
read_full n bs =
    if leb n (length bs)
    then (ok (take n bs), drop n bs)
    else (err (elim bs [ [] ↦ eof | b ∷ r ↦ unexpected_eof ]), [])

-- binary.Read into a uint8, uint16, uint32 or uint64.
unfoldable pub read_uint : Width → ByteOrder → Reader ℕ
unfolding read_full
read_uint w order = do bs ← read_full (size w); pure (get_uint order bs)

pub read_full-append : (xs ys : List ℕ) → read_full (length xs) (xs ++ ys) ≡ (ok xs, ys)
unfolding read_full
read_full-append xs ys = ground (arith, length-append xs ys, take-length xs ys, drop-length xs ys)

pub read_uint-put_uint :
    (w : Width) (o : ByteOrder) (x : ℕ) (rest : List ℕ)
    → x < modulus w
    → read_uint w o (put_uint w o x ++ rest) ≡ (ok x, rest)
unfolding read_uint
read_uint-put_uint w o x rest h =
    let bytes = rw (length-put_uint w o x) at (read_full-append (put_uint w o x) rest) in
    rw (bytes, get_uint-put_uint w o x h)

-- Inversion of a step that is followed by another.
pub on_ok-eq-ok :
    {A B : Type 0} (r : Result A × List ℕ) (f : A → Reader B) {b : B} {rest : List ℕ}
    → on_ok r f ≡ (ok b, rest)
    → (a : A) × (bs : List ℕ) × (r ≡ (ok a, bs)) × (f a bs ≡ (ok b, rest))
on_ok-eq-ok (ok a, bs) f e = (a, bs, refl, e)
on_ok-eq-ok (err x, bs) f e = cc
on_ok-eq-ok (panic, bs) f e = cc
on_ok-eq-ok (stuck, bs) f e = cc
