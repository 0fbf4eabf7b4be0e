-- ===== src/Wire/Result.antt =====
-- Outcomes of the codec of wire/encode.go and wire/decode.go: a value, one of Go's error values, a
-- panic, or a loop that does not end.
use mathlib.Core.Path.{◌≡◌, refl}

pub data Error : Type 0 where
  eof unexpected_eof not_null_terminated missing_len_prefix pointer_not_final : Error
  pointer_not_struct optional_non_pointer non_optional_pointer unsupported_type : Error
  interface_not_struct invalid_struct_tag elem_not_fixed nil_snac : Error

-- `stuck` is no Go value: a loop that reads nothing and has not ended.
pub data Result {ℓ} (A : Type ℓ) : Type ℓ where
  panic stuck : Result A
  err : Error → Result A
  ok : A → Result A

infixl 5 ◌>>=◌
abbrev pub ◌>>=◌ {ℓ κ} : {A : Type ℓ} {B : Type κ} → Result A → (A → Result B) → Result B
panic >>= next = panic
stuck >>= next = stuck
err e >>= next = err e
ok a >>= next = next a

abbrev pub map_ok {ℓ κ} : {A : Type ℓ} {B : Type κ} → (A → B) → Result A → Result B
map_ok f (ok a) = ok (f a)
map_ok f (err e) = err e
map_ok f panic = panic
map_ok f stuck = stuck

-- A chain that gives a value has given one at its start.
pub bind_ok {ℓ} :
    {A B : Type ℓ} (r : Result A) (f : A → Result B) (b : B)
    → r >>= f ≡ ok b
    → (a : A) × (r ≡ ok a) × (f a ≡ ok b)
bind_ok (ok a) f b h = (a, refl, h)
bind_ok (err e) f b h = absurd (cc)
bind_ok panic f b h = absurd (cc)
bind_ok stuck f b h = absurd (cc)
