-- ===== src/State/Text/Laws.antt =====
-- Numbers in decimal are read back, and what is read as a number has no spaces and no capitals.
use go_icq.Prelude.{
  ℕ, zero, suc, ◌+◌, ◌-◌, ◌*◌, ◌/◌, ◌∙◌, ◌%◌, ◌^◌, ◌<◌, ◌≤◌, ◌≡◌, refl, ◌⊎◌, inl, inr, true, false,
  List, [], ◌∷◌, map, All, ◌==◌, ltb, ltb→lt, lt→ltb, Bool-cases, arith,
}
use go_icq.Prelude.Int.{ℤ, pos}
use go_icq.State.Text.{
  is_space, without_spaces, is_ascii, lower_byte, to_lower, is_decimal, number, Digits, digits,
  no_digits, too_large, parse_digits, parse_uint, with_plus, with_minus, atoi, decimal_from,
  decimal,
}

-- One digit more.
parse_digits-digit :
    (n d m : ℕ) (acc : List ℕ)
    → d < 10
    → 10 * n + d ≡ m
    → m < 2 ^ 64
    → parse_digits n ((0x30 + d) ∷ acc) ≡ parse_digits m acc
unfolding parse_digits
parse_digits-digit n d m acc h k l =
    let e : 10 * n + (0x30 + d - 0x30) ≡ m = omega arith in
    let dec : is_decimal (0x30 + d) ≡ true = ground arith in
    let fits : ltb m (2 ^ 64) ≡ true = lt→ltb _ _ l in rw (e, dec, fits) refl

parse_digits-decimal_from :
    (fuel n : ℕ) (acc : List ℕ)
    → n < fuel
    → n < 2 ^ 64
    → parse_digits 0 (decimal_from fuel n acc) ≡ parse_digits n acc
unfolding decimal_from
parse_digits-decimal_from zero n acc h k = let no : ⊥ = omega arith in absurd no
parse_digits-decimal_from (suc fuel) n acc h k = elim (Bool-cases (ltb n 10)) [
  | inl e ↦
      let small : n < 10 = ltb→lt _ _ e in rw e (parse_digits-digit 0 n n acc small (omega arith) k)
  | inr e ↦
      let more : 10 ≤ n = ground arith in
      let rec =
        parse_digits-decimal_from fuel (n / 10) ((0x30 + n % 10) ∷ acc) (omega arith)
          (omega arith) in
      rw e (rec ∙ parse_digits-digit (n / 10) (n % 10) n acc (omega arith) (omega arith) k)
]

-- The first digit of a number is a digit.
abbrev StartsWithDigit : List ℕ → Type 0
StartsWithDigit [] = ⊥
StartsWithDigit (b ∷ bs) = is_decimal b ≡ true

decimal_from-StartsWithDigit :
    (fuel n : ℕ) (acc : List ℕ) → n < fuel → StartsWithDigit (decimal_from fuel n acc)
unfolding decimal_from
decimal_from-StartsWithDigit zero n acc h = let no : ⊥ = omega arith in absurd no
decimal_from-StartsWithDigit (suc fuel) n acc h = elim (Bool-cases (ltb n 10)) [
  | inl e ↦ let d : is_decimal (0x30 + n) ≡ true = ground arith in rw e d
  | inr e ↦
      let more : 10 ≤ n = ground arith in
      rw e (decimal_from-StartsWithDigit fuel (n / 10) _ (omega arith))
]

no_sign : (b : ℕ) → is_decimal b ≡ true → ((b == 0x2D) ≡ false) × ((b == 0x2B) ≡ false)
no_sign b h = ground arith

atoi-digits :
    (s : List ℕ) (n : ℕ)
    → StartsWithDigit s
    → parse_digits 0 s ≡ digits n
    → n < 2 ^ 63
    → atoi s ≡ number (pos n)
unfolding atoi parse_uint
atoi-digits [] n d e h = absurd d
atoi-digits (b ∷ bs) n d e h =
    let (minus, plus) = no_sign b d in rw (minus, plus, e, lt→ltb n _ h) refl

-- A number in decimal is read back by `strconv.Atoi`, if it fits into an int.
pub atoi-decimal : (n : ℕ) → n < 2 ^ 63 → atoi (decimal n) ≡ number (pos n)
unfolding decimal parse_digits
atoi-decimal n h =
    let read : parse_digits 0 (decimal n) ≡ digits n =
      parse_digits-decimal_from (suc n) n [] (omega arith) (omega arith) in
    atoi-digits (decimal n) n (decimal_from-StartsWithDigit (suc n) n [] (omega arith)) read h

-- Characters that neither the removal of spaces nor lower case changes.
abbrev IsPlain : ℕ → Type 0
IsPlain b = (is_space b ≡ false) × (ltb b 0x80 ≡ true) × (lower_byte b ≡ b)

is_decimal-IsPlain : (b : ℕ) → is_decimal b ≡ true → IsPlain b
unfolding lower_byte
is_decimal-IsPlain b h = (ground arith, ground arith, ground arith)

plain_text :
    (s : List ℕ)
    → All IsPlain s
    → (without_spaces s ≡ s) × (is_ascii s ≡ true) × (map lower_byte s ≡ s)
unfolding without_spaces is_ascii
plain_text [] h = (refl, refl, refl)
plain_text (b ∷ bs) ((space, ascii, low), hs) =
    let (a, c, l) = plain_text bs hs in (rw (space, a) refl, rw (ascii, c) refl, rw (low, l) refl)

too_large-ne : (m : ℕ) → too_large ≡ digits m → ⊥
too_large-ne m e = cc

no_digits-ne : (m : ℕ) → no_digits ≡ digits m → ⊥
no_digits-ne m e = cc

parse_digits-IsPlain : (n m : ℕ) (s : List ℕ) → parse_digits n s ≡ digits m → All IsPlain s
unfolding parse_digits
parse_digits-IsPlain n m [] e = tt
parse_digits-IsPlain n m (b ∷ bs) e = elim (Bool-cases (is_decimal b)) [
  | inl d ↦ elim (Bool-cases (ltb (10 * n + (b - 0x30)) (2 ^ 64))) [
    | inl k ↦
        (is_decimal-IsPlain b d, parse_digits-IsPlain (10 * n + (b - 0x30)) m bs (rw (d, k) at e))
    | inr k ↦ absurd (too_large-ne m (rw (d, k) at e))
  ]
  | inr d ↦ absurd (no_digits-ne m (rw d at e))
]

parse_uint-IsPlain : (m : ℕ) (s : List ℕ) → parse_uint s ≡ digits m → All IsPlain s
unfolding parse_uint
parse_uint-IsPlain m [] e = tt
parse_uint-IsPlain m (b ∷ bs) e = parse_digits-IsPlain 0 m (b ∷ bs) e

with_plus-number : (d : Digits) (z : ℤ) → with_plus d ≡ number z → (m : ℕ) × (d ≡ digits m)
with_plus-number (digits n) z e = (n, refl)
with_plus-number no_digits z e = cc
with_plus-number too_large z e = cc

with_minus-number : (d : Digits) (z : ℤ) → with_minus d ≡ number z → (m : ℕ) × (d ≡ digits m)
with_minus-number (digits n) z e = (n, refl)
with_minus-number no_digits z e = cc
with_minus-number too_large z e = cc

sign-IsPlain : (b : ℕ) → (b == 0x2D) ≡ true ⊎ (b == 0x2B) ≡ true → IsPlain b
unfolding lower_byte
sign-IsPlain b (inl h) = (ground arith, ground arith, ground arith)
sign-IsPlain b (inr h) = (ground arith, ground arith, ground arith)

-- What `strconv.Atoi` reads as a number has digits and perhaps a sign.
atoi-IsPlain : (s : List ℕ) (z : ℤ) → atoi s ≡ number z → All IsPlain s
unfolding atoi
atoi-IsPlain [] z e = tt
atoi-IsPlain (b ∷ bs) z e = elim (Bool-cases (b == 0x2D)) [
  | inl minus ↦
      let (m, read) = with_minus-number (parse_uint bs) z (rw minus at e) in
      (sign-IsPlain b (inl minus), parse_uint-IsPlain m bs read)
  | inr minus ↦ elim (Bool-cases (b == 0x2B)) [
    | inl plus ↦
        let (m, read) = with_plus-number (parse_uint bs) z (rw (minus, plus) at e) in
        (sign-IsPlain b (inr plus), parse_uint-IsPlain m bs read)
    | inr plus ↦
        let (m, read) = with_plus-number (parse_uint (b ∷ bs)) z (rw (minus, plus) at e) in
        parse_uint-IsPlain m (b ∷ bs) read
  ]
]

-- A number has neither spaces nor capitals, so that its normal form is the number itself.
pub to_lower-number :
    (lower : List ℕ → List ℕ) (s : List ℕ) (z : ℤ)
    → atoi s ≡ number z
    → to_lower lower (without_spaces s) ≡ s
unfolding to_lower
to_lower-number lower s z e = let (a, c, l) = plain_text s (atoi-IsPlain s z e) in rw (a, c, l) refl

decimal_from-digits :
    (fuel n : ℕ) (acc : List ℕ)
    → All (λ b. is_decimal b ≡ true) acc
    → All (λ b. is_decimal b ≡ true) (decimal_from fuel n acc)
unfolding decimal_from
decimal_from-digits zero n acc h = h
decimal_from-digits (suc fuel) n acc h = elim (Bool-cases (ltb n 10)) [
  | inl e ↦ let d : is_decimal (0x30 + n) ≡ true = ground arith in rw e (d, h)
  | inr e ↦
      let d : is_decimal (0x30 + n % 10) ≡ true = ground arith in
      rw e (decimal_from-digits fuel (n / 10) ((0x30 + n % 10) ∷ acc) (d, h))
]

pub decimal-digits : (n : ℕ) → All (λ b. is_decimal b ≡ true) (decimal n)
unfolding decimal
decimal-digits n = decimal_from-digits (suc n) n [] tt
