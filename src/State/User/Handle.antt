-- ===== src/State/User/Handle.antt =====
-- Which screen names `ValidateAIMHandle` of state/user.go accepts.
use go_icq.Prelude.{
  ℕ, suc, ◌+◌, ◌<◌, ◌≤◌, ◌≡◌, ◌≢◌, refl, ap, inl, inr, Bool, true, false, ◌||◌, not, Option, none,
  some, List, [], ◌∷◌, map, ◌==◌, length, All, ltb, if◌then◌else◌, Bool-cases, and_parts, arith,
}
use go_icq.Wire.Bytes.{IsByte}
use go_icq.State.Text.{
  runes, runes_after, decode_rune, is_space, without_spaces, is_ascii, lower_byte, to_lower,
  is_letter, is_digit, is_decimal, syntax_error, parse_uint, parse_digits, atoi,
}
use go_icq.State.User.Name.{
  Unicode, new_ident_screen_name, aim_handle_length, icq_uin_invalid_format,
  aim_handle_invalid_format, validate_uin, count_letters, last_is_space, starts_with_letter,
  validate_aim_handle,
}

some-ne-none : {A : Type 0} {a : A} → some a ≡ none → ⊥
some-ne-none e = cc

none-ne-some : {A : Type 0} {a : A} → none ≡ some a → ⊥
none-ne-some e = cc

-- Inversion of the chain of tests.
counted :
    (c : Option ℕ) (a : Bool)
    → elim c [
      | none ↦ some aim_handle_invalid_format
      | some n ↦
          if ltb n 3
          then some aim_handle_length
          else if a
          then some aim_handle_invalid_format
          else none
    ]
      ≡ none
    → (n : ℕ) × (c ≡ some n) × (3 ≤ n) × (a ≡ false)
counted none a h = cc
counted (some n) true h = absurd (ground arith)
counted (some n) false h = (n, refl, ground arith, refl)

validate_aim_handle-parts :
    (u : Unicode) (s : List ℕ)
    → validate_aim_handle u s ≡ none
    → (length s ≤ 16)
      × (n : ℕ) × (count_letters u 0 (runes s) ≡ some n)
      × (3 ≤ n)
      × ((not (starts_with_letter u s) || last_is_space s) ≡ false)
unfolding validate_aim_handle
validate_aim_handle-parts u s h = elim (Bool-cases (ltb 16 (length s))) [
  | inl e ↦ absurd (some-ne-none (rw e at h))
  | inr e ↦
      let short : length s ≤ 16 = ground arith in
      let (n, c, k, a) = counted (count_letters u 0 (runes s)) _ (rw e at h) in (short, n, c, k, a)
]

not_or : (a b : Bool) → (not a || b) ≡ false → (a ≡ true) × (b ≡ false)
not_or true b h = (refl, h)
not_or false b h = cc

-- A letter of Latin-1 is neither a digit nor a sign.
letter_byte :
    (letters : ℕ → Bool) (b : ℕ)
    → b < 256
    → is_letter letters b ≡ true
    → (is_decimal b ≡ false) × ((b == 0x2D) ≡ false) × ((b == 0x2B) ≡ false)
unfolding is_letter
letter_byte letters b h k = (ground arith, ground arith, ground arith)

atoi-letter :
    (letters : ℕ → Bool) (b : ℕ) (bs : List ℕ)
    → b < 256
    → is_letter letters b ≡ true
    → atoi (b ∷ bs) ≡ syntax_error
unfolding atoi parse_uint parse_digits
atoi-letter letters b bs h k =
    let (d, minus, plus) = letter_byte letters b h k in rw (minus, plus, d) refl

-- No screen name, as its bytes, is both: what `ValidateAIMHandle` accepts `ValidateUIN` refuses.
pub validate_aim_handle-validate_uin :
    (u : Unicode) (s : List ℕ)
    → All IsByte s
    → validate_aim_handle u s ≡ none
    → validate_uin s ≡ some icq_uin_invalid_format
unfolding validate_uin atoi
validate_aim_handle-validate_uin u [] bytes h = refl
validate_aim_handle-validate_uin u (b ∷ bs) (byte, bytes) h =
    let (short, n, c, k, a) = validate_aim_handle-parts u (b ∷ bs) h in
    let (letter, space) = not_or (is_letter u.letters b) _ a in
    rw (atoi-letter u.letters b bs byte letter) refl

-- A screen name whose first byte is 0xD7 is refused, whatever follows: `ValidateAIMHandle` asks whether
-- the byte, read as a rune, is a letter, and U+00D7 is the sign of multiplication. In UTF-8 every
-- Hebrew letter starts with this byte.
pub validate_aim_handle-hebrew :
    (u : Unicode) (bs : List ℕ) → validate_aim_handle u (0xD7 ∷ bs) ≢ none
unfolding is_letter
validate_aim_handle-hebrew u bs = λ h.
    let (short, n, c, k, a) = validate_aim_handle-parts u (0xD7 ∷ bs) h in
    let (letter, space) = not_or (is_letter u.letters 0xD7) (last_is_space (0xD7 ∷ bs)) a in cc

-- A rune of ASCII is its byte.
runes-ascii : (s : List ℕ) → is_ascii s ≡ true → runes s ≡ s
unfolding runes runes_after is_ascii decode_rune
runes-ascii [] h = refl
runes-ascii (b ∷ bs) h =
    let (here, there) = and_parts (ltb b 0x80) (is_ascii bs) h in
    rw (here, runes-ascii bs there) refl

space_letter :
    (u : Unicode) (b : ℕ) → b ≡ 0x20 → (is_letter u.letters b || is_digit u.digits b) ≡ true → ⊥
unfolding is_letter is_digit
space_letter u b e h = let no : false ≡ true = rw e at h in cc

not_space :
    (u : Unicode) (b : ℕ)
    → (is_letter u.letters b || is_digit u.digits b) ≡ true
    → is_space b ≡ false
unfolding is_letter is_digit
not_space u b h = elim (Bool-cases (is_space b)) [
  | inl e ↦ let space : b ≡ 0x20 = ground arith in absurd (space_letter u b space h)
  | inr e ↦ e
]

-- The runes that `ValidateAIMHandle` counts are those that stay in the identifier.
count_letters-without_spaces :
    (u : Unicode) (k n : ℕ) (s : List ℕ)
    → count_letters u k s ≡ some n
    → n ≡ k + length (without_spaces s)
unfolding count_letters without_spaces
count_letters-without_spaces u k n [] h = let e : k ≡ n = cc in omega arith
count_letters-without_spaces u k n (b ∷ bs) h =
    elim (Bool-cases (is_letter u.letters b || is_digit u.digits b)) [
      | inl e ↦
          let rest = count_letters-without_spaces u (suc k) n bs (rw e at h) in
          rw (not_space u b e) (omega arith)
      | inr e ↦ elim (Bool-cases (is_space b)) [
        | inl space ↦ rw space (count_letters-without_spaces u k n bs (rw (e, space) at h))
        | inr space ↦ absurd (none-ne-some (rw (e, space) at h))
      ]
    ]

length-map : (f : ℕ → ℕ) (s : List ℕ) → length (map f s) ≡ length s
length-map f [] = refl
length-map f (b ∷ bs) = ap suc (length-map f bs)

is_ascii-without_spaces : (s : List ℕ) → is_ascii s ≡ true → is_ascii (without_spaces s) ≡ true
unfolding is_ascii without_spaces
is_ascii-without_spaces [] h = refl
is_ascii-without_spaces (b ∷ bs) h =
    let (here, there) = and_parts (ltb b 0x80) (is_ascii bs) h in
    let rest = is_ascii-without_spaces bs there in
    elim (Bool-cases (is_space b)) [ inl e ↦ rw e rest | inr e ↦ rw (e, here, rest) refl ]

length-without_spaces : (s : List ℕ) → length (without_spaces s) ≤ length s
unfolding without_spaces
length-without_spaces [] = omega arith
length-without_spaces (b ∷ bs) =
    let h = length-without_spaces bs in
    elim (Bool-cases (is_space b)) [ inl e ↦ rw e (omega arith) | inr e ↦ rw e (omega arith) ]

-- The identifier of a screen name of ASCII that `ValidateAIMHandle` accepts has from 3 to 16
-- characters.
pub validate_aim_handle-new_ident_screen_name :
    (u : Unicode) (s : List ℕ)
    → is_ascii s ≡ true
    → validate_aim_handle u s ≡ none
    → (3 ≤ length (new_ident_screen_name u s)) × (length (new_ident_screen_name u s) ≤ 16)
unfolding new_ident_screen_name to_lower
validate_aim_handle-new_ident_screen_name u s ascii h =
    let (short, n, c, k, a) = validate_aim_handle-parts u s h in
    let count = count_letters-without_spaces u 0 n s (rw (runes-ascii s ascii) at c) in
    let same = length-map lower_byte (without_spaces s) in
    let shorter = length-without_spaces s in
    rw (is_ascii-without_spaces s ascii, same) (omega arith)
