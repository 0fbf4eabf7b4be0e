-- ===== src/State/Text.antt =====
-- What package state uses of Go's strings and of packages strings, strconv and unicode: the runes of a
-- string, lower case, and numbers in decimal.
pub mod Laws
use go_icq.Prelude.{
  ℕ, zero, suc, ◌+◌, ◌-◌, ◌*◌, ◌/◌, ◌%◌, ◌^◌, Bool, true, false, ◌&&◌, ◌||◌, not, List, [], ◌∷◌,
  map, ◌==◌, leb, ltb, if◌then◌else◌,
}
use go_icq.Prelude.Int.{ℤ, pos, ◌-ℤ◌}

abbrev pub between : ℕ → ℕ → ℕ → Bool
between a b x = leb a x && leb x b

-- One rune of UTF-8 with the bytes after its first that it takes; what is not well formed is U+FFFD, and
-- takes one byte. The first continuation byte has bounds that go by the lead byte.
abbrev invalid_rune : ℕ × ℕ
invalid_rune = (0xFFFD, 0)

abbrev is_tail : ℕ → Bool
is_tail b = between 0x80 0xBF b

rune_2 : ℕ → List ℕ → ℕ × ℕ
rune_2 b [] = invalid_rune
rune_2 b (c ∷ cs) = if is_tail c then ((b - 0xC0) * 64 + (c - 0x80), 1) else invalid_rune

rune_3 : ℕ → ℕ → ℕ → List ℕ → ℕ × ℕ
rune_3 lo hi b (c ∷ d ∷ cs) =
    if between lo hi c && is_tail d
    then (((b - 0xE0) * 64 + (c - 0x80)) * 64 + (d - 0x80), 2)
    else invalid_rune
rune_3 lo hi b _ = invalid_rune

rune_4 : ℕ → ℕ → ℕ → List ℕ → ℕ × ℕ
rune_4 lo hi b (c ∷ d ∷ e ∷ cs) =
    if between lo hi c && (is_tail d && is_tail e)
    then ((((b - 0xF0) * 64 + (c - 0x80)) * 64 + (d - 0x80)) * 64 + (e - 0x80), 3)
    else invalid_rune
rune_4 lo hi b _ = invalid_rune

unfoldable pub decode_rune : ℕ → List ℕ → ℕ × ℕ
unfolding rune_2 rune_3 rune_4
decode_rune b cs =
    if ltb b 0x80
    then (b, 0)
    else if between 0xC2 0xDF b
    then rune_2 b cs
    else if b == 0xE0
    then rune_3 0xA0 0xBF b cs
    else if b == 0xED
    then rune_3 0x80 0x9F b cs
    else if between 0xE1 0xEF b
    then rune_3 0x80 0xBF b cs
    else if b == 0xF0
    then rune_4 0x90 0xBF b cs
    else if between 0xF1 0xF3 b
    then rune_4 0x80 0xBF b cs
    else if b == 0xF4
    then rune_4 0x80 0x8F b cs
    else invalid_rune

-- The runes that `range` gives, after `skip` bytes that belong to the rune before.
unfoldable pub runes_after : ℕ → List ℕ → List ℕ
unfolding decode_rune
runes_after skip [] = []
runes_after (suc skip) (b ∷ bs) = runes_after skip bs
runes_after zero (b ∷ bs) = (decode_rune b bs).0 ∷ runes_after (decode_rune b bs).1 bs

unfoldable pub runes : List ℕ → List ℕ
unfolding runes_after
runes s = runes_after 0 s

abbrev pub is_space : ℕ → Bool
is_space b = b == 0x20

abbrev pub is_decimal : ℕ → Bool
is_decimal b = between 0x30 0x39 b

-- `strings.ReplaceAll(s, " ", "")`.
unfoldable pub without_spaces : List ℕ → List ℕ
without_spaces [] = []
without_spaces (b ∷ bs) = if is_space b then without_spaces bs else b ∷ without_spaces bs

-- `strings.ToLower`: byte by byte where all are ASCII, and by the tables of package unicode, a parameter,
-- where one is not.
unfoldable pub is_ascii : List ℕ → Bool
is_ascii [] = true
is_ascii (b ∷ bs) = ltb b 0x80 && is_ascii bs

unfoldable pub lower_byte : ℕ → ℕ
lower_byte b = if between 0x41 0x5A b then b + 0x20 else b

unfoldable pub to_lower : (List ℕ → List ℕ) → List ℕ → List ℕ
unfolding lower_byte is_ascii
to_lower map_lower s = if is_ascii s then map lower_byte s else map_lower s

-- `unicode.IsLetter` and `unicode.IsDigit`, up to U+00FF by the table of Latin-1 and above by a parameter.
unfoldable pub is_letter : (ℕ → Bool) → ℕ → Bool
is_letter letters r =
    if leb r 0xFF
    then between 0x41 0x5A r
      || (between 0x61 0x7A r
          || (r == 0xAA
              || (r == 0xB5
                  || (r == 0xBA
                      || (between 0xC0 0xD6 r || (between 0xD8 0xF6 r || between 0xF8 0xFF r))))))
    else letters r

unfoldable pub is_digit : (ℕ → Bool) → ℕ → Bool
is_digit digits r = if leb r 0xFF then is_decimal r else digits r

-- The outcome of `strconv.Atoi`, with the number that goes with an error that is out of range.
pub data Atoi : Type 0 where
  number : ℤ → Atoi
  syntax_error : Atoi
  range_error : ℤ → Atoi

-- `strconv.ParseUint` to base 10: it stops at the first character that is no digit, or with which the
-- number would not fit into 64 bits.
pub data Digits : Type 0 where
  digits : ℕ → Digits
  no_digits too_large : Digits

unfoldable pub parse_digits : ℕ → List ℕ → Digits
parse_digits n [] = digits n
parse_digits n (b ∷ bs) =
    let rest = parse_digits (10 * n + (b - 0x30)) bs in
    if is_decimal b
    then if ltb (10 * n + (b - 0x30)) (2 ^ 64) then rest else too_large
    else no_digits

unfoldable pub parse_uint : List ℕ → Digits
unfolding parse_digits
parse_uint [] = no_digits
parse_uint (b ∷ bs) = parse_digits 0 (b ∷ bs)

-- With the sign that a number may have.
abbrev pub with_plus : Digits → Atoi
with_plus (digits n) = if ltb n (2 ^ 63) then number (pos n) else range_error (pos (2 ^ 63 - 1))
with_plus no_digits = syntax_error
with_plus too_large = range_error (pos (2 ^ 63 - 1))

abbrev pub with_minus : Digits → Atoi
with_minus (digits n) =
    if leb n (2 ^ 63) then number (pos 0 -ℤ pos n) else range_error (pos 0 -ℤ pos (2 ^ 63))
with_minus no_digits = syntax_error
with_minus too_large = range_error (pos 0 -ℤ pos (2 ^ 63))

unfoldable pub atoi : List ℕ → Atoi
unfolding parse_uint
atoi [] = syntax_error
atoi (b ∷ bs) =
    if b == 0x2D
    then with_minus (parse_uint bs)
    else if b == 0x2B
    then with_plus (parse_uint bs)
    else with_plus (parse_uint (b ∷ bs))

-- `%d` of package fmt, of a number that is not negative. There are fewer digits than the fuel.
unfoldable pub decimal_from : ℕ → ℕ → List ℕ → List ℕ
decimal_from zero n acc = acc
decimal_from (suc fuel) n acc =
    let rest = decimal_from fuel (n / 10) ((0x30 + n % 10) ∷ acc) in
    if ltb n 10 then (0x30 + n) ∷ acc else rest

unfoldable pub decimal : ℕ → List ℕ
unfolding decimal_from
decimal n = decimal_from (suc n) n []
