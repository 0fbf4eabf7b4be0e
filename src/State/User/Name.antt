-- ===== src/State/User/Name.antt =====
-- Screen names, of state/user.go: `IdentScreenName` and `DisplayScreenName`, both as their bytes.
use go_icq.Prelude.{
  ℕ, suc, ◌-◌, ◌%◌, ◌^◌, Bool, true, false, ◌||◌, ◌&&◌, not, Option, none, some, List, [], ◌∷◌,
  length, ltb, if◌then◌else◌,
}
use go_icq.Prelude.Int.{ℤ, pos, negsuc}
use go_icq.State.Text.{
  runes, is_space, without_spaces, to_lower, is_letter, is_digit, Atoi, number, syntax_error,
  range_error, atoi,
}

-- What package unicode knows above Latin-1.
pub record Unicode : Type 0 where
  pub lower : List ℕ → List ℕ
  pub letters : ℕ → Bool
  pub digits : ℕ → Bool

unfoldable pub new_ident_screen_name : Unicode → List ℕ → List ℕ
new_ident_screen_name u screen_name = to_lower u.lower (without_spaces screen_name)

-- `uint32` of an int.
abbrev pub uint_32 : ℤ → ℕ
uint_32 (pos n) = n % 2 ^ 32
uint_32 (negsuc n) = 2 ^ 32 - 1 - n % 2 ^ 32

-- The error of `Atoi` is ignored, and its number is not.
unfoldable pub uin : List ℕ → ℕ
uin ident = elim (atoi ident) [
  | number z ↦ uint_32 z
  | syntax_error ↦ 0
  | range_error z ↦ uint_32 z
]

abbrev are_digits : Unicode → List ℕ → Bool
are_digits u [] = true
are_digits u (r ∷ rs) = is_digit u.digits r && are_digits u rs

unfoldable pub is_uin : Unicode → List ℕ → Bool
is_uin u [] = false
is_uin u (b ∷ bs) = are_digits u (runes (b ∷ bs))

pub data NameError : Type 0 where
  aim_handle_length icq_uin_invalid_format aim_handle_invalid_format : NameError

abbrev pub uin_error : Atoi → Option NameError
uin_error (number (pos n)) =
    if ltb n 10000 || ltb 2147483646 n then some icq_uin_invalid_format else none
uin_error (number (negsuc n)) = some icq_uin_invalid_format
uin_error syntax_error = some icq_uin_invalid_format
uin_error (range_error z) = some icq_uin_invalid_format

unfoldable pub validate_uin : List ℕ → Option NameError
validate_uin s = uin_error (atoi s)

-- The loop over the runes: how many letters and digits there are, or nothing where a rune is neither, nor a
-- space.
unfoldable pub count_letters : Unicode → ℕ → List ℕ → Option ℕ
count_letters u c [] = some c
count_letters u c (r ∷ rs) =
    let counted = count_letters u (suc c) rs in
    let passed = count_letters u c rs in
    if is_letter u.letters r || is_digit u.digits r
    then counted
    else if is_space r
    then passed
    else none

abbrev pub last_is_space : List ℕ → Bool
last_is_space [] = false
last_is_space (b ∷ []) = is_space b
last_is_space (b ∷ c ∷ bs) = last_is_space (c ∷ bs)

-- The first byte, not the first rune, is asked to be a letter.
abbrev pub starts_with_letter : Unicode → List ℕ → Bool
starts_with_letter u [] = false
starts_with_letter u (b ∷ bs) = is_letter u.letters b

unfoldable pub validate_aim_handle : Unicode → List ℕ → Option NameError
validate_aim_handle u s =
    if ltb 16 (length s) then some aim_handle_length else elim (count_letters u 0 (runes s)) [
      | none ↦ some aim_handle_invalid_format
      | some c ↦
          if ltb c 3
          then some aim_handle_length
          else if not (starts_with_letter u s) || last_is_space s
          then some aim_handle_invalid_format
          else none
    ]
