-- ===== src/State/User/Identity.antt =====
-- Screen names of state/user.go: the normal form, and which names stand for numbers.
use go_icq.Prelude.{
  ℕ, ◌%◌, ◌^◌, ◌<◌, ◌≤◌, ◌≡◌, ◌↔◌, refl, inl, inr, true, none, List, [], ◌∷◌, map, ltb, Bool-cases,
  and_parts, arith,
}
use go_icq.Prelude.Int.{pos, negsuc}
use go_icq.State.Text.{
  is_space, without_spaces, is_ascii, lower_byte, to_lower, Atoi, number, syntax_error, range_error,
  atoi, decimal,
}
use go_icq.State.Text.Laws.{to_lower-number, atoi-decimal}
use go_icq.State.User.Name.{Unicode, new_ident_screen_name, uin, uin_error, validate_uin}

-- What package unicode promises of the lower case of a text that is not ASCII: it brings in no spaces, and
-- has itself as its lower case.
pub record IsLowering (u : Unicode) : Type 0 where
  pub no_spaces :
      (s : List ℕ) → without_spaces (u.lower (without_spaces s)) ≡ u.lower (without_spaces s)
  pub settled : (s : List ℕ) → to_lower u.lower (u.lower s) ≡ u.lower s

lower_byte-space : (b : ℕ) → is_space (lower_byte b) ≡ is_space b
unfolding lower_byte
lower_byte-space b = ground arith

lower_byte-ascii : (b : ℕ) → ltb b 0x80 ≡ true → ltb (lower_byte b) 0x80 ≡ true
unfolding lower_byte
lower_byte-ascii b h = ground arith

lower_byte-lower_byte : (b : ℕ) → lower_byte (lower_byte b) ≡ lower_byte b
unfolding lower_byte
lower_byte-lower_byte b = ground arith

pub without_spaces-lower :
    (s : List ℕ)
    → without_spaces (map lower_byte (without_spaces s)) ≡ map lower_byte (without_spaces s)
unfolding without_spaces
without_spaces-lower [] = refl
without_spaces-lower (b ∷ bs) = elim (Bool-cases (is_space b)) [
  | inl e ↦ rw e (without_spaces-lower bs)
  | inr e ↦ rw (e, lower_byte-space b, e, without_spaces-lower bs) refl
]

is_ascii-lower : (s : List ℕ) → is_ascii s ≡ true → is_ascii (map lower_byte s) ≡ true
unfolding is_ascii
is_ascii-lower [] h = refl
is_ascii-lower (b ∷ bs) h =
    let (here, there) = and_parts _ _ h in
    rw (lower_byte-ascii b here, is_ascii-lower bs there) refl

pub map_lower-map_lower : (s : List ℕ) → map lower_byte (map lower_byte s) ≡ map lower_byte s
map_lower-map_lower [] = refl
map_lower-map_lower (b ∷ bs) = rw (lower_byte-lower_byte b, map_lower-map_lower bs) refl

-- Normalising a screen name again changes nothing, so that an identifier is a normal form: the name of a
-- session is found under the identifier of its identifier.
pub new_ident_screen_name-new_ident_screen_name :
    (u : Unicode) (s : List ℕ)
    → IsLowering u
    → new_ident_screen_name u (new_ident_screen_name u s) ≡ new_ident_screen_name u s
unfolding new_ident_screen_name to_lower
new_ident_screen_name-new_ident_screen_name u s h =
    elim (Bool-cases (is_ascii (without_spaces s))) [
      | inl e ↦
          rw
            (
              e,
              without_spaces-lower s,
              is_ascii-lower (without_spaces s) e,
              map_lower-map_lower (without_spaces s),
            )
            refl
      | inr e ↦ rw (e, h.no_spaces s) (h.settled (without_spaces s))
    ]

uin_error-none :
    (a : Atoi)
    → uin_error a ≡ none
    → (n : ℕ) × (a ≡ number (pos n)) × (10000 ≤ n) × (n ≤ 2147483646)
uin_error-none (number (pos n)) h =
    let range : (10000 ≤ n) × (n ≤ 2147483646) = ground arith in (n, refl, range.0, range.1)
uin_error-none (number (negsuc n)) h = cc
uin_error-none syntax_error h = cc
uin_error-none (range_error z) h = cc

uin-number : (s : List ℕ) (n : ℕ) → atoi s ≡ number (pos n) → n < 2 ^ 32 → uin s ≡ n
unfolding uin
uin-number s n read h = let fits : n % 2 ^ 32 ≡ n = omega arith in rw (uin, read, fits) refl

-- A screen name that `ValidateUIN` accepts is its own identifier, and the identifier's `UIN` is a number
-- from 10000 to 2147483646, the one that the name reads as: nothing is lost to the 32 bits or to an
-- error that `UIN` ignores.
pub validate_uin-uin :
    (u : Unicode) (s : List ℕ)
    → validate_uin s ≡ none
    → (new_ident_screen_name u s ≡ s)
      × (10000 ≤ uin (new_ident_screen_name u s))
      × (uin (new_ident_screen_name u s) ≤ 2147483646)
      × (atoi s ≡ number (pos (uin (new_ident_screen_name u s))))
unfolding new_ident_screen_name validate_uin
validate_uin-uin u s h =
    let (n, read, low, high) = uin_error-none (atoi s) h in
    let same = to_lower-number u.lower s (pos n) read in
    let value = uin-number s n read (omega arith) in
    (same, rw (same, value) low, rw (same, value) high, rw (same, value) read)

-- The decimal digits of a number are accepted as a UIN exactly in the range from 10000 to 2147483646.
pub validate_uin-decimal :
    (n : ℕ) → n < 2 ^ 63 → (validate_uin (decimal n) ≡ none) ↔ ((10000 ≤ n) × (n ≤ 2147483646))
unfolding validate_uin
validate_uin-decimal n h = rw (validate_uin, atoi-decimal n h) (ground arith)
