-- ===== src/State/User/Tests.antt =====
-- Screen names, passwords and ages at concrete inputs.
use go_icq.Prelude.{
  ℕ, ◌≤◌, ◌≡◌, ◌≢◌, ◌↔◌, refl, true, false, none, some, List, [], ◌∷◌, map, codes, get_elem?, inl,
  inr, Bool-cases, arith,
}
use go_icq.State.Text.{
  runes, runes_after, decode_rune, without_spaces, is_ascii, lower_byte, to_lower, is_letter,
  is_digit, parse_uint, parse_digits, atoi, decimal, decimal_from,
}
use go_icq.State.User.{User}
use go_icq.State.User.Name.{
  Unicode, new_ident_screen_name, uin, is_uin, validate_uin, count_letters, validate_aim_handle,
}
use go_icq.State.User.Password.{
  strong_md5_password_hash, validate_aim_password, validate_icq_password, validate_password,
  hash_password, validate_hash, stub_user, new_stub_user,
}
use go_icq.State.User.Checked.{AllAnswer, hash_password-accepts}
use go_icq.State.User.Identity.{
  IsLowering, without_spaces-lower, map_lower-map_lower, validate_uin-decimal,
}
use go_icq.State.User.Handle.{validate_aim_handle-hebrew}
use go_icq.State.User.Age.{date, age, age-leap_birthday}

-- Opens the functions on names for a run.
names : Unit {0}
unfolding runes runes_after decode_rune without_spaces is_ascii lower_byte to_lower is_letter
    is_digit parse_uint parse_digits atoi decimal decimal_from new_ident_screen_name uin is_uin
    validate_uin count_letters validate_aim_handle
names = tt

-- A package unicode that knows Latin-1 only.
abbrev latin_1 : Unicode
latin_1 = record { lower = map lower_byte; letters = λ r. false; digits = λ r. false }

big_bob : new_ident_screen_name latin_1 (codes "Big Bob") ≡ codes "bigbob"
unfolding names
big_bob = refl

-- U+05D0 is the letter alef.
alef : runes (0xD7 ∷ 0x90 ∷ []) ≡ 0x5D0 ∷ []
unfolding names
alef = refl

cut_rune : runes (0xE2 ∷ 0x82 ∷ 0x41 ∷ []) ≡ 0xFFFD ∷ 0xFFFD ∷ 0x41 ∷ []
unfolding names
cut_rune = refl

-- `UIN` ignores that the number is out of range.
uin_range : uin (codes "99999999999999999999x") ≡ 4294967295
unfolding names
uin_range = refl

signed_uin : validate_uin (codes "+12345") ≡ none
unfolding names
signed_uin = refl

latin_1-IsLowering : IsLowering latin_1
unfolding to_lower
latin_1-IsLowering = record {
  no_spaces = without_spaces-lower;
  settled = λ s. elim (Bool-cases (is_ascii (map lower_byte s))) [
    | inl e ↦ rw e (map_lower-map_lower s)
    | inr e ↦ rw e (map_lower-map_lower s)
  ];
}

accepted_uin : validate_uin (codes "100003") ≡ none
unfolding names
accepted_uin = refl

validate_uin-decimal_example :
    (validate_uin (decimal 2147483647) ≡ none) ↔ ((10000 ≤ 2147483647) × (2147483647 ≤ 2147483646))
validate_uin-decimal_example = validate_uin-decimal 2147483647 (omega arith)

big_bob_handle : validate_aim_handle latin_1 (codes "Big Bob") ≡ none
unfolding names
big_bob_handle = refl

validate_aim_handle-hebrew_example :
    validate_aim_handle latin_1 (0xD7 ∷ 0x90 ∷ 0xD7 ∷ 0x91 ∷ 0xD7 ∷ 0x92 ∷ []) ≢ none
validate_aim_handle-hebrew_example =
    validate_aim_handle-hebrew latin_1 (0x90 ∷ 0xD7 ∷ 0x91 ∷ 0xD7 ∷ 0x92 ∷ [])

-- A hash that keeps its text.
abbrev no_hash : List ℕ → List ℕ
no_hash s = s

abbrev bob : User
bob = stub_user latin_1 (codes "salt") (codes "Bob")

bob_password : validate_password bob (codes "welcome1") ≡ true
unfolding validate_password validate_aim_password validate_icq_password names
bob_password = refl

hash_password-accepts_example :
    (user' : User) × (hash_password no_hash bob (codes "welcome1") ≡ (user', true))
    × (validate_hash user' (strong_md5_password_hash no_hash (codes "welcome1") (codes "salt"))
        ≡ true)
    × AllAnswer no_hash user' (codes "welcome1") true
hash_password-accepts_example =
    hash_password-accepts no_hash bob (codes "welcome1") bob_password (omega arith)

fifth : (x y : ℕ) (s t : List ℕ) → get_elem? s 4 ≡ some x → get_elem? t 4 ≡ some y → x ≢ y → s ≢ t
fifth x y s t h k ne = λ e. let same : x ≡ y = cc in ne same

-- A screen name of digits is an ICQ account, for which the canned password is not too long.
stub_password : (new_stub_user no_hash latin_1 (some (codes "salt")) (codes "100003")).1 ≡ true
unfolding new_stub_user hash_password validate_password validate_aim_password validate_icq_password
    names
stub_password = refl

-- Born on 1 March 2000.
abbrev leap_born : User
leap_born = record bob {
  icq_more_info = record bob.icq_more_info { birth_year = 2000; birth_month = 3; birth_day = 1 };
}

age-leap_birthday_example : age leap_born (date 2001 3 1) ≡ 0
age-leap_birthday_example =
    age-leap_birthday leap_born 2001 refl refl (omega arith) (omega arith) (omega arith)
      (omega arith) (omega arith) (omega arith) (omega arith)
