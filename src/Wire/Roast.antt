-- ===== src/Wire/Roast.antt =====
-- The roasting of passwords, of wire/user.go: a password's bytes, each with its byte of a table that
-- is repeated as often as it takes.
pub mod Laws
mod Tests
use go_icq.Prelude.{
  ℕ, zero, suc, ◌%◌, Option, none, some, List, [], ◌∷◌, String, codes, length, get_elem?, bit_xor,
}

-- The loop of `roastPass` from index `i`; nothing stands for a panic, which an empty table brings.
unfoldable pub roast_from : ℕ → List ℕ → List ℕ → Option (List ℕ)
roast_from i table [] = some []
roast_from i table (b ∷ bs) = elim (get_elem? table (i % length table)) [
  | none ↦ none
  | some k ↦ elim (roast_from (suc i) table bs) [
    | none ↦ none
    | some rest ↦ some (bit_xor b k ∷ rest)
  ]
]

unfoldable pub roast_pass : List ℕ → List ℕ → Option (List ℕ)
roast_pass roasted_pass roast_table = roast_from 0 roast_table roasted_pass

abbrev pub oscar_table : List ℕ
oscar_table =
    0xF3 ∷ 0x26 ∷ 0x81 ∷ 0xC4 ∷ 0x39 ∷ 0x86 ∷ 0xDB ∷ 0x92 ∷ 0x71 ∷ 0xA3 ∷ 0xB9 ∷ 0xE6 ∷ 0x53 ∷ 0x7A
    ∷ 0x95 ∷ 0x7C ∷ []

abbrev pub kerberos_table : List ℕ
kerberos_table =
    0x76 ∷ 0x91 ∷ 0xc5 ∷ 0xe7 ∷ 0xd0 ∷ 0xd9 ∷ 0x95 ∷ 0xdd ∷ 0x9e ∷ 0x2F ∷ 0xea ∷ 0xd8 ∷ 0x6B ∷ 0x21
    ∷ 0xc2 ∷ 0xbc ∷ []

abbrev pub oscar_java_table : List ℕ
oscar_java_table =
    0xF3 ∷ 0xB3 ∷ 0x6C ∷ 0x99 ∷ 0x95 ∷ 0x3F ∷ 0xAC ∷ 0xB6 ∷ 0xC5 ∷ 0xFA ∷ 0x6B ∷ 0x63 ∷ 0x69 ∷ 0x6C
    ∷ 0xC3 ∷ 0x9A ∷ []

abbrev pub toc_table : List ℕ
toc_table = codes "Tic/Toc"

unfoldable pub roast_oscar_password : List ℕ → Option (List ℕ)
roast_oscar_password roasted_pass = roast_pass roasted_pass oscar_table

unfoldable pub roast_kerberos_password : List ℕ → Option (List ℕ)
roast_kerberos_password roasted_pass = roast_pass roasted_pass kerberos_table

unfoldable pub roast_oscar_java_password : List ℕ → Option (List ℕ)
roast_oscar_java_password roasted_pass = roast_pass roasted_pass oscar_java_table

unfoldable pub roast_toc_password : List ℕ → Option (List ℕ)
roast_toc_password roasted_pass = roast_pass roasted_pass toc_table
