-- ===== src/Wire/Roast/Tests.antt =====
-- The roasting of wire/user.go at concrete inputs.
use go_icq.Prelude.{ℕ, ◌≡◌, refl, some, List, [], ◌∷◌, codes}
use go_icq.Wire.Roast.{roast_from, roast_pass, roast_toc_password}

abbrev password : List ℕ
password = codes "password"

-- The last byte takes the first of the table again.
toc_password :
    roast_toc_password password ≡ some (0x24 ∷ 0x08 ∷ 0x10 ∷ 0x5C ∷ 0x23 ∷ 0x00 ∷ 0x11 ∷ 0x30 ∷ [])
unfolding roast_toc_password roast_pass roast_from
toc_password = refl
