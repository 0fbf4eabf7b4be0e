-- ===== src/State/Sql/Order.antt =====
-- The order of texts of the database, in which an index keeps them.
use go_icq.Prelude.{◌≡◌, refl, true, false, List, [], ◌∷◌, ℕ, arith}
use go_icq.State.Sql.{text_before}

pub text_before_irrefl : (a : List ℕ) → text_before a a ≡ false
unfolding text_before
text_before_irrefl [] = refl
text_before_irrefl (a ∷ as') = ground (arith, text_before_irrefl as')

pub text_before_trans :
    (a b c : List ℕ) → text_before a b ≡ true → text_before b c ≡ true → text_before a c ≡ true
unfolding text_before
text_before_trans [] (b ∷ bs) (c ∷ cs) h k = refl
text_before_trans [] [] c h k = absurd (cc)
text_before_trans [] (b ∷ bs) [] h k = absurd (cc)
text_before_trans (a ∷ as') [] c h k = absurd (cc)
text_before_trans (a ∷ as') (b ∷ bs) [] h k = absurd (cc)
text_before_trans (a ∷ as') (b ∷ bs) (c ∷ cs) h k = ground (arith, text_before_trans as' bs cs)

-- A text that is not before another, which is not before a third, is not before the third.
pub text_before_not_trans :
    (a b c : List ℕ) → text_before a b ≡ false → text_before b c ≡ false → text_before a c ≡ false
unfolding text_before
text_before_not_trans [] [] c h k = k
text_before_not_trans [] (b ∷ bs) c h k = absurd (cc)
text_before_not_trans (a ∷ as') b [] h k = refl
text_before_not_trans (a ∷ as') [] (c ∷ cs) h k = absurd (cc)
text_before_not_trans (a ∷ as') (b ∷ bs) (c ∷ cs) h k =
    ground (arith, text_before_not_trans as' bs cs)
