-- ===== src/State/Session/Rates/Arrays.antt =====
-- Arrays as lists of their elements: assignment at an index that is a class's identifier less one.
use go_icq.Prelude.{ℕ, zero, suc, ◌-◌, ◌^◌, List, [], ◌∷◌}

unfoldable pub set_elem {ℓ} : {A : Type ℓ} → List A → ℕ → A → List A
set_elem [] i a = []
set_elem (x ∷ xs) zero a = a ∷ xs
set_elem (x ∷ xs) (suc i) a = x ∷ set_elem xs i a

-- The index, of 16 bits, is in range here.
unfoldable pub change {ℓ} : {A : Type ℓ} → List A → ℕ → A → List A
unfolding set_elem
change xs zero a = set_elem xs (2 ^ 16 - 1) a
change xs (suc n) a = set_elem xs n a
