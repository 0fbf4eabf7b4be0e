-- ===== src/Wire/Roast/Laws.antt =====
-- Roasting a password twice gives the password back: what `roastPass` (wire/user.go) has to do.
use go_icq.Prelude.{
  ℕ, zero, suc, ◌%◌, ◌<◌, ◌≡◌, refl, ap, some, Bool, true, ◌&&◌, List, [], ◌∷◌, ◌==◌, ==_iff, All,
  length, get_elem?, bit_xor, arith,
}
use go_icq.Wire.Bytes.{IsByte}
use go_icq.Wire.Roast.{roast_from, roast_pass}

-- A test of every pair of numbers below two bounds, one row after the other.
row : (ℕ → Bool) → ℕ → Bool
row test zero = true
row test (suc n) = row test n && test n

row_holds : (test : ℕ → Bool) (bound i : ℕ) → i < bound → row test bound ≡ true → test i ≡ true
unfolding row
row_holds test zero i below all = absurd (omega arith)
row_holds test (suc bound) i below all = ground (arith, row_holds test bound i)

twice_same : ℕ → ℕ → Bool
twice_same k b = bit_xor (bit_xor b k) k == b

byte_pairs : row (λ k. row (twice_same k) 256) 256 ≡ true
unfolding row twice_same
byte_pairs = refl

xor_twice : (k b : ℕ) → IsByte k → IsByte b → bit_xor (bit_xor b k) k ≡ b
unfolding twice_same
xor_twice k b hk hb =
    let in_row = row_holds (λ k. row (twice_same k) 256) 256 k hk byte_pairs in
    (==_iff _ b).0 (row_holds (twice_same k) 256 b hb in_row)

get_elem?-IsByte :
    (table : List ℕ) (i : ℕ)
    → All IsByte table
    → i < length table
    → (k : ℕ) × (get_elem? table i ≡ some k) × IsByte k
get_elem?-IsByte [] i h lt = absurd (omega arith)
get_elem?-IsByte (k ∷ table) zero h lt = (k, refl, h.0)
get_elem?-IsByte (k ∷ table) (suc i) h lt = get_elem?-IsByte table i h.1 (omega arith)

roast_from_cons :
    (table bs : List ℕ) {q : List ℕ} (i b : ℕ) {k : ℕ}
    → get_elem? table (i % length table) ≡ some k
    → roast_from (suc i) table bs ≡ some q
    → roast_from i table (b ∷ bs) ≡ some (bit_xor b k ∷ q)
unfolding roast_from
roast_from_cons table bs i b e e' = rw (roast_from, e, e') refl

roast_from-roast_from :
    (table : List ℕ)
    → 0 < length table
    → All IsByte table
    → (i : ℕ) (p : List ℕ) → All IsByte p
    → (q : List ℕ) × (roast_from i table p ≡ some q)
      × (roast_from i table q ≡ some p)
      × (length q ≡ length p)
unfolding roast_from
roast_from-roast_from table h hs i [] hp = ([], refl, refl, refl)
roast_from-roast_from table h hs i (b ∷ p) hp =
    let (k, e, hk) = get_elem?-IsByte table (i % length table) hs (omega arith) in
    let (q, eq, eq', el) = roast_from-roast_from table h hs (suc i) p hp.1 in
    (
      bit_xor b k ∷ q,
      roast_from_cons table p i b e eq,
      rw (xor_twice k b hk hp.0) at (roast_from_cons table q i (bit_xor b k) e eq'),
      ap suc el,
    )

-- With a table of bytes that is not empty, `roastPass` returns without a panic a password of the same
-- length, and from that one the password it was given: it obfuscates and deobfuscates.
pub roast_pass-roast_pass :
    (table p : List ℕ)
    → 0 < length table
    → All IsByte table
    → All IsByte p
    → (q : List ℕ) × (roast_pass p table ≡ some q)
      × (roast_pass q table ≡ some p)
      × (length q ≡ length p)
unfolding roast_pass
roast_pass-roast_pass table p h hs hp = roast_from-roast_from table h hs 0 p hp
