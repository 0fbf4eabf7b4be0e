-- ===== src/State/Sql/Join.antt =====
-- What a user's first row is in a join.
use go_icq.Prelude.{
  ℕ, ◌≡◌, refl, sym, ◌∙◌, false, Bool-cases, Option-cases, Option, none, some, inl, inr, List, [],
  ◌∷◌, ◌++◌, bytes_eq, bytes_eq_sound, bytes_eq_refl, arith,
}
use go_icq.State.Sql.{
  matches, lookup, pairs, left_join, left_rows, unless_matched, unmatched, outer_join,
}

abbrev pub or_else {ℓ} : {A : Type ℓ} → Option A → Option A → Option A
or_else none o = o
or_else (some a) o = some a

abbrev pub head? {ℓ} : {A : Type ℓ} → List A → Option A
head? [] = none
head? (a ∷ as') = some a

abbrev pub joined {ℓ} : {A B : Type ℓ} → Option A → Option B → Option (Option A × Option B)
joined none none = none
joined none (some b) = some (none, some b)
joined (some a) b = some (some a, b)

pub lookup-append {ℓ} :
    {A : Type ℓ} (xs ys : List (List ℕ × A)) (k : List ℕ)
    → lookup (xs ++ ys) k ≡ or_else (lookup xs k) (lookup ys k)
unfolding lookup
lookup-append [] ys k = refl
lookup-append ((j, a) ∷ xs) ys k = ground (arith, lookup-append xs ys k)

pub head-matches {ℓ} :
    {A : Type ℓ} (rows : List (List ℕ × A)) (k : List ℕ) → head? (matches rows k) ≡ lookup rows k
unfolding matches lookup
head-matches [] k = refl
head-matches ((j, a) ∷ rows) k = ground (arith, head-matches rows k)

module _ {ℓ} {A B : Type ℓ} where
  lookup-pairs :
      (j : List ℕ) (a : A) (bs : List B) (k : List ℕ)
      → bytes_eq j k ≡ false
      → lookup (pairs j a bs) k ≡ none
  unfolding lookup
  lookup-pairs j a [] k h = refl
  lookup-pairs j a (b ∷ bs) k h = rw h (lookup-pairs j a bs k h)

  lookup-left_join_ne :
      (j : List ℕ) (a : A) (bs : List B) (k : List ℕ)
      → bytes_eq j k ≡ false
      → lookup (left_join j a bs) k ≡ none
  unfolding lookup
  lookup-left_join_ne j a [] k h = rw h refl
  lookup-left_join_ne j a (b ∷ bs) k h = lookup-pairs j a (b ∷ bs) k h

  lookup-left_join :
      (k : List ℕ) (a : A) (bs : List B) → lookup (left_join k a bs) k ≡ some (some a, head? bs)
  unfolding lookup
  lookup-left_join k a [] = rw (bytes_eq_refl k) refl
  lookup-left_join k a (b ∷ bs) = rw (bytes_eq_refl k) refl

  abbrev with_right : Option A → Option B → Option (Option A × Option B)
  with_right none b = none
  with_right (some a) b = some (some a, b)

  lookup-left_rows :
      (left : List (List ℕ × A)) (right : List (List ℕ × B)) (k : List ℕ)
      → lookup (left_rows left right) k ≡ with_right (lookup left k) (lookup right k)
  unfolding left_rows lookup
  lookup-left_rows [] right k = refl
  lookup-left_rows ((j, a) ∷ left) right k =
      lookup-append (left_join j a (matches right j)) (left_rows left right) k
      ∙ elim (Bool-cases (bytes_eq j k)) [
        | inl e ↦
            rw
              (
                bytes_eq_sound j k e,
                lookup-left_join k a (matches right k),
                bytes_eq_refl k,
                head-matches right k,
              )
              refl
        | inr e ↦
            rw (lookup-left_join_ne j a (matches right j) k e, e) (lookup-left_rows left right k)
      ]

  abbrev without_left : Option B → Option (Option A × Option B)
  without_left none = none
  without_left (some b) = some (none, some b)

  lookup-unless_matched :
      (o : Option A) (j : List ℕ) (b : B) (rest : List (List ℕ × (Option A × Option B)))
      (k : List ℕ)
      → bytes_eq j k ≡ false
      → lookup (unless_matched o j b rest) k ≡ lookup rest k
  unfolding lookup
  lookup-unless_matched none j b rest k h = rw h refl
  lookup-unless_matched (some a) j b rest k h = refl

  lookup-unmatched :
      (left : List (List ℕ × A)) (right : List (List ℕ × B)) (k : List ℕ)
      → lookup left k ≡ none
      → lookup (unmatched left right) k ≡ without_left (lookup right k)
  unfolding unmatched lookup
  lookup-unmatched left [] k h = refl
  lookup-unmatched left ((j, b) ∷ right) k h = elim (Bool-cases (bytes_eq j k)) [
    | inl e ↦ rw (bytes_eq_sound j k e, h, bytes_eq_refl k) refl
    | inr e ↦
        rw (lookup-unless_matched (lookup left j) j b (unmatched left right) k e, e)
          (lookup-unmatched left right k h)
  ]

  joined-some : (a : A) (b : Option B) → joined (some a) b ≡ some (some a, b)
  joined-some a none = refl
  joined-some a (some b) = refl

  joined-none : (b : Option B) → without_left b ≡ joined none b
  joined-none none = refl
  joined-none (some b) = refl

  -- The first row of a user in the join has his first row of the left and his first row of the right.
  pub lookup-outer_join :
      (left : List (List ℕ × A)) (right : List (List ℕ × B)) (k : List ℕ)
      → lookup (outer_join left right) k ≡ joined (lookup left k) (lookup right k)
  unfolding outer_join
  lookup-outer_join left right k =
      lookup-append (left_rows left right) (unmatched left right) k
      ∙ elim (Option-cases (lookup left k)) [
        | inl e ↦
            rw (lookup-left_rows left right k, e, lookup-unmatched left right k e)
              (joined-none (lookup right k))
        | inr (a, e) ↦ rw (lookup-left_rows left right k, e) (sym (joined-some a (lookup right k)))
      ]
