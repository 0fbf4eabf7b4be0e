-- ===== src/State/Sql.antt =====
-- The statements of SQL that state/user_store.go and state/relationship.go use, as functions of lists of
-- rows.
pub mod Join
pub mod Order
use go_icq.Prelude.{
  ltb, ◌&&◌, ◌==◌, ℕ, Bool, true, false, ◌||◌, Option, none, some, List, [], ◌∷◌, ◌++◌, bytes_eq,
  if◌then◌else◌,
}

-- `INSERT … ON CONFLICT (key) DO UPDATE`: the row with the key of the new one is changed, and if there is
-- none the new one is added.
unfoldable pub upsert {ℓ} : {A : Type ℓ} → (A → A → Bool) → (A → A) → A → List A → List A
upsert same change new [] = new ∷ []
upsert same change new (row ∷ rows) =
    let rest = upsert same change new rows in if same row new then change row ∷ rows else row ∷ rest

-- The same into rows that an index keeps in order: a new row goes in front of the first that comes after it.
unfoldable pub upsert_ordered {ℓ} :
    {A : Type ℓ} → (A → A → Bool) → (A → A → Bool) → A → List A → List A
upsert_ordered same before new [] = new ∷ []
upsert_ordered same before new (row ∷ rows) =
    let rest = upsert_ordered same before new rows in
    if same row new then new ∷ rows else if before new row then new ∷ row ∷ rows else row ∷ rest

-- The order of texts, byte by byte.
unfoldable pub text_before : List ℕ → List ℕ → Bool
text_before [] [] = false
text_before [] (b ∷ bs) = true
text_before (a ∷ as') [] = false
text_before (a ∷ as') (b ∷ bs) = ltb a b || (a == b && text_before as' bs)

-- `UPDATE … WHERE`, and `DELETE … WHERE`.
unfoldable pub update_where {ℓ} : {A : Type ℓ} → (A → Bool) → (A → A) → List A → List A
update_where test change [] = []
update_where test change (row ∷ rows) =
    (if test row then change row else row) ∷ update_where test change rows

unfoldable pub delete_where {ℓ} : {A : Type ℓ} → (A → Bool) → List A → List A
delete_where test [] = []
delete_where test (row ∷ rows) =
    if test row then delete_where test rows else row ∷ delete_where test rows

module _ {ℓ} {A : Type ℓ} where
  -- The rows of a user, and the first of them.
  unfoldable pub matches : List (List ℕ × A) → List ℕ → List A
  matches [] k = []
  matches ((j, a) ∷ rows) k = let rest = matches rows k in if bytes_eq j k then a ∷ rest else rest

  unfoldable pub lookup : List (List ℕ × A) → List ℕ → Option A
  lookup [] k = none
  lookup ((j, a) ∷ rows) k = if bytes_eq j k then some a else lookup rows k

module _ {ℓ} {A B : Type ℓ} where
  -- `FULL OUTER JOIN … ON` the user: a row of the left with each row of the right that it matches, or
  -- with none if there is none, then the rows of the right that match no row of the left.
  abbrev pub pairs : List ℕ → A → List B → List (List ℕ × (Option A × Option B))
  pairs k a [] = []
  pairs k a (b ∷ bs) = (k, (some a, some b)) ∷ pairs k a bs

  abbrev pub left_join : List ℕ → A → List B → List (List ℕ × (Option A × Option B))
  left_join k a [] = (k, (some a, none)) ∷ []
  left_join k a (b ∷ bs) = pairs k a (b ∷ bs)

  unfoldable pub left_rows :
      List (List ℕ × A) → List (List ℕ × B) → List (List ℕ × (Option A × Option B))
  left_rows [] right = []
  left_rows ((k, a) ∷ left) right = left_join k a (matches right k) ++ left_rows left right

  abbrev pub unless_matched :
      Option A
      → List ℕ
      → B
      → List (List ℕ × (Option A × Option B))
      → List (List ℕ × (Option A × Option B))
  unless_matched none k b rest = (k, (none, some b)) ∷ rest
  unless_matched (some a) k b rest = rest

  unfoldable pub unmatched :
      List (List ℕ × A) → List (List ℕ × B) → List (List ℕ × (Option A × Option B))
  unmatched left [] = []
  unmatched left ((k, b) ∷ right) = unless_matched (lookup left k) k b (unmatched left right)

  unfoldable pub outer_join :
      List (List ℕ × A) → List (List ℕ × B) → List (List ℕ × (Option A × Option B))
  outer_join left right = left_rows left right ++ unmatched left right

-- `IN (SELECT * FROM filter)`, a condition that is there only if there is a filter.
unfoldable pub is_member : List (List ℕ) → List ℕ → Bool
is_member [] name = false
is_member (n ∷ ns) name = bytes_eq n name || is_member ns name

abbrev pub passes : List (List ℕ) → List ℕ → Bool
passes [] name = true
passes (n ∷ ns) name = is_member (n ∷ ns) name

-- `OR` of three values, of which null is `none`, and `COALESCE(c OR f, FALSE)`.
abbrev pub sql_or : Option Bool → Option Bool → Option Bool
sql_or (some true) f = some true
sql_or (some false) (some b) = some b
sql_or (some false) none = none
sql_or none (some true) = some true
sql_or none (some false) = none
sql_or none none = none

abbrev pub or_false : Option Bool → Bool
or_false none = false
or_false (some b) = b
