-- ===== src/State/Store/Keywords.antt =====
-- The keywords of the AIM directory and their categories (state/user_store.go): the tables
-- `aimKeywordCategory` and `aimKeyword`, and the columns `aim_keyword1` to `aim_keyword5` of `users`.
pub mod InUse
mod Tests
use go_icq.Prelude.{
  ℕ, ◌+◌, Bool, true, false, ◌&&◌, ◌||◌, not, ◌==◌, ltb, Option, none, some, ◌⊎◌, inl, inr, List,
  [], ◌∷◌, ◌++◌, map, bytes_eq, if◌then◌else◌,
}
use go_icq.State.Sql.{text_before, update_where, delete_where}
use go_icq.State.User.Info.{Category, Keyword}

pub data KeywordError : Type 0 where
  keyword_in_use keyword_exists keyword_not_found : KeywordError
  category_exists category_not_found too_many_categories too_many_keywords : KeywordError

pub record KeywordRow : Type 0 where
  pub key_id : ℕ
  pub word : List ℕ
  pub parent : Option ℕ

-- The five columns of a user.
pub record ChoiceRow : Type 0 where
  pub chooser : List ℕ
  pub choices : List (Option ℕ)

pub record Directory : Type 0 where
  pub categories : List Category
  pub keywords : List KeywordRow
  pub choices_of : List ChoiceRow

-- The ID that SQLite gives a new row, one more than the greatest.
unfoldable pub next_id : List ℕ → ℕ
next_id [] = 1
next_id (n ∷ ns) = let rest = next_id ns in if ltb n rest then rest else n + 1

abbrev pub max_uint8 : ℕ
max_uint8 = 255

unfoldable pub any_of {ℓ} : {A : Type ℓ} → (A → Bool) → List A → Bool
any_of test [] = false
any_of test (row ∷ rows) = test row || any_of test rows

-- `CreateCategory`, a transaction that an error rolls back.
unfoldable pub create_category : Directory → List ℕ → Directory × (Category ⊎ KeywordError)
create_category d name =
    let id = next_id (map (λ (c : Category). c.id) d.categories) in
    if any_of (λ (c : Category). bytes_eq c.name name) d.categories
    then (d, inr category_exists)
    else if ltb max_uint8 id
    then (d, inr too_many_categories)
    else (
      record d { categories = d.categories ++ record { id = id; name = name } ∷ [] },
      inl (record { id = id; name = name }),
    )

-- Whether a user has chosen a keyword.
abbrev pub is_choice : ℕ → Option ℕ → Bool
is_choice id none = false
is_choice id (some n) = n == id

unfoldable pub is_chosen : List ChoiceRow → ℕ → Bool
is_chosen rows id = any_of (λ (row : ChoiceRow). any_of (is_choice id) row.choices) rows

abbrev pub in_category : ℕ → KeywordRow → Bool
in_category id row = elim row.parent [ none ↦ false | some n ↦ n == id ]

-- The keywords of a category are deleted with it, which the columns of users may forbid.
unfoldable pub delete_category : Directory → ℕ → Directory × Option KeywordError
delete_category d id =
    if any_of (λ row. in_category id row && is_chosen d.choices_of row.key_id) d.keywords
      && any_of (λ (c : Category). c.id == id) d.categories
    then (d, some keyword_in_use)
    else if any_of (λ (c : Category). c.id == id) d.categories
    then (
      record d {
        categories = delete_where (λ (c : Category). c.id == id) d.categories;
        keywords = delete_where (in_category id) d.keywords;
      },
      none,
    )
    else (d, some category_not_found)

-- `ORDER BY name`, byte by byte.
unfoldable pub insert_by_name {ℓ} : {A : Type ℓ} → (A → List ℕ) → A → List A → List A
insert_by_name name a [] = a ∷ []
insert_by_name name a (b ∷ rest) =
    let later = insert_by_name name a rest in
    if text_before (name b) (name a) then b ∷ later else a ∷ b ∷ rest

unfoldable pub sort_by_name {ℓ} : {A : Type ℓ} → (A → List ℕ) → List A → List A
sort_by_name name [] = []
sort_by_name name (a ∷ rest) = insert_by_name name a (sort_by_name name rest)

unfoldable pub categories_by_name : Directory → List Category
categories_by_name d = sort_by_name (λ (c : Category). c.name) d.categories

-- No category is asked for by zero.
abbrev pub parent_of : ℕ → Option ℕ
parent_of category_id = if category_id == 0 then none else some category_id

unfoldable pub create_keyword : Directory → List ℕ → ℕ → Directory × (Keyword ⊎ KeywordError)
create_keyword d name category_id =
    let id = next_id (map (λ (k : KeywordRow). k.key_id) d.keywords) in
    if any_of (λ (k : KeywordRow). bytes_eq k.word name) d.keywords
    then (d, inr keyword_exists)
    else if not (category_id == 0)
        && not (any_of (λ (c : Category). c.id == category_id) d.categories)
    then (d, inr category_not_found)
    else if ltb max_uint8 id
    then (d, inr too_many_keywords)
    else (
      record d {
        keywords =
            d.keywords ++ record { key_id = id; word = name; parent = parent_of category_id } ∷ [];
      },
      inl (record { id = id; name = name }),
    )

unfoldable pub delete_keyword : Directory → ℕ → Directory × Option KeywordError
delete_keyword d id =
    if any_of (λ (k : KeywordRow). k.key_id == id) d.keywords && is_chosen d.choices_of id
    then (d, some keyword_in_use)
    else if any_of (λ (k : KeywordRow). k.key_id == id) d.keywords
    then (
      record d { keywords = delete_where (λ (k : KeywordRow). k.key_id == id) d.keywords },
      none,
    )
    else (d, some keyword_not_found)

-- `KeywordsByCategory`. A list that is empty is an error unless there is a category of the ID.
unfoldable pub select_keywords : ℕ → List KeywordRow → List Keyword
select_keywords id [] = []
select_keywords id (row ∷ rows) =
    let rest = select_keywords id rows in
    if (if id == 0 then elim row.parent [ none ↦ true | some n ↦ false ] else in_category id row)
    then record { id = row.key_id; name = row.word } ∷ rest
    else rest

abbrev pub or_missing : Directory → ℕ → List Keyword → List Keyword ⊎ KeywordError
or_missing d id [] =
    if any_of (λ (c : Category). c.id == id) d.categories then inl [] else inr category_not_found
or_missing d id (k ∷ ks) = inl (k ∷ ks)

unfoldable pub keywords_by_category : Directory → ℕ → List Keyword ⊎ KeywordError
unfolding select_keywords
keywords_by_category d id =
    or_missing d id (sort_by_name (λ (k : Keyword). k.name) (select_keywords id d.keywords))

-- `SetKeywords`: the ID of each name that is a keyword, and null for the others.
unfoldable pub id_of : List KeywordRow → List ℕ → Option ℕ
id_of [] name = none
id_of (row ∷ rows) name = if bytes_eq row.word name then some row.key_id else id_of rows name

unfoldable pub set_keywords : Directory → List ℕ → List (List ℕ) → Directory
set_keywords d user names = record d {
  choices_of =
      update_where (λ (row : ChoiceRow). bytes_eq row.chooser user)
        (λ row. record row { choices = map (id_of d.keywords) names }) d.choices_of;
}

-- `FindByAIMKeyword`, the names of the users found.
abbrev pub choosers : Option ℕ → List ChoiceRow → List (List ℕ)
choosers none rows = []
choosers (some id) [] = []
choosers (some id) (row ∷ rows) =
    let rest = choosers (some id) rows in
    if any_of (is_choice id) row.choices then row.chooser ∷ rest else rest

unfoldable pub find_by_aim_keyword : Directory → List ℕ → List (List ℕ)
find_by_aim_keyword d name = choosers (id_of d.keywords name) d.choices_of
