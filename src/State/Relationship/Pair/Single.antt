-- ===== src/State/Relationship/Pair/Single.antt =====
-- With a filter of one user the query of state/relationship.go has rows of that user only.
use go_icq.Prelude.{
  ℕ, ◌≡◌, refl, ◌∙◌, Bool, true, ◌&&◌, Bool-cases, and_parts, Option, none, some, inl, inr, List,
  [], ◌∷◌, ◌++◌, bytes_eq, bytes_eq_sound, bytes_eq_refl, All, All-append, arith,
}
use go_icq.State.User.Name.{Unicode}
use go_icq.State.Store.{FeedbagRow, ModeRow, ClientRow, Tables}
use go_icq.State.Store.BuddyLists.{names_user}
use go_icq.State.Sql.{
  matches, lookup, pairs, left_join, left_rows, unless_matched, unmatched, outer_join, is_member,
  passes,
}
use go_icq.State.Sql.Join.{head?}
use go_icq.State.Relationship.{
  Relationship, Flags, relation, with_modes, relations, uses_feedbag, merge_lists, group_row,
  group_by, select_items, select_client, their_buddy_lists, your_buddy_list,
}

abbrev pub Only {ℓ} : {A : Type ℓ} → List ℕ → List (List ℕ × A) → Type 0
Only them rows = All (λ row. row.0 ≡ them) rows

module _ {ℓ} {A B : Type ℓ} (them : List ℕ) where
  pairs-Only : (k : List ℕ) (a : A) (bs : List B) → k ≡ them → Only them (pairs k a bs)
  pairs-Only k a [] h = tt
  pairs-Only k a (b ∷ bs) h = (h, pairs-Only k a bs h)

  left_join-Only : (k : List ℕ) (a : A) (bs : List B) → k ≡ them → Only them (left_join k a bs)
  left_join-Only k a [] h = (h, tt)
  left_join-Only k a (b ∷ bs) h = pairs-Only k a (b ∷ bs) h

  left_rows-Only :
      (left : List (List ℕ × A)) (right : List (List ℕ × B))
      → Only them left
      → Only them (left_rows left right)
  unfolding left_rows
  left_rows-Only [] right h = tt
  left_rows-Only ((k, a) ∷ left) right (h, hs) =
      All-append _ (left_join k a (matches right k)) (left_rows left right)
        (left_join-Only k a (matches right k) h) (left_rows-Only left right hs)

  unless_matched-Only :
      (o : Option A) (k : List ℕ) (b : B) (rest : List (List ℕ × (Option A × Option B)))
      → k ≡ them
      → Only them rest
      → Only them (unless_matched o k b rest)
  unless_matched-Only none k b rest h hs = (h, hs)
  unless_matched-Only (some a) k b rest h hs = hs

  unmatched-Only :
      (left : List (List ℕ × A)) (right : List (List ℕ × B))
      → Only them right
      → Only them (unmatched left right)
  unfolding unmatched
  unmatched-Only left [] h = tt
  unmatched-Only left ((k, b) ∷ right) (h, hs) =
      unless_matched-Only (lookup left k) k b _ h (unmatched-Only left right hs)

  pub outer_join-Only :
      (left : List (List ℕ × A)) (right : List (List ℕ × B))
      → Only them left
      → Only them right
      → Only them (outer_join left right)
  unfolding outer_join
  outer_join-Only left right h k =
      All-append _ (left_rows left right) (unmatched left right) (left_rows-Only left right h)
        (unmatched-Only left right k)

module _ (them : List ℕ) where
  merge_lists-Only :
      (rows : List (List ℕ × (Option Flags × Option Flags)))
      → Only them rows
      → Only them (merge_lists rows)
  unfolding merge_lists
  merge_lists-Only [] h = tt
  merge_lists-Only ((k, fs) ∷ rows) (h, hs) = (h, merge_lists-Only rows hs)

  group_row-Only :
      (k : List ℕ) (f : Flags) (rows : List (List ℕ × Flags))
      → k ≡ them
      → Only them rows
      → Only them (group_row k f rows)
  unfolding group_row
  group_row-Only k f [] h hs = (h, tt)
  group_row-Only k f ((j, g) ∷ rows) h (p, ps) = elim (Bool-cases (bytes_eq j k)) [
    | inl e ↦ rw e (p, ps)
    | inr e ↦ rw e (p, group_row-Only k f rows h ps)
  ]

  group_by-Only : (rows : List (List ℕ × Flags)) → Only them rows → Only them (group_by rows)
  unfolding group_by
  group_by-Only [] h = tt
  group_by-Only ((k, f) ∷ rows) (h, hs) =
      group_row-Only k f (group_by rows) h (group_by-Only rows hs)

  select_items-Only :
      (modes : List ModeRow) (test : FeedbagRow → Bool) (column : FeedbagRow → List ℕ)
      → ((row : FeedbagRow) → test row ≡ true → column row ≡ them)
      → (rows : List FeedbagRow) → Only them (select_items modes test column rows)
  unfolding select_items
  select_items-Only modes test column h [] = tt
  select_items-Only modes test column h (row ∷ rows) =
      elim (Bool-cases (test row && (names_user row.class_id && uses_feedbag modes row.owner))) [
        | inl e ↦
            rw e (h row ((and_parts (test row) _ e).0), select_items-Only modes test column h rows)
        | inr e ↦ rw e (select_items-Only modes test column h rows)
      ]

  select_client-Only :
      (test : ClientRow → Bool) (column : ClientRow → List ℕ)
      → ((row : ClientRow) → test row ≡ true → column row ≡ them)
      → (rows : List ClientRow) → Only them (select_client test column rows)
  unfolding select_client
  select_client-Only test column h [] = tt
  select_client-Only test column h (row ∷ rows) = elim (Bool-cases (test row)) [
    | inl e ↦ rw e (h row e, select_client-Only test column h rows)
    | inr e ↦ rw e (select_client-Only test column h rows)
  ]

  passed : (b : Bool) (name : List ℕ) → (b && passes (them ∷ []) name) ≡ true → name ≡ them
  unfolding is_member
  passed b name h = ground (arith, bytes_eq_sound them name)

  pub their_buddy_lists-Only :
      (db : Tables) (me : List ℕ) → Only them (their_buddy_lists db me (them ∷ []))
  unfolding their_buddy_lists
  their_buddy_lists-Only db me = merge_lists-Only _ (
      outer_join-Only them _ _
        (group_by-Only _ (
          select_items-Only db.modes _ _ (λ row. passed (bytes_eq row.name me) row.owner)
            db.feedbag))
        (select_client-Only _ _ (λ row. passed (bytes_eq row.them me) row.me) db.client_lists))

  pub your_buddy_list-Only :
      (db : Tables) (me : List ℕ) → Only them (your_buddy_list db me (them ∷ []))
  unfolding your_buddy_list
  your_buddy_list-Only db me = merge_lists-Only _ (
      outer_join-Only them _ _
        (group_by-Only _ (
          select_items-Only db.modes _ _ (λ row. passed (bytes_eq row.owner me) row.name)
            db.feedbag))
        (select_client-Only _ _ (λ row. passed (bytes_eq row.me me) row.them) db.client_lists))

  -- The first relationship.
  abbrev pub row_of :
      Unicode → Option (Option Flags × Option Flags) → Option ℕ → Option ℕ → Option Relationship
  row_of u (some (theirs, yours)) (some m) (some n) = some (relation u them theirs yours m n)
  row_of u row m n = none

  row_of-none :
      (u : Unicode) (row : Option (Option Flags × Option Flags)) (m : Option ℕ)
      → row_of u row m none ≡ none
  row_of-none u none m = refl
  row_of-none u (some row) none = refl
  row_of-none u (some row) (some m) = refl

  row_of_unknown :
      (u : Unicode) (row : Option (Option Flags × Option Flags)) (n : Option ℕ)
      → row_of u row none n ≡ none
  row_of_unknown u none n = refl
  row_of_unknown u (some row) n = refl

  with_modes_none : (rel : ℕ → ℕ → Relationship) (ms : List ℕ) → with_modes rel ms [] ≡ []
  with_modes_none rel [] = refl
  with_modes_none rel (m ∷ ms) = with_modes_none rel ms

  head-with_modes :
      (u : Unicode) (theirs yours : Option Flags) (ms ns : List ℕ)
      (row : Option (Option Flags × Option Flags)) (rest : List Relationship)
      → head? rest ≡ row_of u row (head? ms) (head? ns)
      → head? (with_modes (relation u them theirs yours) ms ns ++ rest)
        ≡ row_of u (some (theirs, yours)) (head? ms) (head? ns)
  head-with_modes u theirs yours [] ns row rest h = h ∙ row_of_unknown u row (head? ns)
  head-with_modes u theirs yours (m ∷ ms) [] row rest h =
      rw (with_modes_none (relation u them theirs yours) ms) (h ∙ row_of-none u row (some m))
  head-with_modes u theirs yours (m ∷ ms) (n ∷ ns) row rest h = refl

  pub head-relations :
      (u : Unicode) (rows : List (List ℕ × (Option Flags × Option Flags)))
      (prefs : List (List ℕ × ℕ)) (modes : List ℕ)
      → Only them rows
      → head? (relations u rows prefs modes)
        ≡ row_of u (lookup rows them) (head? (matches prefs them)) (head? modes)
  unfolding relations lookup
  head-relations u [] prefs modes h = refl
  head-relations u ((k, (theirs, yours)) ∷ rows) prefs modes (h, hs) =
      rw (h, bytes_eq_refl them)
        (head-with_modes u theirs yours (matches prefs them) modes (lookup rows them)
          (relations u rows prefs modes) (head-relations u rows prefs modes hs))
