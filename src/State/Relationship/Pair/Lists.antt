-- ===== src/State/Relationship/Pair/Lists.antt =====
-- What the lists of the query say of one user (state/relationship.go).
use go_icq.Prelude.{
  ℕ, ◌≡◌, refl, ◌∙◌, Bool, true, false, ◌&&◌, ◌||◌, Bool-cases, Option, none, some, inl, inr, List,
  [], ◌∷◌, bytes_eq, bytes_eq_sound, bytes_eq_refl, bytes_eq_comm, if◌then◌else◌, arith,
}
use go_icq.State.Store.{FeedbagRow, ModeRow, ClientRow, Tables}
use go_icq.State.Sql.{is_member, passes, lookup, sql_or, or_false}
use go_icq.State.Sql.Join.{lookup-outer_join, joined}
use go_icq.State.Relationship.{
  Flags, uses_feedbag, both_lists, merge_lists, group_row, group_by, select_items, select_client,
  their_buddy_lists, your_buddy_list,
}
use go_icq.State.Relationship.Pair.{either, items_on, client_on, entry_on}

or_parts : (a b : Bool) → or_false (sql_or (some a) (some b)) ≡ (b || a)
or_parts true true = refl
or_parts true false = refl
or_parts false true = refl
or_parts false false = refl

or_left : (a : Bool) → or_false (sql_or (some a) none) ≡ a
or_left true = refl
or_left false = refl

or_right : (a : Bool) → or_false (sql_or none (some a)) ≡ a
or_right true = refl
or_right false = refl

abbrev merged : Option (Option Flags × Option Flags) → Option Flags
merged none = none
merged (some (f, c)) = some (both_lists f c)

lookup-merge_lists :
    (rows : List (List ℕ × (Option Flags × Option Flags))) (k : List ℕ)
    → lookup (merge_lists rows) k ≡ merged (lookup rows k)
unfolding merge_lists lookup
lookup-merge_lists [] k = refl
lookup-merge_lists ((j, (f, c)) ∷ rows) k = ground (arith, lookup-merge_lists rows k)

merged-joined : (f c : Option Flags) → merged (joined f c) ≡ either f c
merged-joined none none = refl
merged-joined none (some c) = rw (or_left c.buddy, or_left c.permit, or_left c.deny) refl
merged-joined (some f) none = rw (or_right f.buddy, or_right f.permit, or_right f.deny) refl
merged-joined (some f) (some c) =
    rw (or_parts c.buddy f.buddy, or_parts c.permit f.permit, or_parts c.deny f.deny) refl

-- Groups.
lookup-group_row :
    (j : List ℕ) (f : Flags) (rows : List (List ℕ × Flags)) (k : List ℕ)
    → lookup (group_row j f rows) k
      ≡ (if bytes_eq j k then either (some f) (lookup rows k) else lookup rows k)
unfolding group_row lookup
lookup-group_row j f [] k = refl
lookup-group_row j f ((i, g) ∷ rows) k = elim (Bool-cases (bytes_eq i j)) [
  | inl e ↦ rw (bytes_eq_sound i j e, bytes_eq_refl j) (ground arith)
  | inr e ↦ rw e (
      ground (
        arith,
        lookup-group_row j f rows k,
        bytes_eq_sound i k,
        bytes_eq_sound j k,
        bytes_eq_refl k,
      ))
]

unfoldable flags_at : List (List ℕ × Flags) → List ℕ → Option Flags
flags_at [] k = none
flags_at ((j, f) ∷ rows) k =
    let rest = flags_at rows k in if bytes_eq j k then either (some f) rest else rest

lookup-group_by :
    (rows : List (List ℕ × Flags)) (k : List ℕ) → lookup (group_by rows) k ≡ flags_at rows k
unfolding group_by flags_at lookup
lookup-group_by [] k = refl
lookup-group_by ((j, f) ∷ rows) k =
    lookup-group_row j f (group_by rows) k ∙ rw (lookup-group_by rows k) refl

-- A selection that finds for one user the rows of `a` on `b`.
module _ (a b k : List ℕ) where
  flags_at-select_items :
      (modes : List ModeRow) (test : FeedbagRow → Bool) (column : FeedbagRow → List ℕ)
      → ((row : FeedbagRow)
          → (test row && bytes_eq (column row) k) ≡ (bytes_eq row.owner a && bytes_eq row.name b))
      → (rows : List FeedbagRow)
      → flags_at (select_items modes test column rows) k
        ≡ (if uses_feedbag modes a then items_on rows a b else none)
  unfolding flags_at select_items items_on
  flags_at-select_items modes test column h [] = ground arith
  flags_at-select_items modes test column h (row ∷ rows) =
      ground
        (arith, flags_at-select_items modes test column h rows, h row, bytes_eq_sound row.owner a)

  lookup-select_client :
      (test : ClientRow → Bool) (column : ClientRow → List ℕ)
      → ((row : ClientRow)
          → (test row && bytes_eq (column row) k) ≡ (bytes_eq row.me a && bytes_eq row.them b))
      → (rows : List ClientRow) → lookup (select_client test column rows) k ≡ client_on rows a b
  unfolding lookup select_client client_on
  lookup-select_client test column h [] = refl
  lookup-select_client test column h (row ∷ rows) =
      ground (arith, lookup-select_client test column h rows, h row)

-- A test of the query with the filter `[them]`, and the same test without it.
by_owner :
    (name owner me them : List ℕ)
    → ((bytes_eq name me && passes (them ∷ []) owner) && bytes_eq owner them)
      ≡ (bytes_eq owner them && bytes_eq name me)
unfolding is_member
by_owner name owner me them = ground (arith, bytes_eq_comm owner them)

by_name :
    (name owner me them : List ℕ)
    → ((bytes_eq owner me && passes (them ∷ []) name) && bytes_eq name them)
      ≡ (bytes_eq owner me && bytes_eq name them)
unfolding is_member
by_name name owner me them = ground (arith, bytes_eq_comm name them)

pub lookup-their_buddy_lists :
    (db : Tables) (me them : List ℕ)
    → lookup (their_buddy_lists db me (them ∷ [])) them ≡ entry_on db them me
unfolding their_buddy_lists entry_on
lookup-their_buddy_lists db me them =
    rw
      (
        lookup-merge_lists,
        lookup-outer_join,
        lookup-group_by,
        flags_at-select_items them me them db.modes _ _ (λ row. by_owner row.name row.owner me them)
            db.feedbag,
        lookup-select_client them me them _ _ (λ row. by_owner row.them row.me me them)
            db.client_lists,
        merged-joined,
      )
      refl

pub lookup-your_buddy_list :
    (db : Tables) (me them : List ℕ)
    → lookup (your_buddy_list db me (them ∷ [])) them ≡ entry_on db me them
unfolding your_buddy_list entry_on
lookup-your_buddy_list db me them =
    rw
      (
        lookup-merge_lists,
        lookup-outer_join,
        lookup-group_by,
        flags_at-select_items me them them db.modes _ _ (λ row. by_name row.name row.owner me them)
            db.feedbag,
        lookup-select_client me them them _ _ (λ row. by_name row.them row.me me them)
            db.client_lists,
        merged-joined,
      )
      refl
