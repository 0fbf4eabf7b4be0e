-- ===== src/State/Relationship/Pair/Refines.antt =====
-- `Relationship` of state/user_store.go runs its query right.
use go_icq.Prelude.{
  ℕ, ◌≡◌, refl, ap, ◌∙◌, Bool, true, false, ◌||◌, Option, none, some, List, [], ◌∷◌, map, bytes_eq,
}
use go_icq.State.User.Name.{Unicode}
use go_icq.State.Store.{Tables}
use go_icq.State.Sql.{lookup, outer_join}
use go_icq.State.Sql.Join.{head?, joined, lookup-outer_join, head-matches}
use go_icq.State.Relationship.{
  Relationship, Flags, relations, their_buddy_lists, your_buddy_list, exists_in, privacy_prefs,
  all_relationships, unrelated, first_or, relationship,
}
use go_icq.State.Relationship.Pair.{mode_of, relation_between, relationship_of}
use go_icq.State.Relationship.Pair.Lists.{lookup-their_buddy_lists, lookup-your_buddy_list}
use go_icq.State.Relationship.Pair.Modes.{lookup-privacy_prefs, head-privacy_prefs}
use go_icq.State.Relationship.Pair.Single.{
  Only, row_of, head-relations, outer_join-Only, their_buddy_lists-Only, your_buddy_list-Only,
}

abbrev or_unrelated : List ℕ → Option Relationship → Relationship
or_unrelated them none = unrelated them
or_unrelated them (some rel) = rel

first_or-head :
    (them : List ℕ) (rels : List Relationship) → first_or them rels ≡ or_unrelated them (head? rels)
first_or-head them [] = refl
first_or-head them (rel ∷ rels) = refl

relation_between-joined :
    (u : Unicode) (them : List ℕ) (theirs yours : Option Flags) (m n : Option ℕ)
    → or_unrelated them (row_of them u (joined theirs yours) m n)
      ≡ relation_between u them theirs yours m n
relation_between-joined u them none none m n = refl
relation_between-joined u them none (some y) none n = refl
relation_between-joined u them none (some y) (some m) none = refl
relation_between-joined u them none (some y) (some m) (some n) = refl
relation_between-joined u them (some t) y none n = refl
relation_between-joined u them (some t) y (some m) none = refl
relation_between-joined u them (some t) y (some m) (some n) = refl

abbrev present : Option Flags → Bool
present o = elim o [ none ↦ false | some f ↦ true ]

-- Where the join has no row of the user, his mode does not matter.
asked :
    (u : Unicode) (them : List ℕ) (t y : Option Flags) (m m' n : Option ℕ)
    → ((present t || present y) ≡ true → m ≡ m')
    → row_of them u (joined t y) m n ≡ row_of them u (joined t y) m' n
asked u them none none m m' n h = refl
asked u them none (some y) m m' n h = rw (h refl) refl
asked u them (some t) y m m' n h = rw (h refl) refl

from_lists :
    (u : Unicode) (db : Tables) (me them : List ℕ) (theirs yours : List (List ℕ × Flags))
    → Only them theirs
    → Only them yours
    → first_or them (
        relations u
          (outer_join theirs yours)
          (privacy_prefs
            (λ name. exists_in theirs name || exists_in yours name)
            db.feedbag
            db.modes)
          (map
            (λ (row : List ℕ × ℕ). row.1)
            (privacy_prefs (λ name. bytes_eq name me) db.feedbag db.modes)))
      ≡ relation_between u them
          (lookup theirs them)
          (lookup yours them)
          (mode_of db.feedbag db.modes them)
          (mode_of db.feedbag db.modes me)
from_lists u db me them theirs yours h k =
    first_or-head them (
      relations u (outer_join theirs yours)
        (privacy_prefs (λ name. exists_in theirs name || exists_in yours name) db.feedbag db.modes)
        (map (λ (row : List ℕ × ℕ). row.1)
          (privacy_prefs (λ name. bytes_eq name me) db.feedbag db.modes)))
    ∙ rw
        (
          head-relations them u (outer_join theirs yours) _ _
              (outer_join-Only them theirs yours h k),
          lookup-outer_join theirs yours them,
          head-matches,
          head-privacy_prefs db.feedbag db.modes me,
        )
        (ap (or_unrelated them) (
            asked u them (lookup theirs them) (lookup yours them) _ _ _ (
              lookup-privacy_prefs (λ name. exists_in theirs name || exists_in yours name)
                db.feedbag db.modes them))
          ∙ relation_between-joined u them (lookup theirs them) (lookup yours them) _ _)

-- The query that `Relationship` runs finds what there is between the two users, whatever is in
-- the tables: nothing if neither is on a list of the other or one of them is not registered, and else
-- for each direction whether the one's mode, that of his items or of his client, blocks what his own
-- lists together say of the other.
pub relationship-relationship_of :
    (u : Unicode) (db : Tables) (me them : List ℕ)
    → relationship u db me them ≡ relationship_of u db me them
unfolding relationship all_relationships relationship_of
relationship-relationship_of u db me them =
    rw (← lookup-their_buddy_lists db me them, ← lookup-your_buddy_list db me them)
      (from_lists u db me them (their_buddy_lists db me (them ∷ []))
        (your_buddy_list db me (them ∷ [])) (their_buddy_lists-Only them db me)
        (your_buddy_list-Only them db me))
