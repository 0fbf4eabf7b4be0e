-- ===== src/State/Relationship.antt =====
-- Who is on whose list and who blocks whom: the query of state/relationship.go, and `AllRelationships`
-- and `Relationship` of state/user_store.go, which run it. A table expression of the query is the list of
-- its rows; where rows are joined or looked up by a user, they are pairs of the user and the rest.
pub mod Pair
pub mod Effects
mod Tests
use go_icq.Prelude.{
  ℕ, Bool, true, false, ◌&&◌, ◌||◌, not, ◌==◌, Option, none, some, List, [], ◌∷◌, ◌++◌, map,
  bytes_eq, if◌then◌else◌,
}
use go_icq.State.User.Name.{Unicode, new_ident_screen_name}
use go_icq.State.Store.{FeedbagRow, ModeRow, ClientRow, Tables}
use go_icq.State.Store.BuddyLists.{
  class_buddy, class_permit, class_deny, class_pdinfo, names_user, pd_permit_all, pd_deny_all,
  pd_permit_some, pd_deny_some, pd_permit_on_list,
}
use go_icq.State.Sql.{matches, lookup, outer_join, passes, sql_or, or_false}

pub record Relationship : Type 0 where
  pub with_user : List ℕ
  pub blocks_you : Bool
  pub you_block : Bool
  pub is_on_their_list : Bool
  pub is_on_your_list : Bool

-- The columns `isBuddy`, `isPermit` and `isDeny`.
pub record Flags : Type 0 where
  pub buddy : Bool
  pub permit : Bool
  pub deny : Bool

unfoldable pub uses_feedbag : List ModeRow → List ℕ → Bool
uses_feedbag [] user = false
uses_feedbag (row ∷ rows) user =
    (bytes_eq row.user user && row.use_feedbag) || uses_feedbag rows user

-- The three columns of one item, and of a group of them, `MAX` being the disjunction.
abbrev pub class_flags : ℕ → Flags
class_flags c = record {
  buddy = c == class_buddy;
  permit = c == class_permit;
  deny = c == class_deny;
}

abbrev pub or_flags : Flags → Flags → Flags
or_flags f g = record {
  buddy = f.buddy || g.buddy;
  permit = f.permit || g.permit;
  deny = f.deny || g.deny;
}

-- `GROUP BY`: a row is put together with the one of its user, if there is one.
unfoldable pub group_row : List ℕ → Flags → List (List ℕ × Flags) → List (List ℕ × Flags)
group_row k f [] = (k, f) ∷ []
group_row k f ((j, g) ∷ rows) =
    let rest = group_row k f rows in
    if bytes_eq j k then (j, or_flags f g) ∷ rows else (j, g) ∷ rest

unfoldable pub group_by : List (List ℕ × Flags) → List (List ℕ × Flags)
group_by [] = []
group_by ((k, f) ∷ rows) = group_row k f (group_by rows)

-- The items that are of a class of users and of an owner who uses the feedbag, by a column.
unfoldable pub select_items :
    List ModeRow
    → (FeedbagRow → Bool)
    → (FeedbagRow → List ℕ)
    → List FeedbagRow
    → List (List ℕ × Flags)
select_items modes test column [] = []
select_items modes test column (row ∷ rows) =
    let rest = select_items modes test column rows in
    if test row && (names_user row.class_id && uses_feedbag modes row.owner)
    then (column row, class_flags row.class_id) ∷ rest
    else rest

abbrev pub row_flags : ClientRow → Flags
row_flags row = record { buddy = row.is_buddy; permit = row.is_permit; deny = row.is_deny }

unfoldable pub select_client :
    (ClientRow → Bool) → (ClientRow → List ℕ) → List ClientRow → List (List ℕ × Flags)
select_client test column [] = []
select_client test column (row ∷ rows) =
    let rest = select_client test column rows in
    if test row then (column row, row_flags row) ∷ rest else rest

abbrev pub flag : (Flags → Bool) → Option Flags → Option Bool
flag f none = none
flag f (some fs) = some (f fs)

-- A row of the join of the two kinds of list.
abbrev pub both_lists : Option Flags → Option Flags → Flags
both_lists feedbag client = record {
  buddy = or_false (sql_or (flag (λ f. f.buddy) client) (flag (λ f. f.buddy) feedbag));
  permit = or_false (sql_or (flag (λ f. f.permit) client) (flag (λ f. f.permit) feedbag));
  deny = or_false (sql_or (flag (λ f. f.deny) client) (flag (λ f. f.deny) feedbag));
}

unfoldable pub merge_lists : List (List ℕ × (Option Flags × Option Flags)) → List (List ℕ × Flags)
merge_lists [] = []
merge_lists ((k, (feedbag, client)) ∷ rows) = (k, both_lists feedbag client) ∷ merge_lists rows

unfoldable pub their_buddy_lists : Tables → List ℕ → List (List ℕ) → List (List ℕ × Flags)
their_buddy_lists db me filter = merge_lists (
    outer_join
      (group_by (
        select_items db.modes (λ row. bytes_eq row.name me && passes filter row.owner)
          (λ row. row.owner) db.feedbag))
      (select_client (λ row. bytes_eq row.them me && passes filter row.me) (λ row. row.me)
        db.client_lists))

unfoldable pub your_buddy_list : Tables → List ℕ → List (List ℕ) → List (List ℕ × Flags)
your_buddy_list db me filter = merge_lists (
    outer_join
      (group_by (
        select_items db.modes (λ row. bytes_eq row.owner me && passes filter row.name)
          (λ row. row.name) db.feedbag))
      (select_client (λ row. bytes_eq row.me me && passes filter row.them) (λ row. row.them)
        db.client_lists))

-- The modes of the items with privacy information that a user has.
unfoldable pub pd_items : List FeedbagRow → List ℕ → List (Option ℕ)
pd_items [] user = []
pd_items (row ∷ rows) user =
    let rest = pd_items rows user in
    if bytes_eq row.owner user && row.class_id == class_pdinfo then row.pd_mode ∷ rest else rest

-- `IFNULL(pdMode, 1)` for a user of the feedbag, and the mode of his client's list for another.
abbrev pub effective_mode : ModeRow → Option ℕ → ℕ
effective_mode row none = if row.use_feedbag then 1 else row.client_side_pd_mode
effective_mode row (some m) = if row.use_feedbag then m else row.client_side_pd_mode

-- `LEFT JOIN` with those items.
abbrev pub mode_rows : ModeRow → List (Option ℕ) → List (List ℕ × ℕ)
mode_rows row [] = (row.user, effective_mode row none) ∷ []
mode_rows row (m ∷ ms) = map (λ m. (row.user, effective_mode row m)) (m ∷ ms)

unfoldable pub privacy_prefs : (List ℕ → Bool) → List FeedbagRow → List ModeRow → List (List ℕ × ℕ)
privacy_prefs test feedbag [] = []
privacy_prefs test feedbag (row ∷ rows) =
    let rest = privacy_prefs test feedbag rows in
    if test row.user then mode_rows row (pd_items feedbag row.user) ++ rest else rest

abbrev pub exists_in : List (List ℕ × Flags) → List ℕ → Bool
exists_in rows name = elim (lookup rows name) [ none ↦ false | some f ↦ true ]

-- Whether a mode blocks one of whom the list says this.
abbrev pub blocks : ℕ → Option Flags → Bool
blocks mode entry =
    if mode == pd_permit_all
    then false
    else if mode == pd_deny_all
    then true
    else if mode == pd_permit_some
    then not (or_false (flag (λ f. f.permit) entry))
    else if mode == pd_deny_some
    then or_false (flag (λ f. f.deny) entry)
    else if mode == pd_permit_on_list
    then not (or_false (flag (λ f. f.buddy) entry))
    else false

abbrev pub relation : Unicode → List ℕ → Option Flags → Option Flags → ℕ → ℕ → Relationship
relation u name theirs yours their_mode your_mode = record {
  with_user = new_ident_screen_name u name;
  blocks_you = blocks their_mode theirs;
  you_block = blocks your_mode yours;
  is_on_their_list = or_false (flag (λ f. f.buddy) theirs);
  is_on_your_list = or_false (flag (λ f. f.buddy) yours);
}

-- The last two joins: each row with each mode of its user and each of one's own.
abbrev pub with_modes : (ℕ → ℕ → Relationship) → List ℕ → List ℕ → List Relationship
with_modes rel [] yours = []
with_modes rel (m ∷ ms) yours = map (rel m) yours ++ with_modes rel ms yours

unfoldable pub relations :
    Unicode
    → List (List ℕ × (Option Flags × Option Flags))
    → List (List ℕ × ℕ)
    → List ℕ
    → List Relationship
relations u [] their_prefs your_modes = []
relations u ((k, (theirs, yours)) ∷ rows) their_prefs your_modes =
    with_modes (relation u k theirs yours) (matches their_prefs k) your_modes
    ++ relations u rows their_prefs your_modes

unfoldable pub all_relationships : Unicode → Tables → List ℕ → List (List ℕ) → List Relationship
unfolding their_buddy_lists your_buddy_list
all_relationships u db me filter =
    let theirs = their_buddy_lists db me filter in
    let yours = your_buddy_list db me filter in
    relations u (outer_join theirs yours)
      (privacy_prefs (λ name. exists_in theirs name || exists_in yours name) db.feedbag db.modes)
      (map (λ (row : List ℕ × ℕ). row.1)
        (privacy_prefs (λ name. bytes_eq name me) db.feedbag db.modes))

abbrev pub unrelated : List ℕ → Relationship
unrelated them = record {
  with_user = them;
  blocks_you = false;
  you_block = false;
  is_on_their_list = false;
  is_on_your_list = false;
}

abbrev pub first_or : List ℕ → List Relationship → Relationship
first_or them [] = unrelated them
first_or them (rel ∷ rels) = rel

unfoldable pub relationship : Unicode → Tables → List ℕ → List ℕ → Relationship
unfolding all_relationships
relationship u db me them = first_or them (all_relationships u db me (them ∷ []))
