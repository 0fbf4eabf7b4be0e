-- ===== src/State/Relationship/Pair.antt =====
-- The relationship of two users, said of the two alone, with no query: the description of which
-- `Relationship` of state/user_store.go is the implementation.
mod Lists
mod Modes
mod Single
pub mod Refines
use go_icq.Prelude.{
  ℕ, Bool, true, false, ◌&&◌, ◌==◌, Option, none, some, List, [], ◌∷◌, bytes_eq, if◌then◌else◌,
}
use go_icq.State.User.Name.{Unicode}
use go_icq.State.Store.{FeedbagRow, ModeRow, ClientRow, Tables}
use go_icq.State.Store.BuddyLists.{names_user, class_pdinfo}
use go_icq.State.Relationship.{
  Relationship, Flags, class_flags, or_flags, row_flags, uses_feedbag, relation, unrelated,
}

-- A user's entry for another: of two sources, a flag is set where either has it.
abbrev pub either : Option Flags → Option Flags → Option Flags
either none g = g
either (some f) none = some f
either (some f) (some g) = some (or_flags f g)

-- What the items of `a` say of `b`.
unfoldable pub items_on : List FeedbagRow → List ℕ → List ℕ → Option Flags
items_on [] a b = none
items_on (row ∷ rows) a b =
    let rest = items_on rows a b in
    if bytes_eq row.owner a && (bytes_eq row.name b && names_user row.class_id)
    then either (some (class_flags row.class_id)) rest
    else rest

-- What the list of `a`'s client says of `b`.
unfoldable pub client_on : List ClientRow → List ℕ → List ℕ → Option Flags
client_on [] a b = none
client_on (row ∷ rows) a b =
    if bytes_eq row.me a && bytes_eq row.them b then some (row_flags row) else client_on rows a b

-- What `a` has of `b` on his lists.
unfoldable pub entry_on : Tables → List ℕ → List ℕ → Option Flags
entry_on db a b =
    either (if uses_feedbag db.modes a then items_on db.feedbag a b else none)
      (client_on db.client_lists a b)

-- The mode of the first item of `a` with privacy information, where there is none that of everyone
-- permitted, and where it is null the same.
unfoldable pub items_mode : List FeedbagRow → List ℕ → ℕ
items_mode [] a = 1
items_mode (row ∷ rows) a =
    let rest = items_mode rows a in
    if bytes_eq row.owner a && row.class_id == class_pdinfo
    then elim row.pd_mode [ none ↦ 1 | some m ↦ m ]
    else rest

-- The mode of a user who is registered.
unfoldable pub mode_of : List FeedbagRow → List ModeRow → List ℕ → Option ℕ
mode_of feedbag [] a = none
mode_of feedbag (row ∷ rows) a =
    let rest = mode_of feedbag rows a in
    if bytes_eq row.user a
    then some (if row.use_feedbag then items_mode feedbag a else row.client_side_pd_mode)
    else rest

-- Two users have a relationship if one is on a list of the other, and both are registered.
abbrev pub relation_between :
    Unicode → List ℕ → Option Flags → Option Flags → Option ℕ → Option ℕ → Relationship
relation_between u them none none their_mode your_mode = unrelated them
relation_between u them theirs yours (some m) (some n) = relation u them theirs yours m n
relation_between u them theirs yours their_mode your_mode = unrelated them

unfoldable pub relationship_of : Unicode → Tables → List ℕ → List ℕ → Relationship
unfolding entry_on mode_of
relationship_of u db me them =
    relation_between u them (entry_on db them me) (entry_on db me them)
      (mode_of db.feedbag db.modes them) (mode_of db.feedbag db.modes me)
