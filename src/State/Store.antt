-- ===== src/State/Store.antt =====
-- The tables of state/user_store.go that keep buddy lists and privacy, after the migrations. A table is
-- the list of its rows; a statement of SQL is a function of the tables, and the database is taken not to
-- fail. The items of a user stand in the order of the index through which SQLite finds them.
pub mod BuddyLists
pub mod Items
pub mod Feedbag
pub mod Rooms
pub mod Keywords
mod Tests
use go_icq.Prelude.{ℕ, Bool, false, ◌&&◌, ◌||◌, ◌==◌, ltb, Option, List, [], bytes_eq}

-- A row of `feedbag`. The migrations leave `pdMode` null where a row had no mode.
pub record FeedbagRow : Type 0 where
  pub owner : List ℕ
  pub group_id : ℕ
  pub item_id : ℕ
  pub class_id : ℕ
  pub name : List ℕ
  pub attributes : List ℕ
  pub pd_mode : Option ℕ

-- A row of `buddyListMode`, which a user has while he is signed on.
pub record ModeRow : Type 0 where
  pub user : List ℕ
  pub client_side_pd_mode : ℕ
  pub use_feedbag : Bool

-- A row of `clientSideBuddyList`: what `me` has of `them` on his list.
pub record ClientRow : Type 0 where
  pub me : List ℕ
  pub them : List ℕ
  pub is_buddy : Bool
  pub is_permit : Bool
  pub is_deny : Bool

pub record Tables : Type 0 where
  pub feedbag : List FeedbagRow
  pub modes : List ModeRow
  pub client_lists : List ClientRow

abbrev pub no_rows : Tables
no_rows = record { feedbag = []; modes = []; client_lists = [] }

-- Equality of the keys.
abbrev pub same_item : FeedbagRow → FeedbagRow → Bool
same_item r s = bytes_eq r.owner s.owner && (r.group_id == s.group_id && r.item_id == s.item_id)

-- The order of the index that `UNIQUE (screenName, groupID, itemID)` makes, in which SQLite finds the rows of a
-- user: by the group, then by the item. No query depends on how the rows of different users are mixed, and
-- the model leaves that open.
abbrev pub numbers_before : ℕ → ℕ → ℕ → ℕ → Bool
numbers_before g i g' i' = ltb g g' || (g == g' && ltb i i')

abbrev pub item_before : FeedbagRow → FeedbagRow → Bool
item_before r s =
    bytes_eq r.owner s.owner && numbers_before r.group_id r.item_id s.group_id s.item_id

abbrev pub same_user : ModeRow → ModeRow → Bool
same_user r s = bytes_eq r.user s.user

abbrev pub same_pair : ClientRow → ClientRow → Bool
same_pair r s = bytes_eq r.me s.me && bytes_eq r.them s.them
