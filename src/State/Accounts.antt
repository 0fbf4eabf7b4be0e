-- ===== src/State/Accounts.antt =====
-- The tables `users` and `offlineMessage` of state/user_store.go, with the foreign keys between them. The
-- database is taken not to fail, so that an error is one that the code asks for.
pub mod Users
pub mod Inbox
pub mod Lookup
use go_icq.Prelude.{
  ℕ, ◌*◌, ◌/◌, ◌+◌, ◌^◌, Bool, true, false, ◌&&◌, ◌||◌, Option, none, some, List, [], ◌∷◌, bytes_eq,
  if◌then◌else◌,
}
use go_icq.Prelude.Int.{ℤ, pos, negsuc, ◌*ℤ◌}
use go_icq.State.User.{User}
use go_icq.State.User.Name.{Unicode, new_ident_screen_name}
use go_icq.State.Sql.{update_where}

pub data StoreError : Type 0 where
  uin_not_icq dup_user no_user bad_password syntax_error inbox_full unmarshalled marshalled :
      StoreError

-- A row of `users` is its columns as fields of a `User`, except that `lastWarnUpdate` is in seconds.
pub record MessageRow : Type 0 where
  pub sender : List ℕ
  pub recipient : List ℕ
  pub message : List ℕ
  pub sent : ℤ

pub record Database : Type 0 where
  pub users : List User
  pub messages : List MessageRow

abbrev pub empty_database : Database
empty_database = record { users = []; messages = [] }

-- `Unix` of a time in nanoseconds, which rounds down, and the time of a number of seconds.
abbrev pub unix : ℤ → ℤ
unix (pos n) = pos (n / 10 ^ 9)
unix (negsuc n) = negsuc (n / 10 ^ 9)

abbrev pub of_unix : ℤ → ℤ
of_unix s = s *ℤ pos (10 ^ 9)

-- A row as it is read.
abbrev pub read_user : Unicode → User → User
read_user u row = record row {
  ident_screen_name = new_ident_screen_name u row.ident_screen_name;
  last_warn_update = of_unix row.last_warn_update;
}

abbrev pub is_user : List ℕ → User → Bool
is_user name row = bytes_eq row.ident_screen_name name

-- `queryUsers`.
unfoldable pub query_users : Unicode → List User → (User → Bool) → List User
query_users u [] test = []
query_users u (row ∷ rows) test =
    let rest = query_users u rows test in if test row then read_user u row ∷ rest else rest

-- `UPDATE users … WHERE identScreenName = ?`, which affects a row for each user of the name.
unfoldable pub has_user : List User → List ℕ → Bool
has_user [] name = false
has_user (row ∷ rows) name = is_user name row || has_user rows name

abbrev pub update_user : Database → List ℕ → (User → User) → Database
update_user db name change = record db { users = update_where (is_user name) change db.users }

-- The same where no affected row is an error.
abbrev pub update_known : Database → List ℕ → (User → User) → Database × Option StoreError
update_known db name change =
    (update_user db name change, (if has_user db.users name then none else some no_user))
