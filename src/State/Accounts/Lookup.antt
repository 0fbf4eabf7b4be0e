-- ===== src/State/Accounts/Lookup.antt =====
-- What reading a user of state/user_store.go gives after a change.
use go_icq.Prelude.{
  ℕ, ◌≡◌, ◌<◌, ◌+◌, refl, sym, ap, ◌∙◌, true, false, ◌&&◌, not, Bool-cases, leb, Option, none, some,
  inl, inr, List, [], ◌∷◌, ◌++◌, bytes_eq, bytes_eq_refl, bytes_eq_sound, arith,
}
use go_icq.Prelude.Int.{pos}
use go_icq.Wire.Result.{ok}
use go_icq.Wire.Encode.{marshal_be}
use go_icq.Wire.Snacs.Icbm.{icbm_channel_msg_to_host}
use go_icq.State.User.{User}
use go_icq.State.User.Name.{Unicode, is_uin}
use go_icq.State.User.Password.{
  validate_password, hash_password, validate_plaintext_pass, weak_md5_password_hash,
}
use go_icq.State.Sql.{update_where, delete_where}
use go_icq.State.Accounts.{
  dup_user, no_user, Database, is_user, read_user, query_users, has_user, update_user,
}
use go_icq.State.Accounts.Users.{
  first_user, user, new_row, insert_user, delete_user, find_user, set_user_password,
}
use go_icq.State.Accounts.Inbox.{
  OfflineMessage, offline_inbox_limit, is_from_to, count_where, insert_message, save_message,
}

abbrev pub map_option {ℓ κ} : {A : Type ℓ} {B : Type κ} → (A → B) → Option A → Option B
map_option f none = none
map_option f (some a) = some (f a)

first_user-query_users :
    (u : Unicode) (rows : List User) (name : List ℕ)
    → first_user (query_users u rows (is_user name))
      ≡ map_option (read_user u) (find_user rows name)
unfolding query_users find_user
first_user-query_users u [] name = refl
first_user-query_users u (row ∷ rows) name = ground (arith, first_user-query_users u rows name)

pub user-find_user :
    (u : Unicode) (db : Database) (name : List ℕ)
    → user u db name ≡ map_option (read_user u) (find_user db.users name)
unfolding user
user-find_user u db name = first_user-query_users u db.users name

find_user-update_where :
    (rows : List User) (name : List ℕ) (change : User → User)
    → ((row : User) → (change row).ident_screen_name ≡ row.ident_screen_name)
    → find_user (update_where (is_user name) change rows) name
      ≡ map_option change (find_user rows name)
unfolding find_user update_where
find_user-update_where [] name change h = refl
find_user-update_where (row ∷ rows) name change h = elim (Bool-cases (is_user name row)) [
  | inl e ↦ rw (e, h row, e) refl
  | inr e ↦ rw (e, e) (find_user-update_where rows name change h)
]

find_user-update_where_other :
    (rows : List User) (name other : List ℕ) (change : User → User)
    → ((row : User) → (change row).ident_screen_name ≡ row.ident_screen_name)
    → bytes_eq name other ≡ false
    → find_user (update_where (is_user name) change rows) other ≡ find_user rows other
unfolding find_user update_where
find_user-update_where_other [] name other change h e = refl
find_user-update_where_other (row ∷ rows) name other change h e =
    elim (Bool-cases (is_user name row)) [
      | inl t ↦
          let unlike : is_user other row ≡ false =
            rw (bytes_eq_sound row.ident_screen_name name t) e in
          rw (t, h row, unlike) (find_user-update_where_other rows name other change h e)
      | inr t ↦ rw (t, find_user-update_where_other rows name other change h e) refl
    ]

find_user-has_user :
    (rows : List User) (name : List ℕ) → has_user rows name ≡ false → find_user rows name ≡ none
unfolding has_user find_user
find_user-has_user [] name h = refl
find_user-has_user (row ∷ rows) name h = ground (arith, find_user-has_user rows name)

find_user-append :
    (rows : List User) (new : User)
    → has_user rows new.ident_screen_name ≡ false
    → find_user (rows ++ new ∷ []) new.ident_screen_name ≡ some new
unfolding has_user find_user
find_user-append [] new h = rw (bytes_eq_refl new.ident_screen_name) refl
find_user-append (row ∷ rows) new h = ground (arith, find_user-append rows new)

has_user-new :
    (rows : List User) (new : User) → has_user (rows ++ new ∷ []) new.ident_screen_name ≡ true
unfolding has_user
has_user-new [] new = rw (bytes_eq_refl new.ident_screen_name) refl
has_user-new (row ∷ rows) new = ground (arith, has_user-new rows new)

has_user-gone :
    (rows : List User) (name : List ℕ) → has_user (delete_where (is_user name) rows) name ≡ false
unfolding has_user delete_where
has_user-gone [] name = refl
has_user-gone (row ∷ rows) name = ground (arith, has_user-gone rows name)

-- A user who is inserted where there was none is read as he was inserted, with what is not inserted at its
-- defaults; a second insertion is refused and changes nothing; and once deleted he is not read any more, and a
-- second deletion is refused.
pub insert_user-delete_user :
    (u : Unicode) (db : Database) (usr : User)
    → (is_uin u usr.display_screen_name && not usr.is_icq) ≡ false
    → has_user db.users usr.ident_screen_name ≡ false
    → ((insert_user u db usr).1 ≡ none)
      × (user u (insert_user u db usr).0 usr.ident_screen_name ≡ some (read_user u (new_row usr)))
      × (insert_user u (insert_user u db usr).0 usr ≡ ((insert_user u db usr).0, some dup_user))
      × ((delete_user (insert_user u db usr).0 usr.ident_screen_name).1 ≡ none)
      × (user u (delete_user (insert_user u db usr).0 usr.ident_screen_name).0 usr.ident_screen_name
          ≡ none)
      × ((delete_user
            (delete_user (insert_user u db usr).0 usr.ident_screen_name).0
            usr.ident_screen_name).1
          ≡ some no_user)
unfolding insert_user delete_user
insert_user-delete_user u db usr h k =
    let name = usr.ident_screen_name in
    let there : has_user (db.users ++ new_row usr ∷ []) name ≡ true =
      has_user-new db.users (new_row usr) in
    let gone = has_user-gone (db.users ++ new_row usr ∷ []) name in
    rw (h, k, there, gone)
      (
        refl,
        user-find_user u _ name
            ∙ ap (map_option (read_user u)) (find_user-append db.users (new_row usr) k),
        refl,
        refl,
        user-find_user u _ name ∙ ap (map_option (read_user u)) (find_user-has_user _ name gone),
        refl,
      )

-- A change of columns, for the user it is of and for others.
pub user-update_user :
    (u : Unicode) (db : Database) (name : List ℕ) (change : User → User) (row : User)
    → ((row : User) → (change row).ident_screen_name ≡ row.ident_screen_name)
    → find_user db.users name ≡ some row
    → user u (update_user db name change) name ≡ some (read_user u (change row))
user-update_user u db name change row keeps h =
    user-find_user u (update_user db name change) name
    ∙ rw (find_user-update_where db.users name change keeps, h) refl

pub user-update_user_other :
    (u : Unicode) (db : Database) (name other : List ℕ) (change : User → User)
    → ((row : User) → (change row).ident_screen_name ≡ row.ident_screen_name)
    → bytes_eq name other ≡ false
    → user u (update_user db name change) other ≡ user u db other
user-update_user_other u db name other change keeps e =
    user-find_user u (update_user db name change) other
    ∙ rw (find_user-update_where_other db.users name other change keeps e)
        (sym (user-find_user u db other))

-- After `SetUserPassword` for a user who exists, with a password of an allowed length, there is no
-- error, the user who is then read accepts the password, and every other user is read as before.
pub set_user_password-accepts :
    (md5 : List ℕ → List ℕ) (u : Unicode) (db : Database) (name password : List ℕ) (row : User)
    → find_user db.users name ≡ some row
    → validate_password row password ≡ true
    → ((set_user_password md5 db name password).1 ≡ none)
      × ((usr : User) × (user u (set_user_password md5 db name password).0 name ≡ some usr)
          × (validate_plaintext_pass md5 usr password ≡ true))
      × ((other : List ℕ)
          → bytes_eq name other ≡ false
          → user u (set_user_password md5 db name password).0 other ≡ user u db other)
unfolding set_user_password hash_password validate_plaintext_pass
set_user_password-accepts md5 u db name password row f v =
    rw (f, v)
      (
        refl,
        (
          _,
          user-update_user u db name _ row (λ _. refl) f,
          bytes_eq_refl (weak_md5_password_hash md5 password row.auth_key),
        ),
        λ other e. user-update_user_other u db name other _ (λ _. refl) e,
      )

-- Where a message is not refused, the count that `SaveMessage` keeps with the recipient is that of the
-- messages of this one sender, whatever others have left for him.
pub save_message-offline_msg_count :
    (u : Unicode) (db : Database) (m : OfflineMessage) (bs : List ℕ) (row : User)
    → marshal_be icbm_channel_msg_to_host m.message ≡ ok bs
    → count_where (is_from_to m.sender m.recipient) db.messages < offline_inbox_limit
    → has_user db.users m.sender ≡ true
    → has_user db.users m.recipient ≡ true
    → find_user db.users m.recipient ≡ some row
    → user u (save_message db m).0 m.recipient
      ≡ some (record (read_user u row) {
        offline_msg_count = pos (count_where (is_from_to m.sender m.recipient) db.messages + 1);
      })
unfolding save_message insert_message
save_message-offline_msg_count u db m bs row b c s t f =
    let room : leb offline_inbox_limit (count_where (is_from_to m.sender m.recipient) db.messages)
        ≡ false =
      ground arith in
    rw (b, room, s, t) (user-update_user u _ m.recipient _ row (λ _. refl) f)
