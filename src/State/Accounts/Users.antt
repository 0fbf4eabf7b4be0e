-- ===== src/State/Accounts/Users.antt =====
-- The methods of `SQLiteUserStore` (state/user_store.go) on one user.
use go_icq.Prelude.{
  ℕ, ◌⊎◌, inl, inr, Bool, true, false, ◌&&◌, ◌||◌, not, Option, none, some, List, [], ◌∷◌, ◌++◌,
  map, bytes_eq, if◌then◌else◌,
}
use go_icq.Prelude.Int.{ℤ, pos}
use go_icq.State.Text.{decimal, lower_byte}
use go_icq.State.Session.{zero_time}
use go_icq.State.User.{User}
use go_icq.State.User.Info.{
  AimNameAndAddr, IcqAffiliations, IcqInterests, IcqMoreInfo, IcqBasicInfo, IcqWorkInfo,
  no_icq_affiliations, no_icq_interests, no_icq_more_info, no_icq_basic_info, no_icq_work_info,
  no_aim_name_and_addr,
}
use go_icq.State.User.Name.{Unicode, new_ident_screen_name, is_uin}
use go_icq.State.User.Password.{hash_password}
use go_icq.State.Sql.{delete_where}
use go_icq.State.Accounts.{
  StoreError, uin_not_icq, dup_user, no_user, bad_password, syntax_error, MessageRow, Database,
  unix, is_user, query_users, has_user, update_user, update_known,
}

abbrev pub first_user : List User → Option User
first_user [] = none
first_user (row ∷ rows) = some row

-- `User`, of which none stands for nil.
unfoldable pub user : Unicode → Database → List ℕ → Option User
user u db name = first_user (query_users u db.users (is_user name))

-- What the columns that `InsertUser` does not name hold at first.
abbrev pub new_row : User → User
new_row usr = record {
  ident_screen_name = usr.ident_screen_name;
  display_screen_name = usr.display_screen_name;
  auth_key = usr.auth_key;
  strong_md5_pass = usr.strong_md5_pass;
  weak_md5_pass = usr.weak_md5_pass;
  is_icq = usr.is_icq;
  confirm_status = false;
  reg_status = pos 3;
  suspended_status = 0;
  email_address = [];
  icq_affiliations = no_icq_affiliations;
  icq_interests = no_icq_interests;
  icq_more_info = no_icq_more_info;
  auth_required = false;
  icq_basic_info = no_icq_basic_info;
  notes = [];
  icq_work_info = no_icq_work_info;
  aim_directory_info = no_aim_name_and_addr;
  toc_config = [];
  is_bot = usr.is_bot;
  last_warn_update = pos 0;
  last_warn_level = 0;
  offline_msg_count = pos 0;
}

unfoldable pub insert_user : Unicode → Database → User → Database × Option StoreError
insert_user u db usr =
    if is_uin u usr.display_screen_name && not usr.is_icq
    then (db, some uin_not_icq)
    else if has_user db.users usr.ident_screen_name
    then (db, some dup_user)
    else (record db { users = db.users ++ new_row usr ∷ [] }, none)

-- The messages from and to a user go with him, by the foreign keys.
abbrev pub of_user : List ℕ → MessageRow → Bool
of_user name row = bytes_eq row.sender name || bytes_eq row.recipient name

unfoldable pub delete_user : Database → List ℕ → Database × Option StoreError
delete_user db name =
    if has_user db.users name
    then (
      record {
        users = delete_where (is_user name) db.users;
        messages = delete_where (of_user name) db.messages;
      },
      none,
    )
    else (db, some no_user)

abbrev listed : Unicode → User → User
listed u row = record (new_row row) {
  ident_screen_name = new_ident_screen_name u row.ident_screen_name;
  auth_key = [];
  strong_md5_pass = [];
  weak_md5_pass = [];
  reg_status = pos 0;
  last_warn_update = zero_time;
}

-- `AllUsers` fills in four fields only.
unfoldable pub all_users : Unicode → Database → List User
all_users u db = map (listed u) db.users

-- Of the queries that want one user.
abbrev pub or_no_user : List User → User ⊎ StoreError
or_no_user [] = inr no_user
or_no_user (row ∷ rows) = inl row

unfoldable pub find_by_uin : Unicode → Database → ℕ → User ⊎ StoreError
find_by_uin u db n = or_no_user (query_users u db.users (is_user (decimal n)))

unfoldable pub find_by_icq_email : Unicode → Database → List ℕ → User ⊎ StoreError
find_by_icq_email u db email =
    or_no_user (query_users u db.users (λ row. bytes_eq row.icq_basic_info.email_address email))

unfoldable pub find_by_aim_email : Unicode → Database → List ℕ → User ⊎ StoreError
find_by_aim_email u db email =
    or_no_user (query_users u db.users (λ row. bytes_eq row.email_address email))

-- `LOWER(column) = LOWER(?)`, in which SQLite changes ASCII letters only, for each text that is not empty.
abbrev pub Clause : Type 0
Clause = User → Bool

unfoldable pub clause : List ℕ → (User → List ℕ) → List Clause
clause [] column = []
clause (b ∷ bs) column =
    (λ row. bytes_eq (map lower_byte (column row)) (map lower_byte (b ∷ bs))) ∷ []

abbrev all_hold : List Clause → User → Bool
all_hold [] row = true
all_hold (c ∷ cs) row = c row && all_hold cs row

-- `WHERE` with nothing after it is refused.
abbrev pub where_all : Unicode → Database → List Clause → List User ⊎ StoreError
where_all u db [] = inr syntax_error
where_all u db (c ∷ cs) = inl (query_users u db.users (all_hold (c ∷ cs)))

unfoldable pub find_by_icq_name :
    Unicode → Database → List ℕ → List ℕ → List ℕ → List User ⊎ StoreError
unfolding clause
find_by_icq_name u db first_name last_name nick_name = where_all u db (
    clause first_name (λ row. row.icq_basic_info.first_name)
    ++ (clause last_name (λ row. row.icq_basic_info.last_name)
        ++ clause nick_name (λ row. row.icq_basic_info.nickname)))

unfoldable pub find_by_aim_name_and_addr :
    Unicode → Database → AimNameAndAddr → List User ⊎ StoreError
unfolding clause
find_by_aim_name_and_addr u db info = where_all u db (
    clause info.first_name (λ row. row.aim_directory_info.first_name)
    ++ (clause info.last_name (λ row. row.aim_directory_info.last_name)
        ++ (clause info.middle_name (λ row. row.aim_directory_info.middle_name)
            ++ (clause info.maiden_name (λ row. row.aim_directory_info.maiden_name)
                ++ (clause info.country (λ row. row.aim_directory_info.country)
                    ++ (clause info.state (λ row. row.aim_directory_info.state)
                        ++ (clause info.city (λ row. row.aim_directory_info.city)
                            ++ (clause info.nick_name (λ row. row.aim_directory_info.nick_name)
                                ++ (clause info.zip_code (λ row. row.aim_directory_info.zip_code)
                                    ++ clause info.address
                                        (λ row. row.aim_directory_info.address))))))))))

-- The methods that change a user and fail if there is none.
unfoldable pub set_user_notes : Database → List ℕ → List ℕ → Database × Option StoreError
set_user_notes db name notes = update_known db name (λ row. record row { notes = notes })

unfoldable pub set_directory_info :
    Database → List ℕ → AimNameAndAddr → Database × Option StoreError
set_directory_info db name info =
    update_known db name (λ row. record row { aim_directory_info = info })

unfoldable pub set_work_info : Database → List ℕ → IcqWorkInfo → Database × Option StoreError
set_work_info db name info = update_known db name (λ row. record row { icq_work_info = info })

unfoldable pub set_more_info : Database → List ℕ → IcqMoreInfo → Database × Option StoreError
set_more_info db name info = update_known db name (λ row. record row { icq_more_info = info })

unfoldable pub set_interests : Database → List ℕ → IcqInterests → Database × Option StoreError
set_interests db name interests =
    update_known db name (λ row. record row { icq_interests = interests })

unfoldable pub set_affiliations : Database → List ℕ → IcqAffiliations → Database × Option StoreError
set_affiliations db name affiliations =
    update_known db name (λ row. record row { icq_affiliations = affiliations })

unfoldable pub set_basic_info : Database → List ℕ → IcqBasicInfo → Database × Option StoreError
set_basic_info db name info = update_known db name (λ row. record row { icq_basic_info = info })

unfoldable pub set_toc_config : Database → List ℕ → List ℕ → Database × Option StoreError
set_toc_config db name config = update_known db name (λ row. record row { toc_config = config })

unfoldable pub set_warn_level : Database → List ℕ → ℤ → ℕ → Database × Option StoreError
set_warn_level db name last_update level =
    update_known db name
      (λ row. record row { last_warn_update = unix last_update; last_warn_level = level })

unfoldable pub set_offline_msg_count : Database → List ℕ → ℤ → Database × Option StoreError
set_offline_msg_count db name count =
    update_known db name (λ row. record row { offline_msg_count = count })

-- Those that say nothing.
unfoldable pub set_bot_status : Database → Bool → List ℕ → Database
set_bot_status db is_bot name = update_user db name (λ row. record row { is_bot = is_bot })

unfoldable pub update_email_address : Database → List ℕ → List ℕ → Database
update_email_address db name address =
    update_user db name (λ row. record row { email_address = address })

unfoldable pub update_reg_status : Database → List ℕ → ℤ → Database
update_reg_status db name status = update_user db name (λ row. record row { reg_status = status })

unfoldable pub update_confirm_status : Database → List ℕ → Bool → Database
update_confirm_status db name status =
    update_user db name (λ row. record row { confirm_status = status })

unfoldable pub update_suspended_status : Database → ℕ → List ℕ → Database
update_suspended_status db status name =
    update_user db name (λ row. record row { suspended_status = status })

unfoldable pub update_display_screen_name : Unicode → Database → List ℕ → Database
update_display_screen_name u db display =
    update_user db (new_ident_screen_name u display)
      (λ row. record row { display_screen_name = display })

-- The columns `regStatus` and `confirmStatus`, with Go's zero for one who is not found.
unfoldable pub column_or {ℓ} : {A : Type ℓ} → A → (User → A) → List User → List ℕ → A
column_or default column [] name = default
column_or default column (row ∷ rows) name =
    if is_user name row then column row else column_or default column rows name

unfoldable pub reg_status_of : Database → List ℕ → ℤ
reg_status_of db name = column_or (pos 0) (λ row. row.reg_status) db.users name

unfoldable pub confirm_status_of : Database → List ℕ → Bool
confirm_status_of db name = column_or false (λ row. row.confirm_status) db.users name

-- `SetUserPassword`. `HashPassword` reads of the row its key and whether it is of an ICQ user, which the code
-- selects.
unfoldable pub find_user : List User → List ℕ → Option User
find_user [] name = none
find_user (row ∷ rows) name = if is_user name row then some row else find_user rows name

abbrev save_hashes : Database → List ℕ → User × Bool → Database × Option StoreError
save_hashes db name (usr, true) = (
  update_user db name (λ row. record row {
    auth_key = usr.auth_key;
    weak_md5_pass = usr.weak_md5_pass;
    strong_md5_pass = usr.strong_md5_pass;
  }),
  none,
)
save_hashes db name (usr, false) = (db, some bad_password)

abbrev set_password_of :
    (List ℕ → List ℕ) → Database → List ℕ → List ℕ → Option User → Database × Option StoreError
set_password_of md5 db name password none = (db, some no_user)
set_password_of md5 db name password (some row) =
    save_hashes db name (hash_password md5 row password)

unfoldable pub set_user_password :
    (List ℕ → List ℕ) → Database → List ℕ → List ℕ → Database × Option StoreError
set_user_password md5 db name password =
    set_password_of md5 db name password (find_user db.users name)
