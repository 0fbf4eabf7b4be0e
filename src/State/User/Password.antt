-- ===== src/State/User/Password.antt =====
-- The passwords of a user, of state/user.go, and their hashes, of wire/user.go. MD5 is a parameter.
use go_icq.Prelude.{
  ℕ, Bool, true, false, ◌||◌, Option, none, some, List, [], ◌++◌, length, ltb, codes, bytes_eq,
  if◌then◌else◌,
}
use go_icq.Prelude.Int.{pos}
use go_icq.Wire.Roast.{
  roast_oscar_password, roast_kerberos_password, roast_oscar_java_password, roast_toc_password,
}
use go_icq.State.Session.{zero_time}
use go_icq.State.User.{User}
use go_icq.State.User.Info.{
  no_icq_affiliations, no_icq_interests, no_icq_more_info, no_icq_basic_info, no_icq_work_info,
  no_aim_name_and_addr,
}
use go_icq.State.User.Name.{Unicode, new_ident_screen_name, is_uin}

abbrev pub aol_suffix : List ℕ
aol_suffix = codes "AOL Instant Messenger (SM)"

-- `WeakMD5PasswordHash` and `StrongMD5PasswordHash`.
unfoldable pub weak_md5_password_hash : (List ℕ → List ℕ) → List ℕ → List ℕ → List ℕ
weak_md5_password_hash md5 pass auth_key = md5 (auth_key ++ (pass ++ aol_suffix))

unfoldable pub strong_md5_password_hash : (List ℕ → List ℕ) → List ℕ → List ℕ → List ℕ
strong_md5_password_hash md5 pass auth_key = md5 (auth_key ++ (md5 pass ++ aol_suffix))

-- Whether the password is accepted; the only error is ErrPasswordInvalid.
unfoldable pub validate_aim_password : List ℕ → Bool
validate_aim_password pass = if ltb (length pass) 4 || ltb 16 (length pass) then false else true

unfoldable pub validate_icq_password : List ℕ → Bool
validate_icq_password pass = if ltb (length pass) 6 || ltb 8 (length pass) then false else true

unfoldable pub validate_password : User → List ℕ → Bool
unfolding validate_aim_password validate_icq_password
validate_password user passwd =
    if user.is_icq then validate_icq_password passwd else validate_aim_password passwd

-- `HashPassword`: the user afterwards, and whether there was no error.
unfoldable pub hash_password : (List ℕ → List ℕ) → User → List ℕ → User × Bool
hash_password md5 user passwd =
    if validate_password user passwd
    then (
      record user {
        weak_md5_pass = weak_md5_password_hash md5 passwd user.auth_key;
        strong_md5_pass = strong_md5_password_hash md5 passwd user.auth_key;
      },
      true,
    )
    else (user, false)

unfoldable pub validate_hash : User → List ℕ → Bool
validate_hash user md5_hash =
    bytes_eq user.strong_md5_pass md5_hash || bytes_eq user.weak_md5_pass md5_hash

unfoldable pub validate_plaintext_pass : (List ℕ → List ℕ) → User → List ℕ → Bool
validate_plaintext_pass md5 user pass =
    bytes_eq user.weak_md5_pass (weak_md5_password_hash md5 pass user.auth_key)

-- The four tests of a roasted password, each with its table. Nothing would stand for a panic.
abbrev pub if_clear : (List ℕ → List ℕ) → User → Option (List ℕ) → Option Bool
if_clear md5 user none = none
if_clear md5 user (some clear_pass) =
    some (bytes_eq user.weak_md5_pass (weak_md5_password_hash md5 clear_pass user.auth_key))

unfoldable pub validate_roasted_pass : (List ℕ → List ℕ) → User → List ℕ → Option Bool
validate_roasted_pass md5 user roasted = if_clear md5 user (roast_oscar_password roasted)

unfoldable pub validate_roasted_toc_pass : (List ℕ → List ℕ) → User → List ℕ → Option Bool
validate_roasted_toc_pass md5 user roasted = if_clear md5 user (roast_toc_password roasted)

unfoldable pub validate_roasted_kerberos_pass : (List ℕ → List ℕ) → User → List ℕ → Option Bool
validate_roasted_kerberos_pass md5 user roasted =
    if_clear md5 user (roast_kerberos_password roasted)

unfoldable pub validate_roasted_java_pass : (List ℕ → List ℕ) → User → List ℕ → Option Bool
validate_roasted_java_pass md5 user roasted = if_clear md5 user (roast_oscar_java_password roasted)

-- The user of `NewStubUser` before its password is hashed, with the UUID that it is given.
abbrev pub stub_user : Unicode → List ℕ → List ℕ → User
stub_user u uuid screen_name = record {
  ident_screen_name = new_ident_screen_name u screen_name;
  display_screen_name = screen_name;
  auth_key = uuid;
  strong_md5_pass = [];
  weak_md5_pass = [];
  is_icq = is_uin u screen_name;
  confirm_status = false;
  reg_status = pos 0;
  suspended_status = 0;
  email_address = [];
  icq_affiliations = no_icq_affiliations;
  icq_interests = no_icq_interests;
  icq_more_info = no_icq_more_info;
  auth_required = false;
  icq_basic_info = no_icq_basic_info;
  notes = [];
  icq_work_info = no_icq_work_info;
  aim_directory_info = no_aim_name_and_addr;
  toc_config = [];
  is_bot = false;
  last_warn_update = zero_time;
  last_warn_level = 0;
  offline_msg_count = pos 0;
}

-- No UUID stands for the error of `uuid.NewRandom`, with which the user returned is the zero value, and
-- so is what `stub_user` makes of empty texts.
unfoldable pub new_stub_user : (List ℕ → List ℕ) → Unicode → Option (List ℕ) → List ℕ → User × Bool
new_stub_user md5 u none screen_name = (stub_user u [] [], false)
new_stub_user md5 u (some uuid) screen_name =
    hash_password md5 (stub_user u uuid screen_name) (codes "welcome1")
