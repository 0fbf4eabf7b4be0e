-- ===== src/State/User.antt =====
-- The users of state/user.go: their screen names, passwords and profiles.
pub mod Info
pub mod Name
pub mod Password
pub mod Checked
pub mod Identity
pub mod Handle
pub mod Age
mod Tests
use go_icq.Prelude.{ℕ, Bool, ◌&&◌, not, List, [], bytes_eq}
use go_icq.Prelude.Int.{ℤ, ltb_ℤ}
use go_icq.State.Session.{UserProfile, zero_time}
use Info.{IcqAffiliations, IcqInterests, IcqMoreInfo, IcqBasicInfo, IcqWorkInfo, AimNameAndAddr}

-- `User`. ICQPermissions and ICQUserNotes have one field each, and are that field.
pub record User : Type 0 where
  pub ident_screen_name : List ℕ
  pub display_screen_name : List ℕ
  pub auth_key : List ℕ
  pub strong_md5_pass : List ℕ
  pub weak_md5_pass : List ℕ
  pub is_icq : Bool
  pub confirm_status : Bool
  pub reg_status : ℤ
  pub suspended_status : ℕ
  pub email_address : List ℕ
  pub icq_affiliations : IcqAffiliations
  pub icq_interests : IcqInterests
  pub icq_more_info : IcqMoreInfo
  pub auth_required : Bool
  pub icq_basic_info : IcqBasicInfo
  pub notes : List ℕ
  pub icq_work_info : IcqWorkInfo
  pub aim_directory_info : AimNameAndAddr
  pub toc_config : List ℕ
  pub is_bot : Bool
  pub last_warn_update : ℤ
  pub last_warn_level : ℕ
  pub offline_msg_count : ℤ

-- `Empty` of `UserProfile`.
unfoldable pub profile_empty : UserProfile → Bool
profile_empty p =
    bytes_eq p.profile_text []
    && (bytes_eq p.mime_type []
        && (not (ltb_ℤ p.update_time zero_time) && not (ltb_ℤ zero_time p.update_time)))
