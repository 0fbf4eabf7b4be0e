-- ===== src/State/Session/Info.antt =====
-- The user info of a session, of state/session.go: the TLVs that other clients are shown.
use go_icq.Prelude.{
  ℕ, ◌-◌, ◌/◌, ◌%◌, ◌*◌, ◌^◌, Bool, true, false, List, [], ◌∷◌, not, ◌==◌, if◌then◌else◌, bit_or,
}
use go_icq.Prelude.Int.{ℤ, pos, negsuc, ◌-ℤ◌, pos_part}
use go_icq.Wire.Bytes.{w8, w16, w32}
use go_icq.Wire.Result.{Result, ok, ◌>>=◌}
use go_icq.Wire.GoType.{uint, slice, array, GoType, Value}
use go_icq.Wire.Messages.{Tlv}
use go_icq.Wire.Snacs.Blocks.{bart_id}
use go_icq.Wire.Snacs.Icq.{icqdc_info}
use go_icq.Wire.TlvList.{append, new_tlv_be, typed}
use go_icq.State.Session.{Session, BartId, has_flag, flag_unavailable, flag_icq}

abbrev no_icqdc_info : Value icqdc_info
no_icqdc_info = (0, (0, (0, (0, (0, (0, (0, (0, (0, (0, (0, tt)))))))))))

-- `uint32(t.Unix())`: the seconds, rounded down, modulo 2^32.
unfoldable pub unix_32 : ℤ → ℕ
unix_32 (pos n) = n / 10 ^ 9 % 2 ^ 32
unix_32 (negsuc n) = (2 ^ 32 - 1 - n / 10 ^ 9 % 2 ^ 32) % 2 ^ 32

-- The whole minutes that a user has been idle, for a time that is not negative.
unfoldable pub idle_minutes : ℤ → ℕ
idle_minutes d = pos_part d / (60 * 10 ^ 9) % 2 ^ 16

abbrev is_empty {ℓ} : {A : Type ℓ} → List A → Bool
is_empty [] = true
is_empty (x ∷ xs) = false

unfoldable pub user_flags : Session → ℕ
user_flags s =
    if is_empty s.away_message
    then s.user_info_bitmask
    else bit_or s.user_info_bitmask flag_unavailable

-- `BuddyIcon`: the icon, and whether it is set.
unfoldable pub buddy_icon : Session → BartId × Bool
buddy_icon s = (s.buddy_icon, not (s.buddy_icon.icon_type == 0))

abbrev icon_value : BartId → Value bart_id
icon_value icon = (icon.icon_type, ((icon.flags, (icon.hash, tt)), tt))

-- A TLV that is appended under a condition.
abbrev append_if : Bool → List Tlv → ℕ → (t : GoType) → Value t → Result (List Tlv)
append_if false tlvs tag t v = ok tlvs
append_if true tlvs tag t v = do tlv ← new_tlv_be tag (typed t v); ok (append tlvs tlv)

-- `userInfo`.
unfoldable pub user_info : Session → ℤ → Result (List Tlv)
unfolding user_flags buddy_icon unix_32 idle_minutes
user_info s now = do
  signon ← append_if true [] 0x03 (uint w32) (unix_32 s.signon_time)
  flags ← append_if true signon 0x01 (uint w16) (user_flags s)
  status ← append_if true flags 0x06 (uint w32) s.user_status_bitmask
  idle ← append_if s.idle status 0x04 (uint w16) (idle_minutes (now -ℤ s.idle_time))
  icon ← append_if (buddy_icon s).1 idle 0x1D bart_id (icon_value (buddy_icon s).0)
  icq ← append_if (has_flag s.user_info_bitmask flag_icq) icon 0x0C icqdc_info no_icqdc_info
  caps ← append_if (not (is_empty s.caps)) icq 0x0D (slice (array 16 (uint w8))) s.caps
  append_if true caps 0x1E (uint w32) 0

-- `wire.TLVUserInfo`.
pub record TlvUserInfo : Type 0 where
  pub screen_name : List ℕ
  pub warning_level : ℕ
  pub tlv_list : List Tlv

unfoldable pub tlv_user_info : Session → ℤ → Result TlvUserInfo
tlv_user_info s now = do
  tlvs ← user_info s now
  ok (record { screen_name = s.display_screen_name; warning_level = s.warning; tlv_list = tlvs })
