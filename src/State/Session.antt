-- ===== src/State/Session.antt =====
-- A user's session, of state/session.go: its state, a new session, and the setters. Each method holds
-- the session's mutex from its first line to its last, so it is one function of the session. A getter
-- is a field of the record.
pub mod Setters
pub mod Rates
pub mod Observe
pub mod Relay
pub mod Info
pub mod Valid
mod Tests
use go_icq.Prelude.{
  ℕ, suc, ◌-◌, ◌+◌, ◌*◌, ◌^◌, Bool, true, false, Option, none, some, List, [], ◌∷◌, replicate, ◌==◌,
  bit_and, bit_or, bit_xor,
}
use go_icq.Prelude.Int.{ℤ, pos, negsuc, ◌-ℤ◌}
use go_icq.Wire.GoType.{GoType, Value}
use go_icq.Wire.Messages.{SnacFrame}
use go_icq.Wire.RateLimit.{RateLimitStatus, unset, RateClass}

pub data SessSendStatus : Type 0 where
  sess_send_ok sess_queue_full sess_send_closed : SessSendStatus

pub record RateClassState : Type 0 where
  pub class : RateClass
  pub current_level : ℤ
  pub last_time : ℤ
  pub current_status : RateLimitStatus
  pub subscribed : Bool
  pub limited_now : Bool

-- A message's body is any value that can be marshalled, or nil.
pub record SnacMessage : Type 0 where
  pub frame : SnacFrame
  pub body : Option ((t : GoType) × Value t)

-- `wire.BARTID` with its `wire.BARTInfo`.
pub record BartId : Type 0 where
  pub icon_type : ℕ
  pub flags : ℕ
  pub hash : List ℕ

pub record UserProfile : Type 0 where
  pub profile_text : List ℕ
  pub mime_type : List ℕ
  pub update_time : ℤ

-- An address as its bytes, and a port.
abbrev pub AddrPort : Type 0
AddrPort = List ℕ × ℕ

-- Texts are their bytes, times nanoseconds from 1970. A channel is the messages that it holds, and
-- `stop_ch` tells whether that channel is closed.
pub record Session : Type 0 where
  pub away_message : List ℕ
  pub buddy_icon : BartId
  pub caps : List (List ℕ)
  pub chat_room_cookie : List ℕ
  pub client_id : List ℕ
  pub closed : Bool
  pub display_screen_name : List ℕ
  pub food_group_versions : List ℕ
  pub ident_screen_name : List ℕ
  pub idle : Bool
  pub idle_time : ℤ
  pub last_observed_states : List RateClassState
  pub msg_ch : List SnacMessage
  pub multi_conn_flag : ℕ
  pub kerberos_auth : Bool
  pub rate_limit_states : List RateClassState
  pub rate_limit_states_original : List RateClassState
  pub remote_addr : Option AddrPort
  pub signon_complete : Bool
  pub signon_time : ℤ
  pub stop_ch : Bool
  pub typing_events_enabled : Bool
  pub uin : ℕ
  pub user_info_bitmask : ℕ
  pub user_status_bitmask : ℕ
  pub warning : ℕ
  pub warning_ch : List ℕ
  pub last_warn_update : ℤ
  pub profile : UserProfile
  pub member_since : ℤ
  pub offline_msg_count : ℤ

-- The zero time.Time, the first instant of the year 1.
abbrev pub zero_time : ℤ
zero_time = negsuc (62135596800 * 10 ^ 9 - 1)

abbrev pub zero_state : RateClassState
zero_state = record {
  class = record {
    id = 0;
    window_size = pos 0;
    clear_level = pos 0;
    alert_level = pos 0;
    limit_level = pos 0;
    disconnect_level = pos 0;
    max_level = pos 0;
  };
  current_level = pos 0;
  last_time = zero_time;
  current_status = unset;
  subscribed = false;
  limited_now = false;
}

-- Version 1 for every food group that has a name, from 0x00 to 0x25.
abbrev default_versions : List ℕ
default_versions =
    0 ∷ 1 ∷ 1 ∷ 1 ∷ 1 ∷ 1 ∷ 1 ∷ 1 ∷ 1 ∷ 1 ∷ 1 ∷ 1 ∷ 1 ∷ 1 ∷ 1 ∷ 1 ∷ 1 ∷ 0 ∷ 0 ∷ 1 ∷ 0 ∷ 1 ∷ 0 ∷ 1
    ∷ 1 ∷ 0 ∷ 0 ∷ 0 ∷ 0 ∷ 0 ∷ 0 ∷ 0 ∷ 0 ∷ 0 ∷ 1 ∷ 0 ∷ 1 ∷ 1 ∷ []

-- Bits of the user info and of the user status.
abbrev pub flag_oscar_free : ℕ
flag_oscar_free = 0x10

abbrev pub flag_unavailable : ℕ
flag_unavailable = 0x20

abbrev pub flag_icq : ℕ
flag_icq = 0x40

abbrev pub flag_bot : ℕ
flag_bot = 0x400

abbrev pub status_available : ℕ
status_available = 0x00

abbrev pub status_invisible : ℕ
status_invisible = 0x100

-- `NewSession` at a time.
unfoldable pub new_session : ℤ → Session
new_session now = record {
  away_message = [];
  buddy_icon = record { icon_type = 0; flags = 0; hash = [] };
  caps = [];
  chat_room_cookie = [];
  client_id = [];
  closed = false;
  display_screen_name = [];
  food_group_versions = default_versions;
  ident_screen_name = [];
  idle = false;
  idle_time = zero_time;
  last_observed_states = replicate 5 zero_state;
  msg_ch = [];
  multi_conn_flag = 0;
  kerberos_auth = false;
  rate_limit_states = replicate 5 zero_state;
  rate_limit_states_original = replicate 5 zero_state;
  remote_addr = none;
  signon_complete = false;
  signon_time = now;
  stop_ch = false;
  typing_events_enabled = false;
  uin = 0;
  user_info_bitmask = flag_oscar_free;
  user_status_bitmask = status_available;
  warning = 0;
  warning_ch = [];
  last_warn_update = zero_time;
  profile = record { profile_text = []; mime_type = []; update_time = zero_time };
  member_since = zero_time;
  offline_msg_count = pos 0;
}

-- Whether all bits of a flag are set, and the bits without those of a flag.
unfoldable pub has_flag : ℕ → ℕ → Bool
has_flag bits flag = bit_and bits flag == flag

unfoldable pub without_flag : ℕ → ℕ → ℕ
without_flag bits flag = bit_xor bits (bit_and bits flag)

unfoldable pub set_user_info_flag : Session → ℕ → ℕ × Session
set_user_info_flag s flag =
    let bits = bit_or s.user_info_bitmask flag in (bits, record s { user_info_bitmask = bits })

unfoldable pub clear_user_info_flag : Session → ℕ → ℕ × Session
unfolding without_flag
clear_user_info_flag s flag =
    let bits = without_flag s.user_info_bitmask flag in
    (bits, record s { user_info_bitmask = bits })

-- The user became idle a duration before now.
unfoldable pub set_idle : Session → ℤ → ℤ → Session
set_idle s now dur = record s { idle = true; idle_time = now -ℤ dur }

unfoldable pub unset_idle : Session → Session
unset_idle s = record s { idle = false }
