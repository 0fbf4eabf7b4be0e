-- ===== src/State/Session/Setters.antt =====
-- The setters of state/session.go that store their argument.
use go_icq.Prelude.{ℕ, Bool, true, Option, List}
use go_icq.Prelude.Int.{ℤ}
use go_icq.State.Session.{Session, BartId, UserProfile, AddrPort}

abbrev pub set_remote_addr : Session → Option AddrPort → Session
set_remote_addr s value = record s { remote_addr = value }

abbrev pub set_away_message : Session → List ℕ → Session
set_away_message s value = record s { away_message = value }

abbrev pub set_chat_room_cookie : Session → List ℕ → Session
set_chat_room_cookie s value = record s { chat_room_cookie = value }

abbrev pub set_uin : Session → ℕ → Session
set_uin s value = record s { uin = value }

abbrev pub set_offline_msg_count : Session → ℤ → Session
set_offline_msg_count s value = record s { offline_msg_count = value }

abbrev pub set_profile : Session → UserProfile → Session
set_profile s value = record s { profile = value }

abbrev pub set_typing_events_enabled : Session → Bool → Session
set_typing_events_enabled s value = record s { typing_events_enabled = value }

abbrev pub set_kerberos_auth : Session → Bool → Session
set_kerberos_auth s value = record s { kerberos_auth = value }

abbrev pub set_food_group_versions : Session → List ℕ → Session
set_food_group_versions s value = record s { food_group_versions = value }

abbrev pub set_user_status_bitmask : Session → ℕ → Session
set_user_status_bitmask s value = record s { user_status_bitmask = value }

abbrev pub set_ident_screen_name : Session → List ℕ → Session
set_ident_screen_name s value = record s { ident_screen_name = value }

abbrev pub set_multi_conn_flag : Session → ℕ → Session
set_multi_conn_flag s value = record s { multi_conn_flag = value }

abbrev pub set_signon_time : Session → ℤ → Session
set_signon_time s value = record s { signon_time = value }

abbrev pub set_warning : Session → ℕ → Session
set_warning s value = record s { warning = value }

abbrev pub set_caps : Session → List (List ℕ) → Session
set_caps s value = record s { caps = value }

abbrev pub set_display_screen_name : Session → List ℕ → Session
set_display_screen_name s value = record s { display_screen_name = value }

abbrev pub set_buddy_icon : Session → BartId → Session
set_buddy_icon s value = record s { buddy_icon = value }

abbrev pub set_client_id : Session → List ℕ → Session
set_client_id s value = record s { client_id = value }

abbrev pub set_member_since : Session → ℤ → Session
set_member_since s value = record s { member_since = value }

abbrev pub set_signon_complete : Session → Session
set_signon_complete s = record s { signon_complete = true }
