-- ===== src/State/Manager/Relays.antt =====
-- The relays of `InMemorySessionManager` (state/session_manager.go).
use go_icq.Prelude.{ℕ, Option, none, some, List, [], ◌∷◌, ◌++◌, ◌&&◌, bytes_eq, if◌then◌else◌}
use go_icq.State.Session.{
  Session, SnacMessage, SessSendStatus, sess_send_ok, sess_queue_full, sess_send_closed,
}
use go_icq.State.Session.Relay.{relay_message, close}
use go_icq.State.Manager.{Entry, Manager, update, retrieve_session, all_sessions}

-- A session whose queue is full is closed.
abbrev pub after_relay : SessSendStatus × Session → Session
after_relay (sess_send_ok, s) = s
after_relay (sess_queue_full, s) = close s
after_relay (sess_send_closed, s) = s

unfoldable pub maybe_relay_message : (ℕ → Session) → SnacMessage → ℕ → ℕ → Session
maybe_relay_message heap msg a = update heap a (after_relay (relay_message (heap a) msg))

-- The loop over sessions.
unfoldable pub relay_to_sessions : (ℕ → Session) → SnacMessage → List ℕ → ℕ → Session
relay_to_sessions heap msg [] = heap
relay_to_sessions heap msg (a ∷ as') = relay_to_sessions (maybe_relay_message heap msg a) msg as'

unfoldable pub relay_to_all : Manager → SnacMessage → Manager
relay_to_all m msg = record m { heap = relay_to_sessions m.heap msg (all_sessions m) }

abbrev pub as_list : Option ℕ → List ℕ
as_list none = []
as_list (some a) = a ∷ []

unfoldable pub relay_to_screen_name : Manager → List ℕ → SnacMessage → Manager
relay_to_screen_name m name msg = record m {
  heap = relay_to_sessions m.heap msg (as_list (retrieve_session m name));
}

-- The inner loop of `retrieveByScreenNames`, for one name.
unfoldable pub sessions_named : (ℕ → Session) → List Entry → List ℕ → List ℕ
sessions_named heap [] name = []
sessions_named heap (entry ∷ store) name =
    let s = heap entry.sess in
    if s.signon_complete && bytes_eq name s.ident_screen_name
    then entry.sess ∷ sessions_named heap store name
    else sessions_named heap store name

unfoldable pub retrieve_by_screen_names : Manager → List (List ℕ) → List ℕ
retrieve_by_screen_names m [] = []
retrieve_by_screen_names m (name ∷ names) =
    sessions_named m.heap m.store name ++ retrieve_by_screen_names m names

unfoldable pub relay_to_screen_names : Manager → List (List ℕ) → SnacMessage → Manager
relay_to_screen_names m names msg = record m {
  heap = relay_to_sessions m.heap msg (retrieve_by_screen_names m names);
}
