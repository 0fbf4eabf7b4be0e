-- ===== src/State/Manager/Tests.antt =====
-- Runs of the session manager (state/session_manager.go), and its theorems at concrete inputs.
use go_icq.Prelude.{ℕ, ◌≡◌, refl, ◌⊎◌, true, false, some, none, List, [], ◌∷◌, All, arith}
use go_icq.Prelude.Int.{pos}
use go_icq.State.Session.{Session, SnacMessage, new_session}
use go_icq.State.Session.Relay.{relay_message}
use go_icq.State.Manager.{Manager, find_key, find_rec, put, create, remove_session}
use go_icq.State.Manager.Relays.{after_relay, relay_to_all}
use go_icq.State.Manager.Relayed.{relay_to_all-reaches}
use go_icq.State.Manager.Store.{DistinctKeys, IsLive, in_store}
use go_icq.State.Manager.Calls.{
  World, waiting, enter, close_active, move, entering, closing_active, removing, start, Reachable,
  here, after,
}
use go_icq.State.Manager.Invariant.{Reachable-map, waiting_wakes}
use go_icq.State.Manager.Directory.{Change, directory, Step-Change}

abbrev nobody : ℕ → Session
nobody a = new_session (pos 0)

abbrev alice : List ℕ
alice = 97 ∷ 108 ∷ []

-- Alice signs on, and then again: the second call closes her first session and waits.
abbrev signed_on : World
signed_on = move (start nobody) 0 (enter (start nobody).manager (pos 0) alice alice)

abbrev again : World
again = move signed_on 1 (enter signed_on.manager (pos 9) alice alice)

abbrev waits : World
waits = move again 1 (close_active again.manager 0, waiting alice alice 0)

signed_on-Reachable : Reachable nobody signed_on
signed_on-Reachable = after here (entering 0 (pos 0) alice alice refl)

waits-Reachable : Reachable nobody waits
unfolding enter find_rec create put new_session close_active
waits-Reachable =
    after (after signed_on-Reachable (entering 1 (pos 9) alice alice refl))
      (closing_active 1 alice alice 0 refl)

Reachable-map_example :
    DistinctKeys waits.manager.store × All (λ entry. IsLive waits.manager entry) waits.manager.store
Reachable-map_example = Reachable-map nobody waits waits-Reachable

waiting_wakes_example :
    (waits.manager.removed 0 ≡ true)
    ⊎ ((find_key waits.manager.store (waits.manager.heap 0).ident_screen_name ≡ some 0)
        × ((remove_session waits.manager 0).removed 0 ≡ true))
unfolding enter find_rec create put new_session close_active
waiting_wakes_example = waiting_wakes nobody waits 1 0 alice alice waits-Reachable refl

Step-Change_example : Change (directory waits.manager) (directory (remove_session waits.manager 0))
Step-Change_example = Step-Change nobody waits _ waits-Reachable (removing 0)

abbrev greeting : SnacMessage
greeting = record {
  frame = record { food_group = 4; sub_group = 7; flags = 0; request_id = 1 };
  body = none;
}

-- Alice has completed her sign-on.
abbrev ready : Manager
ready = record {
  store = (record { key = alice; sess = 0 }) ∷ [];
  heap = λ a. record (new_session (pos 0)) { ident_screen_name = alice; signon_complete = true };
  fresh = 1;
  removed = λ a. false;
}

relay_to_all-reaches_example :
    (relay_to_all ready greeting).heap 0 ≡ after_relay (relay_message (ready.heap 0) greeting)
unfolding in_store
relay_to_all-reaches_example = relay_to_all-reaches ready greeting 0 (record {
  live = (record { named = refl; in_use = omega arith; open_channel = refl }, tt);
  distinct = (tt, tt);
})

greeting_waits : (after_relay (relay_message (ready.heap 0) greeting)).msg_ch ≡ greeting ∷ []
unfolding relay_message new_session
greeting_waits = refl
