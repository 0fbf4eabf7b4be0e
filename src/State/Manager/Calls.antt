-- ===== src/State/Manager/Calls.antt =====
-- Concurrent calls of `AddSession` (state/session_manager.go), which lets go of the mutex while it
-- waits for the session that it replaces.
use go_icq.Prelude.{ℕ, ◌≡◌, true, Option, none, some, List}
use go_icq.Prelude.Int.{ℤ}
use go_icq.State.Session.{Session}
use go_icq.State.Session.Relay.{close}
use go_icq.State.Manager.{Manager, update, find_rec, create, remove_session, new_manager}

-- Where a call stands: at its start, about to close the active session, waiting for the removal of it,
-- about to look again, or returned with a session, with `errSessConflict` or as the context is done.
pub data Call : Type 0 where
  idle : Call
  closing waiting replacing : List ℕ → List ℕ → ℕ → Call
  returned : ℕ → Call
  conflict cancelled : Call

pub record World : Type 0 where
  pub manager : Manager
  pub calls : ℕ → Call

-- With the mutex held: the name is free, or there is an active session.
abbrev pub enter_at : Manager → ℤ → List ℕ → List ℕ → Option ℕ → Manager × Call
enter_at m now name display none = (create m now name display, returned m.fresh)
enter_at m now name display (some a) = (m, closing name display a)

unfoldable pub enter : Manager → ℤ → List ℕ → List ℕ → Manager × Call
enter m now name display = enter_at m now name display (find_rec m.heap m.store name)

unfoldable pub close_active : Manager → ℕ → Manager
close_active m a = record m { heap = update m.heap a (close (m.heap a)) }

-- With the mutex held again: a concurrent call may have been faster.
abbrev pub replace_at : Manager → ℤ → List ℕ → List ℕ → Option ℕ → Manager × Call
replace_at m now name display none = (create m now name display, returned m.fresh)
replace_at m now name display (some a) = (m, conflict)

unfoldable pub replace_session : Manager → ℤ → List ℕ → List ℕ → Manager × Call
replace_session m now name display = replace_at m now name display (find_rec m.heap m.store name)

-- A call, the `i`th, has come to a new place, with the manager as it leaves it.
abbrev pub move : World → ℕ → Manager × Call → World
move w i (m, call) = record { manager = m; calls = update w.calls i call }

-- One step of one call, or of anything else: a call of `RemoveSession`, or a method of a session,
-- none of which but `SetIdentScreenName` changes its name.
pub data Step (w : World) : World → Type 0 where
  entering :
      (i : ℕ) (now : ℤ) (name display : List ℕ)
      → w.calls i ≡ idle
      → Step w (move w i (enter w.manager now name display))
  closing_active :
      (i : ℕ) (name display : List ℕ) (a : ℕ)
      → w.calls i ≡ closing name display a
      → Step w (move w i (close_active w.manager a, waiting name display a))
  waking :
      (i : ℕ) (name display : List ℕ) (a : ℕ)
      → w.calls i ≡ waiting name display a
      → w.manager.removed a ≡ true
      → Step w (move w i (w.manager, replacing name display a))
  cancelling :
      (i : ℕ) (name display : List ℕ) (a : ℕ)
      → w.calls i ≡ waiting name display a
      → Step w (move w i (w.manager, cancelled))
  looking_again :
      (i : ℕ) (now : ℤ) (name display : List ℕ) (a : ℕ)
      → w.calls i ≡ replacing name display a
      → Step w (move w i (replace_session w.manager now name display))
  removing : (a : ℕ) → Step w (record w { manager = remove_session w.manager a })
  using_session :
      (a : ℕ) (s : Session)
      → s.ident_screen_name ≡ (w.manager.heap a).ident_screen_name
      → Step w (record w { manager = record w.manager { heap = update w.manager.heap a s } })

abbrev pub start : (ℕ → Session) → World
start heap = record { manager = new_manager heap; calls = λ i. idle }

pub data Reachable (heap : ℕ → Session) : World → Type 0 where
  here : Reachable heap (start heap)
  after : {w w' : World} → Reachable heap w → Step w w' → Reachable heap w'
