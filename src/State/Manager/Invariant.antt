-- ===== src/State/Manager/Invariant.antt =====
-- What is true of every state that concurrent calls of `AddSession` and `RemoveSession`
-- (state/session_manager.go) can reach.
use go_icq.Prelude.{
  ℕ, ◌<◌, ◌≡◌, sym, true, Bool-cases, inl, inr, Option, none, some, List, ◌⊎◌, ◌==◌, if_both, All,
  arith,
}
use go_icq.Prelude.Int.{ℤ}
use mathlib.Core.Path.{subst}
use go_icq.State.Session.{Session}
use go_icq.State.Manager.{Manager, find_key, find_rec, remove_session}
use go_icq.State.Manager.Store.{
  DistinctKeys, IsLive, IsConsistent, find_rec-find_key, in_store-find_key, in_store-All,
  find_key-in_store,
}
use go_icq.State.Manager.Calls.{
  Call, closing, waiting, World, enter, enter_at, replace_session, replace_at, move, Step, entering,
  closing_active, waking, cancelling, looking_again, removing, using_session, Reachable, here,
  after,
}
use go_icq.State.Manager.Keeps.{
  Looked, CallFits, Keeps, CallFits-Keeps, unchanged, create-Keeps, create-Looked, heap-Keeps,
  close_active-Keeps, remove_session-Keeps,
}

-- The calls are where they can be, and the map is consistent.
pub record IsSound (w : World) : Type 0 where
  pub consistent : IsConsistent w.manager
  pub fit : (i : ℕ) → CallFits w.manager (w.calls i)

-- What is found in the map is known and there.
in_map :
    (m : Manager) (name : List ℕ) (a : ℕ)
    → IsConsistent m
    → find_key m.store name ≡ some a
    → Looked m a
in_map m name a h found =
    let there = in_store-find_key m.store name a found in
    let (entry, same, live) = in_store-All (λ entry. IsLive m entry) m.store a h.live there in
    record { known = subst (λ b. b < m.fresh) same live.in_use; there = λ open_. there }

-- The manager and the call after a step of a call.
Fits : Manager → Manager × Call → Type 0
Fits m (m', call) = Keeps m m' × CallFits m' call

enter_at-Fits :
    (m : Manager) (now : ℤ) (name display : List ℕ)
    → IsConsistent m
    → (o : Option ℕ) → o ≡ find_key m.store name
    → Fits m (enter_at m now name display o)
unfolding Fits
enter_at-Fits m now name display h none e =
    (create-Keeps m now name display (sym e) h, create-Looked m now name display (sym e))
enter_at-Fits m now name display h (some a) e = (unchanged m h, in_map m name a h (sym e))

replace_at-Fits :
    (m : Manager) (now : ℤ) (name display : List ℕ)
    → IsConsistent m
    → (o : Option ℕ) → o ≡ find_key m.store name
    → Fits m (replace_at m now name display o)
unfolding Fits
replace_at-Fits m now name display h none e =
    (create-Keeps m now name display (sym e) h, create-Looked m now name display (sym e))
replace_at-Fits m now name display h (some a) e = (unchanged m h, tt)

enter-Fits :
    (m : Manager) (now : ℤ) (name display : List ℕ)
    → IsConsistent m
    → Fits m (enter m now name display)
unfolding enter Fits
enter-Fits m now name display h =
    enter_at-Fits m now name display h (find_rec m.heap m.store name) (find_rec-find_key m name h)

replace_session-Fits :
    (m : Manager) (now : ℤ) (name display : List ℕ)
    → IsConsistent m
    → Fits m (replace_session m now name display)
unfolding replace_session Fits
replace_session-Fits m now name display h =
    replace_at-Fits m now name display h (find_rec m.heap m.store name) (find_rec-find_key m name h)

move-IsSound :
    (w : World) (i : ℕ) (to : Manager × Call)
    → IsSound w
    → Fits w.manager to
    → IsSound (move w i to)
unfolding Fits
move-IsSound w i (m', call) h (k, fits) = record {
  consistent = k.consistent;
  fit = λ j.
      if_both {0, 0} (λ (c : Call). CallFits m' c) (j == i) (λ same. fits)
        (λ other. CallFits-Keeps w.manager m' (w.calls j) k (h.fit j));
}

manager-IsSound :
    (w : World) (m' : Manager)
    → IsSound w
    → Keeps w.manager m'
    → IsSound (record w { manager = m' })
manager-IsSound w m' h k = record {
  consistent = k.consistent;
  fit = λ j. CallFits-Keeps w.manager m' (w.calls j) k (h.fit j);
}

-- What a call at such a place has seen.
seen : (w : World) (i : ℕ) (call : Call) → w.calls i ≡ call → IsSound w → CallFits w.manager call
seen w i call e h = subst (λ c. CallFits w.manager c) e (h.fit i)

remove_session-removed :
    (m : Manager) (a : ℕ)
    → find_key m.store (m.heap a).ident_screen_name ≡ some a
    → (remove_session m a).removed a ≡ true
unfolding remove_session
remove_session-removed m a found = rw found (ground arith)

-- Every step keeps the map consistent and the calls where they can be.
Step-IsSound : {w w' : World} → Step w w' → IsSound w → IsSound w'
unfolding Fits
Step-IsSound {w} (entering i now name display e) h =
    move-IsSound w i _ h (enter-Fits w.manager now name display h.consistent)
Step-IsSound {w} (closing_active i name display a e) h =
    let k = close_active-Keeps w.manager a h.consistent in
    move-IsSound w i _ h (k, k.looked a (seen w i (closing name display a) e h))
Step-IsSound {w} (waking i name display a e open_) h =
    move-IsSound w i _ h (unchanged w.manager h.consistent, seen w i (waiting name display a) e h)
Step-IsSound {w} (cancelling i name display a e) h =
    move-IsSound w i _ h (unchanged w.manager h.consistent, tt)
Step-IsSound {w} (looking_again i now name display a e) h =
    move-IsSound w i _ h (replace_session-Fits w.manager now name display h.consistent)
Step-IsSound {w} (removing a) h =
    manager-IsSound w _ h (remove_session-Keeps w.manager a h.consistent)
Step-IsSound {w} (using_session a s e) h =
    manager-IsSound w _ h (heap-Keeps w.manager a s h.consistent e)

pub Reachable-IsSound : {heap : ℕ → Session} {w : World} → Reachable heap w → IsSound w
Reachable-IsSound here = record { consistent = record { live = tt; distinct = tt }; fit = λ i. tt }
Reachable-IsSound (after run step) = Step-IsSound step (Reachable-IsSound run)

-- In every reachable state the map has at most one session for each name, under the name that the
-- session itself gives, its address is in use and its slot's channel is open.
pub Reachable-map :
    (heap : ℕ → Session) (w : World)
    → Reachable heap w
    → DistinctKeys w.manager.store × All (λ entry. IsLive w.manager entry) w.manager.store
Reachable-map heap w run = let h = (Reachable-IsSound run).consistent in (h.distinct, h.live)

-- No wakeup is lost: in every reachable state a call of `AddSession` that waits for a session either
-- can go on at once, as the session's channel is closed, or the session is still in the map under its
-- name, and a call of `RemoveSession` for it closes the channel.
pub waiting_wakes :
    (heap : ℕ → Session) (w : World) (i a : ℕ) (name display : List ℕ)
    → Reachable heap w
    → w.calls i ≡ waiting name display a
    → (w.manager.removed a ≡ true)
      ⊎ ((find_key w.manager.store (w.manager.heap a).ident_screen_name ≡ some a)
          × ((remove_session w.manager a).removed a ≡ true))
waiting_wakes heap w i a name display run e =
    let h = Reachable-IsSound run in
    let l = seen w i (waiting name display a) e h in
    elim (Bool-cases (w.manager.removed a)) [
      | inl closed ↦ inl closed
      | inr open_ ↦
          let found =
            find_key-in_store w.manager w.manager.store a h.consistent.live h.consistent.distinct
              (l.there open_) in
          inr (found, remove_session-removed w.manager a found)
    ]
