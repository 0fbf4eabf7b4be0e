-- ===== src/State/Manager/Directory.antt =====
-- The session manager (state/session_manager.go) as others see it: a directory that gives a name its
-- session, and that changes in two ways only.
use go_icq.Prelude.{
  ℕ, ◌≡◌, refl, sym, ◌∙◌, Option, none, some, List, [], ◌∷◌, ◌++◌, ◌==◌, bytes_eq, bytes_eq_refl,
  bytes_eq_comm, bytes_eq_sound, if_both, if◌then◌else◌, All-map, arith,
}
use go_icq.Prelude.Int.{ℤ}
use mathlib.Core.Path.{subst}
use go_icq.State.Session.{Session}
use go_icq.State.Manager.{Entry, Manager, find_key, delete_key, create, remove_slot, remove_session}
use go_icq.State.Manager.Store.{DistinctKeys, find_rec-find_key, Avoids}
use go_icq.State.Manager.Calls.{
  World, enter, enter_at, close_active, replace_session, replace_at, Step, entering, closing_active,
  waking, cancelling, looking_again, removing, using_session, Reachable,
}
use go_icq.State.Manager.Keeps.{longer}
use go_icq.State.Manager.Invariant.{IsSound, Reachable-IsSound}

pub Directory : Type 0
Directory = List ℕ → Option ℕ

-- Nothing changes, or a free name gets a session, or a session gives its name up. The session of a
-- name is never replaced in one step.
pub data Change (d d' : List ℕ → Option ℕ) : Type 0 where
  stays : ((name : List ℕ) → d' name ≡ d name) → Change d d'
  signs_on :
      (name : List ℕ) (a : ℕ)
      → d name ≡ none
      → ((other : List ℕ) → d' other ≡ (if bytes_eq name other then some a else d other))
      → Change d d'
  signs_off :
      (name : List ℕ) (a : ℕ)
      → d name ≡ some a
      → ((other : List ℕ) → d' other ≡ (if bytes_eq name other then none else d other))
      → Change d d'

abbrev pub directory : Manager → List ℕ → Option ℕ
directory m name = find_key m.store name

find_key-append :
    (store : List Entry) (name : List ℕ) (a : ℕ) (other : List ℕ)
    → find_key store name ≡ none
    → find_key (store ++ record { key = name; sess = a } ∷ []) other
      ≡ (if bytes_eq name other then some a else find_key store other)
unfolding find_key
find_key-append [] name a other h = refl
find_key-append (entry ∷ store) name a other h = ground (
  arith,
  find_key-append store name a other,
  bytes_eq_sound name other,
  bytes_eq_sound entry.key other,
  bytes_eq_refl other,
)

find_key-Avoids-none :
    (store : List Entry) (name : List ℕ) → Avoids name store → find_key store name ≡ none
unfolding find_key
find_key-Avoids-none [] name h = refl
find_key-Avoids-none (entry ∷ store) name (h, hs) = rw h (find_key-Avoids-none store name hs)

find_key-delete_key :
    (store : List Entry) (name other : List ℕ)
    → DistinctKeys store
    → find_key (delete_key store name) other
      ≡ (if bytes_eq name other then none else find_key store other)
unfolding find_key delete_key
find_key-delete_key [] name other h = ground arith
find_key-delete_key (entry ∷ store) name other (h, hs) =
    let avoids = All-map (λ (e : Entry) p. bytes_eq_comm e.key entry.key ∙ p) store h in
    let none_left = find_key-Avoids-none store entry.key avoids in
    let rest = find_key-delete_key store name other hs in
    ground (
      arith,
      none_left,
      rest,
      bytes_eq_sound entry.key name,
      bytes_eq_sound name other,
      bytes_eq_refl other,
      bytes_eq_sound entry.key other,
    )

create-Change :
    (m : Manager) (now : ℤ) (name display : List ℕ)
    → find_key m.store name ≡ none
    → Change (directory m) (directory (create m now name display))
create-Change m now name display free = signs_on name m.fresh free (λ other.
    subst
      (λ store.
        find_key store other
        ≡ (if bytes_eq name other then some m.fresh else find_key m.store other))
      (sym (longer m now name display free)) (find_key-append m.store name m.fresh other free))

remove_slot-Change :
    (m : Manager) (name : List ℕ) (a : ℕ) (o : Option ℕ)
    → DistinctKeys m.store
    → find_key m.store name ≡ o
    → Change (directory m) (directory (remove_slot m name a o))
remove_slot-Change m name a none h e = stays (λ other. refl)
remove_slot-Change m name a (some b) h e =
    if_both {0, 0} (λ (m' : Manager). Change (directory m) (directory m')) (b == a)
      (λ same. signs_off name b e (λ other. find_key-delete_key m.store name other h))
      (λ different. stays (λ other. refl))

enter_at-Change :
    (m : Manager) (now : ℤ) (name display : List ℕ) (o : Option ℕ)
    → o ≡ find_key m.store name
    → Change (directory m) (directory (enter_at m now name display o).0)
enter_at-Change m now name display none e = create-Change m now name display (sym e)
enter_at-Change m now name display (some a) e = stays (λ other. refl)

replace_at-Change :
    (m : Manager) (now : ℤ) (name display : List ℕ) (o : Option ℕ)
    → o ≡ find_key m.store name
    → Change (directory m) (directory (replace_at m now name display o).0)
replace_at-Change m now name display none e = create-Change m now name display (sym e)
replace_at-Change m now name display (some a) e = stays (λ other. refl)

sound-Step-Change :
    {w w' : World} → Step w w' → IsSound w → Change (directory w.manager) (directory w'.manager)
unfolding enter replace_session remove_session close_active
sound-Step-Change {w} (entering i now name display e) h =
    enter_at-Change w.manager now name display _ (find_rec-find_key w.manager name h.consistent)
sound-Step-Change {w} (closing_active i name display a e) h = stays (λ other. refl)
sound-Step-Change {w} (waking i name display a e o) h = stays (λ other. refl)
sound-Step-Change {w} (cancelling i name display a e) h = stays (λ other. refl)
sound-Step-Change {w} (looking_again i now name display a e) h =
    replace_at-Change w.manager now name display _ (find_rec-find_key w.manager name h.consistent)
sound-Step-Change {w} (removing a) h =
    remove_slot-Change w.manager (w.manager.heap a).ident_screen_name a _ h.consistent.distinct refl
sound-Step-Change {w} (using_session a s e) h = stays (λ other. refl)

-- Every step of a reachable state is one of the directory: a name is given a session only while it
-- is free, loses the session that it has, or nothing changes.
pub Step-Change :
    (heap : ℕ → Session) (w w' : World)
    → Reachable heap w
    → Step w w'
    → Change (directory w.manager) (directory w'.manager)
Step-Change heap w w' run step = sound-Step-Change step (Reachable-IsSound run)
