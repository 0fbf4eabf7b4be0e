-- ===== src/State/Manager.antt =====
-- The sessions of the users that are signed on: `InMemorySessionManager` of state/session_manager.go.
-- The map is the list of its entries, in the order in which Go happens to visit them. A `*Session` is
-- an address; the channel `removed` of a slot stands with the address of the slot's session, which
-- has one slot only.
pub mod Store
pub mod Calls
pub mod Keeps
pub mod Invariant
pub mod Directory
pub mod Relays
pub mod Relayed
mod Tests
use go_icq.Prelude.{
  ℕ, suc, Bool, true, false, Option, none, some, List, [], ◌∷◌, ◌==◌, bytes_eq, if◌then◌else◌,
}
use go_icq.Prelude.Int.{ℤ}
use go_icq.State.Session.{Session, SnacMessage, new_session}
use go_icq.State.Session.Setters.{set_ident_screen_name, set_display_screen_name}

-- A map entry: the key and the slot's session.
pub record Entry : Type 0 where
  pub key : List ℕ
  pub sess : ℕ

-- The manager, with the heap of sessions below the first free address, and whether a slot's channel
-- is closed.
pub record Manager : Type 0 where
  pub store : List Entry
  pub heap : ℕ → Session
  pub fresh : ℕ
  pub removed : ℕ → Bool

-- `NewInMemorySessionManager`, on a heap.
abbrev pub new_manager : (ℕ → Session) → Manager
new_manager heap = record { store = []; heap = heap; fresh = 0; removed = λ a. false }

abbrev pub update {ℓ} : {A : Type ℓ} → (ℕ → A) → ℕ → A → ℕ → A
update f i a j = if j == i then a else f j

-- The index, the assignment and `delete` of the map.
unfoldable pub find_key : List Entry → List ℕ → Option ℕ
find_key [] name = none
find_key (entry ∷ store) name =
    if bytes_eq entry.key name then some entry.sess else find_key store name

unfoldable pub put : List Entry → List ℕ → ℕ → List Entry
put [] name a = record { key = name; sess = a } ∷ []
put (entry ∷ store) name a =
    if bytes_eq entry.key name
    then record { key = entry.key; sess = a } ∷ store
    else entry ∷ put store name a

unfoldable pub delete_key : List Entry → List ℕ → List Entry
delete_key [] name = []
delete_key (entry ∷ store) name =
    if bytes_eq entry.key name then store else entry ∷ delete_key store name

-- `findRec`: it asks the sessions for their names.
unfoldable pub find_rec : (ℕ → Session) → List Entry → List ℕ → Option ℕ
find_rec heap [] name = none
find_rec heap (entry ∷ store) name =
    if bytes_eq name (heap entry.sess).ident_screen_name
    then some entry.sess
    else find_rec heap store name

-- The end of `AddSession`: a new session of this name in the map.
unfoldable pub create : Manager → ℤ → List ℕ → List ℕ → Manager
create m now name display =
    let sess = set_display_screen_name (set_ident_screen_name (new_session now) name) display in
    record {
      store = put m.store name m.fresh;
      heap = update m.heap m.fresh sess;
      fresh = suc m.fresh;
      removed = update m.removed m.fresh false;
    }

-- A slot of the map that holds this very session is taken out, and its channel closed.
abbrev pub remove_slot : Manager → List ℕ → ℕ → Option ℕ → Manager
remove_slot m name a none = m
remove_slot m name a (some b) =
    if b == a
    then record m { store = delete_key m.store name; removed = update m.removed a true }
    else m

unfoldable pub remove_session : Manager → ℕ → Manager
remove_session m a =
    let name = (m.heap a).ident_screen_name in remove_slot m name a (find_key m.store name)

-- A session is shown once its sign-on is complete.
abbrev pub if_complete : (ℕ → Session) → Option ℕ → Option ℕ
if_complete heap none = none
if_complete heap (some a) = if (heap a).signon_complete then some a else none

unfoldable pub retrieve_session : Manager → List ℕ → Option ℕ
retrieve_session m name = if_complete m.heap (find_key m.store name)

-- The sessions in the map whose sign-on is complete.
unfoldable pub complete_sessions : (ℕ → Session) → List Entry → List ℕ
complete_sessions heap [] = []
complete_sessions heap (entry ∷ store) =
    if (heap entry.sess).signon_complete
    then entry.sess ∷ complete_sessions heap store
    else complete_sessions heap store

unfoldable pub all_sessions : Manager → List ℕ
all_sessions m = complete_sessions m.heap m.store

unfoldable pub empty : Manager → Bool
empty m = elim m.store [ [] ↦ true | entry ∷ store ↦ false ]
