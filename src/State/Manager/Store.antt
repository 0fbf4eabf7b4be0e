-- ===== src/State/Manager/Store.antt =====
-- The map of `InMemorySessionManager` (state/session_manager.go): consistent with the names of its
-- sessions, with one entry for each name.
use go_icq.Prelude.{
  ℕ, ◌<◌, ◌≡◌, ◌≢◌, refl, sym, ap, ◌∙◌, Bool, true, false, Bool-cases, inl, inr, none, some, List,
  [], ◌∷◌, ◌++◌, ◌==◌, bytes_eq, ==_iff, bytes_eq_refl, bytes_eq_sound, bytes_eq_comm, if_both,
  if◌then◌else◌, All, All-map, All-append, arith,
}
use mathlib.Core.Path.{subst}
use go_icq.State.Manager.{Entry, Manager, find_key, put, delete_key, find_rec}

abbrev pub DistinctKeys : List Entry → Type 0
DistinctKeys [] = Unit {0}
DistinctKeys (entry ∷ store) =
    All (λ (other : Entry). bytes_eq entry.key other.key ≡ false) store × DistinctKeys store

-- An entry whose key is its session's name, at an address in use, with an open channel.
pub record IsLive (m : Manager) (entry : Entry) : Type 0 where
  pub named : (m.heap entry.sess).ident_screen_name ≡ entry.key
  pub in_use : entry.sess < m.fresh
  pub open_channel : m.removed entry.sess ≡ false

pub record IsConsistent (m : Manager) : Type 0 where
  pub live : All (λ entry. IsLive m entry) m.store
  pub distinct : DistinctKeys m.store

find_rec_lem :
    (m : Manager) (store : List Entry) (name : List ℕ)
    → All (λ entry. IsLive m entry) store
    → find_rec m.heap store name ≡ find_key store name
unfolding find_rec find_key
find_rec_lem m [] name h = refl
find_rec_lem m (entry ∷ store) name (live, h) =
    rw (live.named, bytes_eq_comm name entry.key, find_rec_lem m store name h) refl

-- `findRec` finds what the map has under the name.
pub find_rec-find_key :
    (m : Manager) (name : List ℕ)
    → IsConsistent m
    → find_rec m.heap m.store name ≡ find_key m.store name
find_rec-find_key m name h = find_rec_lem m m.store name h.live

abbrev pub Avoids : List ℕ → List Entry → Type 0
Avoids name store = All (λ (entry : Entry). bytes_eq entry.key name ≡ false) store

pub find_key-Avoids :
    (store : List Entry) (name : List ℕ) → find_key store name ≡ none → Avoids name store
unfolding find_key
find_key-Avoids [] name h = tt
find_key-Avoids (entry ∷ store) name h = elim (Bool-cases (bytes_eq entry.key name)) [
  | inl same ↦ absurd (let found = rw same at h in cc)
  | inr other ↦ (other, find_key-Avoids store name (rw other at h))
]

pub put-Avoids :
    (store : List Entry) (name : List ℕ) (a : ℕ)
    → Avoids name store
    → put store name a ≡ store ++ record { key = name; sess = a } ∷ []
unfolding put
put-Avoids [] name a h = refl
put-Avoids (entry ∷ store) name a (other, h) =
    rw other (ap (λ s. entry ∷ s) (put-Avoids store name a h))

pub DistinctKeys-append :
    (store : List Entry) (entry : Entry)
    → DistinctKeys store
    → Avoids entry.key store
    → DistinctKeys (store ++ entry ∷ [])
DistinctKeys-append [] entry h avoids = (tt, tt)
DistinctKeys-append (first ∷ store) entry (h, hs) (avoid, avoids) =
    (All-append _ store (entry ∷ []) h (avoid, tt), DistinctKeys-append store entry hs avoids)

-- What is true of all entries is true of those that are left.
pub All-delete_key {κ} :
    (P : Entry → Type κ) (store : List Entry) (name : List ℕ)
    → All P store
    → All P (delete_key store name)
unfolding delete_key
All-delete_key P [] name h = tt
All-delete_key P (entry ∷ store) name (h, hs) =
    if_both (λ s. All P s) (bytes_eq entry.key name) (λ e. hs)
      (λ e. (h, All-delete_key P store name hs))

pub delete_key-DistinctKeys :
    (store : List Entry) (name : List ℕ) → DistinctKeys store → DistinctKeys (delete_key store name)
unfolding delete_key
delete_key-DistinctKeys [] name h = tt
delete_key-DistinctKeys (entry ∷ store) name (h, hs) =
    if_both (λ s. DistinctKeys s) (bytes_eq entry.key name) (λ e. hs)
      (λ e. (All-delete_key _ store name h, delete_key-DistinctKeys store name hs))

-- With one entry for each name nothing is left of the name.
pub delete_key-Avoids :
    (store : List Entry) (name : List ℕ) → DistinctKeys store → Avoids name (delete_key store name)
unfolding delete_key
delete_key-Avoids [] name h = tt
delete_key-Avoids (entry ∷ store) name (h, hs) =
    if_both (λ s. Avoids name s) (bytes_eq entry.key name)
      (λ same.
        All-map
          (λ (other : Entry) e.
            ground (arith, e, bytes_eq_sound entry.key name, bytes_eq_comm entry.key other.key))
          store h)
      (λ other. (other, delete_key-Avoids store name hs))

-- Whether a session is in the map.
unfoldable pub in_store : List Entry → ℕ → Bool
in_store [] a = false
in_store (entry ∷ store) a = if entry.sess == a then true else in_store store a

pub in_store-find_key :
    (store : List Entry) (name : List ℕ) (a : ℕ)
    → find_key store name ≡ some a
    → in_store store a ≡ true
unfolding in_store find_key
in_store-find_key [] name a h = absurd cc
in_store-find_key (entry ∷ store) name a h = ground (arith, in_store-find_key store name a)

pub in_store-append :
    (store : List Entry) (entry : Entry) (a : ℕ)
    → in_store store a ≡ true
    → in_store (store ++ entry ∷ []) a ≡ true
unfolding in_store
in_store-append [] entry a h = absurd cc
in_store-append (first ∷ store) entry a h = ground (arith, in_store-append store entry a)

pub in_store-delete_key :
    (store : List Entry) (name : List ℕ) (a b : ℕ)
    → find_key store name ≡ some a
    → b ≢ a
    → in_store store b ≡ true
    → in_store (delete_key store name) b ≡ true
unfolding in_store find_key delete_key
in_store-delete_key [] name a b e n h = absurd cc
in_store-delete_key (entry ∷ store) name a b e n h =
    ground (arith, in_store-delete_key store name a b)

-- A property of the entry of a session that is in the map.
pub in_store-All {κ} :
    (P : Entry → Type κ) (store : List Entry) (a : ℕ)
    → All P store
    → in_store store a ≡ true
    → (entry : Entry) × (entry.sess ≡ a) × P entry
unfolding in_store
in_store-All P [] a h e = absurd cc
in_store-All P (entry ∷ store) a (h, hs) e = elim (Bool-cases (entry.sess == a)) [
  | inl same ↦ (entry, (==_iff entry.sess a).0 same, h)
  | inr other ↦ in_store-All P store a hs (rw other at e)
]

found_first :
    (m : Manager) (entry : Entry) (store : List Entry) (a : ℕ)
    → IsLive m entry
    → entry.sess ≡ a
    → find_key (entry ∷ store) (m.heap a).ident_screen_name ≡ some a
unfolding find_key
found_first m entry store a h e =
    let name = h.named in rw (sym e, name, bytes_eq_refl entry.key) refl

pub All-both {ℓ κ} :
    {A : Type ℓ} (P Q : A → Type κ) (xs : List A) → All P xs → All Q xs → All (λ x. P x × Q x) xs
All-both P Q [] h k = tt
All-both P Q (x ∷ xs) (h, hs) (k, ks) = ((h, k), All-both P Q xs hs ks)

find_later :
    (m : Manager) (entry entry' : Entry) (store : List Entry) (a : ℕ)
    → entry'.sess ≡ a
    → bytes_eq entry.key entry'.key ≡ false
    → IsLive m entry'
    → find_key store (m.heap a).ident_screen_name ≡ some a
    → find_key (entry ∷ store) (m.heap a).ident_screen_name ≡ some a
unfolding find_key
find_later m entry entry' store a here apart live found =
    let name = ap (λ b. (m.heap b).ident_screen_name) (sym here) ∙ live.named in
    let other = subst (λ key. bytes_eq entry.key key ≡ false) (sym name) apart in rw other found

-- A live session in the map stands there under its name.
pub find_key-in_store :
    (m : Manager) (store : List Entry) (a : ℕ)
    → All (λ entry. IsLive m entry) store
    → DistinctKeys store
    → in_store store a ≡ true
    → find_key store (m.heap a).ident_screen_name ≡ some a
unfolding in_store find_key
find_key-in_store m [] a h d e = absurd cc
find_key-in_store m (entry ∷ store) a (h, hs) (d, ds) e = elim (Bool-cases (entry.sess == a)) [
  | inl same ↦ found_first m entry store a h ((==_iff entry.sess a).0 same)
  | inr other ↦
      let rest = rw other at e in
      let (entry', here, (apart, live)) = in_store-All _ store a (All-both _ _ store d hs) rest in
      find_later m entry entry' store a here apart live (find_key-in_store m store a hs ds rest)
]
