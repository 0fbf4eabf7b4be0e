-- ===== src/State/Manager/Relayed.antt =====
-- What a relay to all does to the sessions (state/session_manager.go).
use go_icq.Prelude.{
  ℕ, ◌≡◌, ◌≢◌, refl, sym, ap, ◌∙◌, Bool, true, false, Bool-cases, inl, inr, List, [], ◌∷◌, ◌==◌,
  ==_iff, bytes_eq, bytes_eq_refl, if_both, if◌then◌else◌, All, arith,
}
use mathlib.Core.Path.{subst}
use go_icq.State.Session.{Session, SnacMessage}
use go_icq.State.Session.Relay.{relay_message}
use go_icq.State.Manager.{Entry, Manager, complete_sessions, all_sessions}
use go_icq.State.Manager.Relays.{after_relay, maybe_relay_message, relay_to_sessions, relay_to_all}
use go_icq.State.Manager.Store.{
  DistinctKeys, IsLive, IsConsistent, in_store, in_store-All, All-both,
}

-- Whether an address is in a list.
abbrev pub elem : ℕ → List ℕ → Bool
elem a [] = false
elem a (b ∷ bs) = if b == a then true else elem a bs

abbrev Once : List ℕ → Type 0
Once [] = Unit {0}
Once (a ∷ as') = (elem a as' ≡ false) × Once as'

-- A message that is relayed to some sessions, each of them once, reaches these and no others.
relay_to_sessions-Once :
    (as' : List ℕ) (heap : ℕ → Session) (msg : SnacMessage) (b : ℕ)
    → Once as'
    → relay_to_sessions heap msg as' b
      ≡ (if elem b as' then after_relay (relay_message (heap b) msg) else heap b)
unfolding relay_to_sessions maybe_relay_message
relay_to_sessions-Once [] heap msg b h = refl
relay_to_sessions-Once (a ∷ as') heap msg b (h, hs) =
    let heap' = maybe_relay_message heap msg a in
    let rest = relay_to_sessions-Once as' heap' msg b hs in
    elim (Bool-cases (a == b)) [
      | inl same ↦
          let alone = subst (λ c. elem c as' ≡ false) ((==_iff a b).0 same) h in
          ground (arith, rest)
      | inr other ↦ ground (arith, rest)
    ]

complete_sessions-elem :
    (heap : ℕ → Session) (store : List Entry) (a : ℕ)
    → elem a (complete_sessions heap store)
      ≡ (if (heap a).signon_complete then in_store store a else false)
unfolding complete_sessions in_store
complete_sessions-elem heap [] a = ground arith
complete_sessions-elem heap (entry ∷ store) a = ground (arith, complete_sessions-elem heap store a)

clash :
    (m : Manager) (entry other : Entry)
    → IsLive m entry
    → IsLive m other
    → other.sess ≡ entry.sess
    → bytes_eq entry.key other.key ≢ false
clash m entry other h k same apart =
    let keys = sym h.named ∙ ap (λ a. (m.heap a).ident_screen_name) (sym same) ∙ k.named in
    let equal = subst (λ key. bytes_eq entry.key key ≡ true) keys (bytes_eq_refl entry.key) in cc

in_store-other :
    (m : Manager) (entry : Entry) (store : List Entry)
    → IsLive m entry
    → All (λ entry. IsLive m entry) store
    → All (λ (other : Entry). bytes_eq entry.key other.key ≡ false) store
    → in_store store entry.sess ≡ false
in_store-other m entry store h hs d = elim (Bool-cases (in_store store entry.sess)) [
  | inl there ↦
      let (other, same, (apart, live)) =
        in_store-All _ store entry.sess (All-both _ _ store d hs) there in
      absurd (clash m entry other h live same apart)
  | inr absent ↦ absent
]

-- In a consistent map each session stands once.
complete_sessions-Once :
    (m : Manager) (store : List Entry)
    → All (λ entry. IsLive m entry) store
    → DistinctKeys store
    → Once (complete_sessions m.heap store)
unfolding complete_sessions
complete_sessions-Once m [] h d = tt
complete_sessions-Once m (entry ∷ store) (h, hs) (d, ds) =
    let rest = complete_sessions-Once m store hs ds in
    let absent = in_store-other m entry store h hs d in
    let alone = complete_sessions-elem m.heap store entry.sess in
    if_both {0, 0} Once (m.heap entry.sess).signon_complete
      (λ complete. (alone ∙ rw (complete, absent) refl, rest)) (λ hidden. rest)

reached :
    (m : Manager) (msg : SnacMessage) (a : ℕ)
    → (if elem a (complete_sessions m.heap m.store)
        then after_relay (relay_message (m.heap a) msg)
        else m.heap a)
      ≡ (if (m.heap a).signon_complete
          then if in_store m.store a then after_relay (relay_message (m.heap a) msg) else m.heap a
          else m.heap a)
reached m msg a =
    rw (complete_sessions-elem m.heap m.store a) (elim (Bool-cases (m.heap a).signon_complete) [
      | inl complete ↦ rw complete refl
      | inr hidden ↦ rw hidden refl
    ])

-- `RelayToAll` in a consistent map: a session that is in the map and has completed its sign-on gets
-- the message once, by `RelayMessage`, and is closed if its queue was full; every other session is
-- left as it was.
pub relay_to_all-reaches :
    (m : Manager) (msg : SnacMessage) (a : ℕ)
    → IsConsistent m
    → (relay_to_all m msg).heap a ≡ (
        if (m.heap a).signon_complete
        then if in_store m.store a then after_relay (relay_message (m.heap a) msg) else m.heap a
        else m.heap a)
unfolding relay_to_all all_sessions
relay_to_all-reaches m msg a h =
    relay_to_sessions-Once (complete_sessions m.heap m.store) m.heap msg a
      (complete_sessions-Once m m.store h.live h.distinct)
    ∙ reached m msg a
