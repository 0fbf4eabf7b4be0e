-- ===== src/State/Manager/Keeps.antt =====
-- What the operations of `InMemorySessionManager` (state/session_manager.go) keep: a consistent map, and
-- what the calls of `AddSession` that are under way have seen.
use go_icq.Prelude.{
  ℕ, ◌<◌, ◌≡◌, ◌≢◌, refl, sym, ap, ◌∙◌, true, false, Option, none, some, List, [], ◌∷◌, ◌++◌, ◌==◌,
  ==_iff, bytes_eq, bytes_eq_refl, if_both, All, All-map, All-append, arith,
}
use go_icq.Prelude.Int.{ℤ}
use mathlib.Core.Path.{subst}
use go_icq.State.Session.{Session, new_session}
use go_icq.State.Session.Setters.{set_ident_screen_name, set_display_screen_name}
use go_icq.State.Session.Relay.{close}
use go_icq.State.Manager.{
  Entry, Manager, update, find_key, delete_key, create, remove_slot, remove_session,
}
use go_icq.State.Manager.Store.{
  DistinctKeys, IsLive, IsConsistent, find_key-Avoids, put-Avoids, DistinctKeys-append, All-both,
  All-delete_key, delete_key-DistinctKeys, delete_key-Avoids, in_store, in_store-append,
  in_store-delete_key,
}
use go_icq.State.Manager.Calls.{
  Call, idle, closing, waiting, replacing, returned, conflict, cancelled, close_active,
}

-- A session that was in the map when a call looked: it is still there, or its channel is closed.
pub record Looked (m : Manager) (a : ℕ) : Type 0 where
  pub known : a < m.fresh
  pub there : m.removed a ≡ false → in_store m.store a ≡ true

abbrev pub CallFits : Manager → Call → Type 0
CallFits m idle = Unit {0}
CallFits m (closing name display a) = Looked m a
CallFits m (waiting name display a) = Looked m a
CallFits m (replacing name display a) = Looked m a
CallFits m (returned a) = Looked m a
CallFits m conflict = Unit {0}
CallFits m cancelled = Unit {0}

-- What an operation does to the manager for the calls that are under way.
pub record Keeps (m m' : Manager) : Type 0 where
  pub consistent : IsConsistent m'
  pub looked : (a : ℕ) → Looked m a → Looked m' a

pub CallFits-Keeps :
    (m m' : Manager) (call : Call) → Keeps m m' → CallFits m call → CallFits m' call
CallFits-Keeps m m' idle k h = h
CallFits-Keeps m m' (closing name display a) k h = k.looked a h
CallFits-Keeps m m' (waiting name display a) k h = k.looked a h
CallFits-Keeps m m' (replacing name display a) k h = k.looked a h
CallFits-Keeps m m' (returned a) k h = k.looked a h
CallFits-Keeps m m' conflict k h = h
CallFits-Keeps m m' cancelled k h = h

pub unchanged : (m : Manager) → IsConsistent m → Keeps m m
unchanged m h = record { consistent = h; looked = λ a l. l }

update-other {ℓ} : {A : Type ℓ} (f : ℕ → A) (i : ℕ) (a : A) (j : ℕ) → j ≢ i → update f i a j ≡ f j
update-other f i a j h = ground arith

update-same {ℓ} : {A : Type ℓ} (f : ℕ → A) (i : ℕ) (a : A) → update f i a i ≡ a
update-same f i a = ground arith

created : List ℕ → List ℕ → ℤ → Session
created name display now =
    set_display_screen_name (set_ident_screen_name (new_session now) name) display

name_at : (ℕ → Session) → ℕ → List ℕ
name_at heap a = (heap a).ident_screen_name

renamed :
    (m : Manager) (a : ℕ) (s : Session)
    → s.ident_screen_name ≡ (m.heap a).ident_screen_name
    → (entry : Entry) → IsLive m entry
    → IsLive (record m { heap = update m.heap a s }) entry
renamed m a s same entry h = record {
  named = ground (arith, same, h.named);
  in_use = h.in_use;
  open_channel = h.open_channel;
}

in_store_last :
    (store : List Entry) (name : List ℕ) (a : ℕ)
    → in_store (store ++ record { key = name; sess = a } ∷ []) a ≡ true
unfolding in_store
in_store_last [] name a = ground arith
in_store_last (entry ∷ store) name a = ground (arith, in_store_last store name a)

-- A new session under a name that is free.
module _ (m : Manager) (now : ℤ) (name display : List ℕ) where
  old-IsLive : (entry : Entry) → IsLive m entry → IsLive (create m now name display) entry
  unfolding create
  old-IsLive entry h =
      let apart : entry.sess ≢ m.fresh = λ e. absurd (omega (arith, e, h.in_use)) in
      record {
        named =
            ap (λ s. s.ident_screen_name) (update-other m.heap m.fresh _ entry.sess apart)
            ∙ h.named;
        in_use = omega (arith, h.in_use);
        open_channel = update-other m.removed m.fresh false entry.sess apart ∙ h.open_channel;
      }

  new-IsLive : IsLive (create m now name display) (record { key = name; sess = m.fresh })
  unfolding create new_session
  new-IsLive = record {
    named = ap (λ s. s.ident_screen_name) (update-same m.heap m.fresh _);
    in_use = omega arith;
    open_channel = update-same m.removed m.fresh false;
  }

  module _ (free : find_key m.store name ≡ none) where
    pub longer :
        (create m now name display).store ≡ m.store ++ record { key = name; sess = m.fresh } ∷ []
    unfolding create
    longer = put-Avoids m.store name m.fresh (find_key-Avoids m.store name free)

    create-IsConsistent : IsConsistent m → IsConsistent (create m now name display)
    create-IsConsistent h = record {
      live =
          subst (λ store. All (λ entry. IsLive (create m now name display) entry) store)
            (sym longer)
            (All-append _ m.store _ (All-map old-IsLive m.store h.live) (new-IsLive, tt));
      distinct =
          subst DistinctKeys (sym longer)
            (DistinctKeys-append m.store _ h.distinct (find_key-Avoids m.store name free));
    }

    create-Looked_old : (a : ℕ) → Looked m a → Looked (create m now name display) a
    unfolding create
    create-Looked_old a l =
        let apart : a ≢ m.fresh = λ e. absurd (omega (arith, e, l.known)) in
        record {
          known = omega (arith, l.known);
          there = λ open_.
              subst (λ store. in_store store a ≡ true) (sym longer)
                (in_store-append m.store _ a
                  (l.there (sym (update-other m.removed m.fresh false a apart) ∙ open_)));
        }

    pub create-Keeps : IsConsistent m → Keeps m (create m now name display)
    create-Keeps h = record { consistent = create-IsConsistent h; looked = create-Looked_old }

    pub create-Looked : Looked (create m now name display) m.fresh
    unfolding create
    create-Looked = record {
      known = omega arith;
      there = λ open_.
          subst (λ store. in_store store m.fresh ≡ true) (sym longer)
            (in_store_last m.store name m.fresh);
    }

-- A session is replaced by one of its own name.
pub heap-Keeps :
    (m : Manager) (a : ℕ) (s : Session)
    → IsConsistent m
    → s.ident_screen_name ≡ (m.heap a).ident_screen_name
    → Keeps m (record m { heap = update m.heap a s })
heap-Keeps m a s h same = record {
  consistent = record { live = All-map (renamed m a s same) m.store h.live; distinct = h.distinct };
  looked = λ b l. record { known = l.known; there = l.there };
}

not_same :
    (m : Manager) (a : ℕ) (entry : Entry)
    → bytes_eq entry.key (m.heap a).ident_screen_name ≡ false
    → IsLive m entry
    → entry.sess ≢ a
not_same m a entry avoids h e =
    let name = ap (λ b. (m.heap b).ident_screen_name) (sym e) ∙ h.named in
    let clash = subst (λ n. bytes_eq entry.key n ≡ false) name avoids in
    let same = bytes_eq_refl entry.key in cc

still_there :
    (m : Manager) (a b : ℕ)
    → find_key m.store (m.heap a).ident_screen_name ≡ some a
    → Looked m b
    → update m.removed a true b ≡ false
    → in_store (delete_key m.store (m.heap a).ident_screen_name) b ≡ true
still_there m a b found l open_ =
    let apart : b ≢ a = λ e. ground arith in
    let was_open = sym (update-other m.removed a true b apart) ∙ open_ in
    in_store-delete_key m.store (m.heap a).ident_screen_name a b found apart (l.there was_open)

unfoldable pub without : Manager → ℕ → Manager
without m a = record m {
  store = delete_key m.store (m.heap a).ident_screen_name;
  removed = update m.removed a true;
}

-- An entry that is left is another session's.
left-IsLive :
    (m : Manager) (a : ℕ) (entry : Entry)
    → (bytes_eq entry.key (m.heap a).ident_screen_name ≡ false) × IsLive m entry
    → IsLive (without m a) entry
unfolding without
left-IsLive m a entry (avoids, h) =
    let apart : entry.sess ≢ a = λ e. not_same m a entry avoids h e in
    record {
      named = h.named;
      in_use = h.in_use;
      open_channel = update-other m.removed a true entry.sess apart ∙ h.open_channel;
    }

removed-Keeps :
    (m : Manager) (a : ℕ)
    → IsConsistent m
    → find_key m.store (m.heap a).ident_screen_name ≡ some a
    → Keeps m (without m a)
unfolding without
removed-Keeps m a h found =
    let name = (m.heap a).ident_screen_name in
    let rest = delete_key m.store name in
    record {
      consistent = record {
        live = All-map (left-IsLive m a) rest (
            All-both _ _ rest (delete_key-Avoids m.store name h.distinct)
              (All-delete_key _ m.store name h.live));
        distinct = delete_key-DistinctKeys m.store name h.distinct;
      };
      looked = λ b l. record { known = l.known; there = λ open_. still_there m a b found l open_ };
    }

remove_slot-Keeps :
    (m : Manager) (a : ℕ) (o : Option ℕ)
    → IsConsistent m
    → find_key m.store (m.heap a).ident_screen_name ≡ o
    → Keeps m (remove_slot m (m.heap a).ident_screen_name a o)
unfolding without
remove_slot-Keeps m a none h e = unchanged m h
remove_slot-Keeps m a (some b) h e =
    if_both {0, 0} (λ (m' : Manager). Keeps m m') (b == a)
      (λ same. removed-Keeps m a h (
        subst (λ c. find_key m.store (m.heap a).ident_screen_name ≡ some c) ((==_iff b a).0 same)
          e))
      (λ other. unchanged m h)

pub remove_session-Keeps : (m : Manager) (a : ℕ) → IsConsistent m → Keeps m (remove_session m a)
unfolding remove_session
remove_session-Keeps m a h = remove_slot-Keeps m a _ h refl

close-name : (s : Session) → (close s).ident_screen_name ≡ s.ident_screen_name
unfolding close
close-name s =
    if_both (λ (t : Session). t.ident_screen_name ≡ s.ident_screen_name) s.closed (λ e. refl)
      (λ e. refl)

pub close_active-Keeps : (m : Manager) (a : ℕ) → IsConsistent m → Keeps m (close_active m a)
unfolding close_active
close_active-Keeps m a h = heap-Keeps m a (close (m.heap a)) h (close-name (m.heap a))
