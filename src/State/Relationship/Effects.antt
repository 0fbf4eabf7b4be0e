-- ===== src/State/Relationship/Effects.antt =====
-- What the methods of state/user_store.go on buddy lists do to relationships.
use go_icq.Prelude.{
  ℕ, ◌≡◌, refl, ◌∙◌, Bool, true, false, ◌&&◌, Option, none, some, List, [], ◌∷◌, bytes_eq,
  bytes_eq_refl, arith,
}
use go_icq.State.User.Name.{Unicode}
use go_icq.State.Store.{FeedbagRow, ModeRow, ClientRow, Tables, same_pair, same_user}
use go_icq.State.Sql.{upsert, update_where, delete_where, or_false}
use go_icq.State.Store.BuddyLists.{
  blank, is_pair, is_blank, deny_buddy, remove_deny_buddy, unregister_buddy_list, is_pd_mode_equal,
  set_client_side_pd_mode, clear_client_side_pd_flags, clear_blank_client_side_buddies, set_pd_mode,
  pd_deny_some,
}
use go_icq.State.Relationship.{Relationship, Flags, flag, uses_feedbag, unrelated, relationship}
use go_icq.State.Relationship.Pair.{client_on, entry_on, mode_of, relation_between, relationship_of}
use go_icq.State.Relationship.Pair.Refines.{relationship-relationship_of}

pub Mirrored : Relationship → Relationship → Type 0
Mirrored r r' =
    (r.you_block ≡ r'.blocks_you)
    × (r.blocks_you ≡ r'.you_block)
    × (r.is_on_your_list ≡ r'.is_on_their_list)
    × (r.is_on_their_list ≡ r'.is_on_your_list)

relation_between-Mirrored :
    (u : Unicode) (me them : List ℕ) (theirs yours : Option Flags) (m n : Option ℕ)
    → Mirrored (relation_between u them theirs yours m n) (relation_between u me yours theirs n m)
unfolding Mirrored
relation_between-Mirrored u me them none none m n = (refl, refl, refl, refl)
relation_between-Mirrored u me them none (some y) none none = (refl, refl, refl, refl)
relation_between-Mirrored u me them none (some y) none (some n) = (refl, refl, refl, refl)
relation_between-Mirrored u me them none (some y) (some m) none = (refl, refl, refl, refl)
relation_between-Mirrored u me them none (some y) (some m) (some n) = (refl, refl, refl, refl)
relation_between-Mirrored u me them (some t) none none none = (refl, refl, refl, refl)
relation_between-Mirrored u me them (some t) none none (some n) = (refl, refl, refl, refl)
relation_between-Mirrored u me them (some t) none (some m) none = (refl, refl, refl, refl)
relation_between-Mirrored u me them (some t) none (some m) (some n) = (refl, refl, refl, refl)
relation_between-Mirrored u me them (some t) (some y) none none = (refl, refl, refl, refl)
relation_between-Mirrored u me them (some t) (some y) none (some n) = (refl, refl, refl, refl)
relation_between-Mirrored u me them (some t) (some y) (some m) none = (refl, refl, refl, refl)
relation_between-Mirrored u me them (some t) (some y) (some m) (some n) = (refl, refl, refl, refl)

-- Two users agree on what there is between them: the one is told that he blocks the other just if
-- the other is told that he is blocked, and the same for the buddy lists.
pub relationship-Mirrored :
    (u : Unicode) (db : Tables) (me them : List ℕ)
    → Mirrored (relationship u db me them) (relationship u db them me)
unfolding relationship_of
relationship-Mirrored u db me them =
    rw (relationship-relationship_of u db me them, relationship-relationship_of u db them me)
      (relation_between-Mirrored u me them (entry_on db them me) (entry_on db me them)
        (mode_of db.feedbag db.modes them) (mode_of db.feedbag db.modes me))

mode_of-delete_where :
    (feedbag : List FeedbagRow) (modes : List ModeRow) (a : List ℕ)
    → mode_of feedbag (delete_where (λ (row : ModeRow). bytes_eq row.user a) modes) a ≡ none
unfolding mode_of delete_where
mode_of-delete_where feedbag [] a = refl
mode_of-delete_where feedbag (row ∷ modes) a = ground (arith, mode_of-delete_where feedbag modes a)

between_unregistered :
    (u : Unicode) (them : List ℕ) (theirs yours : Option Flags) (n : Option ℕ)
    → (relation_between u them theirs yours none n ≡ unrelated them)
      × (relation_between u them theirs yours n none ≡ unrelated them)
between_unregistered u them none none n = (refl, refl)
between_unregistered u them none (some y) none = (refl, refl)
between_unregistered u them none (some y) (some n) = (refl, refl)
between_unregistered u them (some t) y none = (refl, refl)
between_unregistered u them (some t) y (some n) = (refl, refl)

-- Once a user has unregistered his buddy list, as when he signs off, he has no relationship with
-- anyone, whatever lists name him, and no one has one with him.
pub unregister_buddy_list-unrelated :
    (u : Unicode) (db : Tables) (a b : List ℕ)
    → (relationship u (unregister_buddy_list db a) a b ≡ unrelated b)
      × (relationship u (unregister_buddy_list db a) b a ≡ unrelated a)
unfolding unregister_buddy_list relationship_of
unregister_buddy_list-unrelated u db a b = (
  rw
      (
        relationship-relationship_of u (unregister_buddy_list db a) a b,
        mode_of-delete_where db.feedbag db.modes a,
      )
      ((between_unregistered u b _ _ _).1),
  rw
      (
        relationship-relationship_of u (unregister_buddy_list db a) b a,
        mode_of-delete_where db.feedbag db.modes a,
      )
      ((between_unregistered u a _ _ _).0),
)

-- The flag of an entry that denies.
denies : Option Flags → Bool
denies entry = or_false (flag (λ f. f.deny) entry)

client_on-deny_buddy :
    (rows : List ClientRow) (me them : List ℕ)
    → denies (
        client_on
          (upsert same_pair
            (λ row. record row { is_deny = true })
            (record (blank me them) { is_deny = true })
            rows)
          me
          them)
      ≡ true
unfolding client_on upsert denies
client_on-deny_buddy [] me them = rw (bytes_eq_refl me, bytes_eq_refl them) refl
client_on-deny_buddy (row ∷ rows) me them = ground (arith, client_on-deny_buddy rows me them)

client_on-remove_deny_buddy :
    (rows : List ClientRow) (me them : List ℕ)
    → denies (
        client_on
          (update_where (is_pair me them) (λ row. record row { is_deny = false }) rows)
          me
          them)
      ≡ false
unfolding client_on update_where denies
client_on-remove_deny_buddy [] me them = refl
client_on-remove_deny_buddy (row ∷ rows) me them =
    ground (arith, client_on-remove_deny_buddy rows me them)

relation_between-denies :
    (u : Unicode) (them : List ℕ) (theirs yours : Option Flags) (m : ℕ)
    → denies yours ≡ true
    → (relation_between u them theirs yours (some m) (some pd_deny_some)).you_block ≡ true
unfolding denies
relation_between-denies u them none none m h = h
relation_between-denies u them none (some y) m h = h
relation_between-denies u them (some t) yours m h = h

between_allows :
    (u : Unicode) (them : List ℕ) (theirs yours : Option Flags) (m : Option ℕ)
    → denies yours ≡ false
    → (relation_between u them theirs yours m (some pd_deny_some)).you_block ≡ false
unfolding denies
between_allows u them none none m h = refl
between_allows u them none (some y) none h = refl
between_allows u them none (some y) (some m) h = h
between_allows u them (some t) yours none h = refl
between_allows u them (some t) yours (some m) h = h

-- What a user who denies some is told.
you_block_if_denied :
    (u : Unicode) (db : Tables) (me them : List ℕ) (m : ℕ)
    → mode_of db.feedbag db.modes me ≡ some pd_deny_some
    → mode_of db.feedbag db.modes them ≡ some m
    → denies (entry_on db me them) ≡ true
    → (relationship u db me them).you_block ≡ true
unfolding relationship_of
you_block_if_denied u db me them m h k d =
    rw (relationship-relationship_of u db me them, h, k)
      (relation_between-denies u them (entry_on db them me) (entry_on db me them) m d)

you_block_unless_denied :
    (u : Unicode) (db : Tables) (me them : List ℕ)
    → mode_of db.feedbag db.modes me ≡ some pd_deny_some
    → denies (entry_on db me them) ≡ false
    → (relationship u db me them).you_block ≡ false
unfolding relationship_of
you_block_unless_denied u db me them h d =
    rw (relationship-relationship_of u db me them, h)
      (between_allows u them (entry_on db them me) (entry_on db me them)
        (mode_of db.feedbag db.modes them) d)

-- The entry of a user who does not use the feedbag.
denies-entry_on :
    (db : Tables) (me them : List ℕ)
    → uses_feedbag db.modes me ≡ false
    → denies (entry_on db me them) ≡ denies (client_on db.client_lists me them)
unfolding entry_on
denies-entry_on db me them f = rw f refl

-- For a user whose list is his client's and whose mode is to deny some: once he has denied a
-- registered user he blocks him, whatever the two had on their lists, and once the denial is removed
-- he no longer does.
pub deny_buddy-you_block :
    (u : Unicode) (db : Tables) (me them : List ℕ) (m : ℕ)
    → mode_of db.feedbag db.modes me ≡ some pd_deny_some
    → mode_of db.feedbag db.modes them ≡ some m
    → uses_feedbag db.modes me ≡ false
    → ((relationship u (deny_buddy db me them) me them).you_block ≡ true)
      × ((relationship u (remove_deny_buddy (deny_buddy db me them) me them) me them).you_block
          ≡ false)
unfolding deny_buddy remove_deny_buddy
deny_buddy-you_block u db me them m h k f = (
  you_block_if_denied u (deny_buddy db me them) me them m h k (
      denies-entry_on (deny_buddy db me them) me them f
      ∙ client_on-deny_buddy db.client_lists me them),
  you_block_unless_denied u (remove_deny_buddy (deny_buddy db me them) me them) me them h (
      denies-entry_on (remove_deny_buddy (deny_buddy db me them) me them) me them f
      ∙ client_on-remove_deny_buddy (deny_buddy db me them).client_lists me them),
)

-- A change of mode.
uses_feedbag-set_mode :
    (modes : List ModeRow) (me : List ℕ) (mode : ℕ)
    → uses_feedbag modes me ≡ false
    → uses_feedbag
        (upsert same_user
          (λ row. record row { client_side_pd_mode = mode })
          (record { user = me; client_side_pd_mode = mode; use_feedbag = false })
          modes)
        me
      ≡ false
unfolding uses_feedbag upsert
uses_feedbag-set_mode [] me mode h = ground arith
uses_feedbag-set_mode (row ∷ modes) me mode h = ground (arith, uses_feedbag-set_mode modes me mode)

mode_of-set_mode :
    (feedbag : List FeedbagRow) (modes : List ModeRow) (me : List ℕ) (mode : ℕ)
    → uses_feedbag modes me ≡ false
    → mode_of feedbag
        (upsert same_user
          (λ row. record row { client_side_pd_mode = mode })
          (record { user = me; client_side_pd_mode = mode; use_feedbag = false })
          modes)
        me
      ≡ some mode
unfolding mode_of uses_feedbag upsert
mode_of-set_mode feedbag [] me mode h = rw (bytes_eq_refl me) refl
mode_of-set_mode feedbag (row ∷ modes) me mode h =
    ground (arith, mode_of-set_mode feedbag modes me mode)

client_on-cleared :
    (rows : List ClientRow) (me them : List ℕ)
    → denies (
        client_on
          (delete_where
            (λ (row : ClientRow). is_blank row && bytes_eq row.me me)
            (update_where
              (λ (row : ClientRow). bytes_eq row.me me)
              (λ row. record row { is_deny = false; is_permit = false })
              rows))
          me
          them)
      ≡ false
unfolding client_on delete_where update_where denies
client_on-cleared [] me them = refl
client_on-cleared (row ∷ rows) me them = ground (arith, client_on-cleared rows me them)

-- A user whose list is his client's and who comes to deny some from another mode has at first denied no one:
-- whom he denied before is forgotten.
pub set_pd_mode-you_block :
    (u : Unicode) (db : Tables) (me them : List ℕ)
    → uses_feedbag db.modes me ≡ false
    → is_pd_mode_equal db.modes me pd_deny_some ≡ false
    → (relationship u (set_pd_mode db me pd_deny_some) me them).you_block ≡ false
unfolding set_pd_mode set_client_side_pd_mode clear_client_side_pd_flags
    clear_blank_client_side_buddies
set_pd_mode-you_block u db me them f e = rw e (
    you_block_unless_denied u _ me them (mode_of-set_mode db.feedbag db.modes me pd_deny_some f) (
      denies-entry_on _ me them (uses_feedbag-set_mode db.modes me pd_deny_some f)
      ∙ client_on-cleared db.client_lists me them))
