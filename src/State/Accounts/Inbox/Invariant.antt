-- ===== src/State/Accounts/Inbox/Invariant.antt =====
-- What holds of the tables `users` and `offlineMessage` of state/user_store.go after any calls.
use go_icq.Prelude.{
  ℕ, ◌+◌, ◌≤◌, ◌≡◌, refl, ◌∙◌, Bool, true, false, ◌&&◌, ◌||◌, not, Bool-cases, and_parts, leb, inl,
  inr, List, [], ◌∷◌, ◌++◌, bytes_eq, bytes_eq_sound, bytes_eq_comm, All, All-append, All-map,
  if◌then◌else◌, arith,
}
use go_icq.Wire.Result.{Result, ok, err, panic, stuck}
use go_icq.Wire.Encode.{marshal_be}
use go_icq.Wire.Snacs.Icbm.{icbm_channel_msg_to_host}
use go_icq.State.User.{User}
use go_icq.State.User.Name.{Unicode, is_uin}
use go_icq.State.Sql.{delete_where, update_where}
use go_icq.State.Accounts.{MessageRow, Database, empty_database, has_user, is_user, update_user}
use go_icq.State.Accounts.Users.{insert_user, delete_user, of_user}
use go_icq.State.Accounts.Inbox.{
  OfflineMessage, offline_inbox_limit, is_from_to, count_where, insert_message, with_bytes,
  save_message, delete_messages,
}

-- A call on the two tables: of `InsertUser`, `DeleteUser`, `SaveMessage`, `DeleteMessages`, or of a method that
-- changes columns of a user other than his name.
pub data Step (u : Unicode) (db : Database) : Database → Type 0 where
  inserting : (usr : User) → Step u db (insert_user u db usr).0
  deleting : (name : List ℕ) → Step u db (delete_user db name).0
  saving : (m : OfflineMessage) → Step u db (save_message db m).0
  emptying : (recipient : List ℕ) → Step u db (delete_messages db recipient)
  changing :
      (name : List ℕ) (change : User → User)
      → ((row : User) → (change row).ident_screen_name ≡ row.ident_screen_name)
      → Step u db (update_user db name change)

pub data Reachable (u : Unicode) : Database → Type 0 where
  start : Reachable u empty_database
  after : {db db' : Database} → Reachable u db → Step u db db' → Reachable u db'

abbrev pub IsKnown : List User → MessageRow → Type 0
IsKnown users row = (has_user users row.sender ≡ true) × (has_user users row.recipient ≡ true)

pub record IsConsistent (db : Database) : Type 0 where
  pub limited :
      (sender recipient : List ℕ)
      → count_where (is_from_to sender recipient) db.messages ≤ offline_inbox_limit
  pub known : All (IsKnown db.users) db.messages

or_parts : (a b : Bool) → (a || b) ≡ false → (a ≡ false) × (b ≡ false)
or_parts true b h = absurd (cc)
or_parts false b h = (refl, h)

has_user-append :
    (users : List User) (new : User) (name : List ℕ)
    → has_user users name ≡ true
    → has_user (users ++ new ∷ []) name ≡ true
unfolding has_user
has_user-append [] new name h = absurd (cc)
has_user-append (row ∷ users) new name h = ground (arith, has_user-append users new name)

has_user-update_where :
    (users : List User) (test : User → Bool) (change : User → User) (name : List ℕ)
    → ((row : User) → (change row).ident_screen_name ≡ row.ident_screen_name)
    → has_user (update_where test change users) name ≡ has_user users name
unfolding has_user update_where
has_user-update_where [] test change name h = refl
has_user-update_where (row ∷ users) test change name h = elim (Bool-cases (test row)) [
  | inl e ↦ rw (e, h row, has_user-update_where users test change name h) refl
  | inr e ↦ rw (e, has_user-update_where users test change name h) refl
]

has_user-delete_where :
    (users : List User) (gone name : List ℕ)
    → bytes_eq name gone ≡ false
    → has_user users name ≡ true
    → has_user (delete_where (is_user gone) users) name ≡ true
unfolding has_user delete_where
has_user-delete_where [] gone name e h = absurd (cc)
has_user-delete_where (row ∷ users) gone name e h = ground (
  arith,
  has_user-delete_where users gone name e,
  bytes_eq_sound row.ident_screen_name gone,
  bytes_eq_comm name gone,
)

count_where-append {ℓ} :
    {A : Type ℓ} (test : A → Bool) (rows : List A) (new : A)
    → count_where test (rows ++ new ∷ []) ≡ count_where test rows + (if test new then 1 else 0)
unfolding count_where
count_where-append test [] new = ground arith
count_where-append test (row ∷ rows) new = ground (arith, count_where-append test rows new)

count_where-delete_where {ℓ} :
    {A : Type ℓ} (test gone : A → Bool) (rows : List A)
    → count_where test (delete_where gone rows) ≤ count_where test rows
unfolding count_where delete_where
count_where-delete_where test gone [] = omega arith
count_where-delete_where test gone (row ∷ rows) =
    ground (arith, count_where-delete_where test gone rows)

All-delete_where {ℓ κ} :
    {A : Type ℓ} (P : A → Type κ) (gone : A → Bool) (rows : List A)
    → All P rows
    → All (λ row. (gone row ≡ false) × P row) (delete_where gone rows)
unfolding delete_where
All-delete_where P gone [] h = tt
All-delete_where P gone (row ∷ rows) (h, hs) = elim (Bool-cases (gone row)) [
  | inl e ↦ rw e (All-delete_where P gone rows hs)
  | inr e ↦ rw e ((e, h), All-delete_where P gone rows hs)
]

still-IsKnown :
    (users : List User) (name : List ℕ) (row : MessageRow)
    → (of_user name row ≡ false) × IsKnown users row
    → IsKnown (delete_where (is_user name) users) row
still-IsKnown users name row (other, (s, r)) =
    let (not_sender, not_recipient) = or_parts (bytes_eq row.sender name) _ other in
    (
      has_user-delete_where users name row.sender not_sender s,
      has_user-delete_where users name row.recipient not_recipient r,
    )

-- Each call.
delete_user-IsConsistent :
    (db : Database) (name : List ℕ) → IsConsistent db → IsConsistent (delete_user db name).0
unfolding delete_user
delete_user-IsConsistent db name c = elim (Bool-cases (has_user db.users name)) [
  | inl e ↦ rw e (record {
    limited = λ sender recipient. omega (
      arith,
      count_where-delete_where (is_from_to sender recipient) (of_user name) db.messages,
      c.limited sender recipient,
    );
    known =
        All-map (still-IsKnown db.users name) _
          (All-delete_where (IsKnown db.users) (of_user name) db.messages c.known);
  })
  | inr e ↦ rw e c
]

one_more :
    (rows : List MessageRow) (m : OfflineMessage) (bs : List ℕ) (sender recipient : List ℕ)
    → leb offline_inbox_limit (count_where (is_from_to m.sender m.recipient) rows) ≡ false
    → count_where (is_from_to sender recipient) rows ≤ offline_inbox_limit
    → count_where (is_from_to sender recipient) (
        rows
        ++ record { sender = m.sender; recipient = m.recipient; message = bs; sent = m.sent } ∷ [])
      ≤ offline_inbox_limit
one_more rows m bs sender recipient e h =
    rw (count_where-append (is_from_to sender recipient) rows)
      (ground (arith, bytes_eq_sound m.sender sender, bytes_eq_sound m.recipient recipient))

insert_message-IsConsistent :
    (db : Database) (m : OfflineMessage) (bs : List ℕ)
    → IsConsistent db
    → IsConsistent (insert_message db m bs).0
unfolding insert_message
insert_message-IsConsistent db m bs c =
    elim (Bool-cases
      (leb offline_inbox_limit (count_where (is_from_to m.sender m.recipient) db.messages))) [
        | inl e ↦ rw e c
        | inr e ↦
            rw e (elim (Bool-cases (has_user db.users m.sender && has_user db.users m.recipient)) [
              | inl k ↦ rw k (record {
                limited = λ sender recipient.
                    one_more db.messages m bs sender recipient e (c.limited sender recipient);
                known =
                    All-append _ db.messages _
                      (All-map
                        (λ row r. (
                          has_user-update_where db.users _ _ row.sender (λ _. refl) ∙ r.0,
                          has_user-update_where db.users _ _ row.recipient (λ _. refl) ∙ r.1,
                        ))
                        db.messages c.known)
                      (
                        (
                          has_user-update_where db.users _ _ m.sender (λ _. refl)
                              ∙ (and_parts _ _ k).0,
                          has_user-update_where db.users _ _ m.recipient (λ _. refl)
                              ∙ (and_parts _ _ k).1,
                        ),
                        tt,
                      );
              })
              | inr k ↦ rw k c
            ])
      ]

save_message-IsConsistent :
    (db : Database) (m : OfflineMessage) (r : Result (List ℕ))
    → IsConsistent db
    → IsConsistent (with_bytes db m r).0
save_message-IsConsistent db m (ok bs) c = insert_message-IsConsistent db m bs c
save_message-IsConsistent db m (err e) c = c
save_message-IsConsistent db m panic c = c
save_message-IsConsistent db m stuck c = c

insert_user-IsConsistent :
    (u : Unicode) (db : Database) (usr : User)
    → IsConsistent db
    → IsConsistent (insert_user u db usr).0
unfolding insert_user
insert_user-IsConsistent u db usr c =
    elim (Bool-cases (is_uin u usr.display_screen_name && not usr.is_icq)) [
      | inl e ↦ rw e c
      | inr e ↦ rw e (elim (Bool-cases (has_user db.users usr.ident_screen_name)) [
        | inl k ↦ rw k c
        | inr k ↦ rw k (record {
          limited = c.limited;
          known =
              All-map
                (λ row r. (
                  has_user-append db.users _ row.sender r.0,
                  has_user-append db.users _ row.recipient r.1,
                ))
                db.messages c.known;
        })
      ])
    ]

Step-IsConsistent :
    (u : Unicode) (db db' : Database) → Step u db db' → IsConsistent db → IsConsistent db'
unfolding save_message delete_messages
Step-IsConsistent u db _ (inserting usr) c = insert_user-IsConsistent u db usr c
Step-IsConsistent u db _ (deleting name) c = delete_user-IsConsistent db name c
Step-IsConsistent u db _ (saving m) c =
    save_message-IsConsistent db m (marshal_be icbm_channel_msg_to_host m.message) c
Step-IsConsistent u db _ (emptying recipient) c = record {
  limited = λ s r. omega (
    arith,
    count_where-delete_where (is_from_to s r)
        (λ (row : MessageRow). bytes_eq row.recipient recipient) db.messages,
    c.limited s r,
  );
  known = All-map (λ row h. h.1) _ (All-delete_where (IsKnown db.users) _ db.messages c.known);
}
Step-IsConsistent u db _ (changing name change keeps) c = record {
  limited = c.limited;
  known =
      All-map
        (λ row r. (
          has_user-update_where db.users (is_user name) change row.sender keeps ∙ r.0,
          has_user-update_where db.users (is_user name) change row.recipient keeps ∙ r.1,
        ))
        db.messages c.known;
}

-- Whatever calls are made, in any order, from the empty tables on: no sender has more than ten messages waiting
-- for one recipient, and every message waiting is from a user and to a user who both exist.
pub Reachable-IsConsistent : (u : Unicode) (db : Database) → Reachable u db → IsConsistent db
unfolding count_where
Reachable-IsConsistent u _ start = record { limited = λ s r. omega arith; known = tt }
Reachable-IsConsistent u _ (after h step) =
    Step-IsConsistent u _ _ step (Reachable-IsConsistent u _ h)
