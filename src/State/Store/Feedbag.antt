-- ===== src/State/Store/Feedbag.antt =====
-- The items of a user (`Feedbag`, `FeedbagUpsert` and `FeedbagDelete` of state/user_store.go).
use go_icq.Prelude.{
  ℕ, ◌≡◌, refl, sym, ap, ◌∙◌, Bool, true, false, ◌&&◌, ◌||◌, ◌==◌, Bool-cases, and_parts, some, inl,
  inr, List, [], ◌∷◌, map, bytes_eq, bytes_eq_sound, bytes_eq_refl, bytes_eq_comm, if◌then◌else◌,
  All, arith,
}
use go_icq.Wire.Bytes.{big_endian}
use go_icq.Wire.Tag.{no_tag, parse_oscar_tag}
use go_icq.Wire.Result.{bind_ok, Result, ok}
use go_icq.Wire.GoType.{Value}
use go_icq.Wire.Messages.{tlv_l_block, of_tlv_value}
use go_icq.Wire.Encode.{marshal_be}
use go_icq.Wire.Decode.{unmarshal_be}
use go_icq.Wire.Snacs.Codable.{InRange, codable}
use go_icq.Wire.Snacs.Carried.{codable-round_trip}
use go_icq.State.User.Name.{Unicode, new_ident_screen_name}
use go_icq.State.Sql.{upsert_ordered, delete_where}
use go_icq.State.Store.{FeedbagRow, Tables, same_item, item_before, numbers_before}
use go_icq.State.Store.Items.{
  item_id_of, same_ids, ids_before, InOrder, is_one_of, kept, put_item, put_items, item_at,
  last_saved, put_items-item_at, upsert_ordered-InOrder,
}
use go_icq.State.Store.BuddyLists.{
  FeedbagItem, names_user, item_pd_mode, feedbag_row, put_row, feedbag_upsert, feedbag_delete,
  feedbag_of,
}

-- An item of numbers and lengths that the wire has room for, and with the byte of its mode where it has one.
abbrev pub IsSavable : FeedbagItem → Type 0
IsSavable item =
    InRange tlv_l_block no_tag big_endian item.0
    × (pd : ℕ) × (item_pd_mode item.1.1.1.0 (map of_tlv_value item.0.0) ≡ ok pd)

abbrev item_of : FeedbagRow → Value tlv_l_block → FeedbagItem
item_of row block = (block, (row.group_id, (row.item_id, (row.class_id, (row.name, tt)))))

-- A row of the user's is read.
feedbag_of-cons :
    (row : FeedbagRow) (rows : List FeedbagRow) (user : List ℕ) (block : Value tlv_l_block)
    (items : List FeedbagItem)
    → bytes_eq row.owner user ≡ true
    → (unmarshal_be tlv_l_block row.attributes).0 ≡ ok block
    → feedbag_of rows user ≡ ok items
    → feedbag_of (row ∷ rows) user ≡ ok (item_of row block ∷ items)
unfolding feedbag_of
feedbag_of-cons row rows user block items e h k = rw (e, h, k) refl

feedbag_of-parts :
    (row : FeedbagRow) (rows : List FeedbagRow) (user : List ℕ) (old : List FeedbagItem)
    → bytes_eq row.owner user ≡ true
    → feedbag_of (row ∷ rows) user ≡ ok old
    → (block : Value tlv_l_block) × (items : List FeedbagItem) × ((unmarshal_be tlv_l_block
          row.attributes).0
        ≡ ok block)
      × (feedbag_of rows user ≡ ok items)
      × (item_of row block ∷ items ≡ old)
unfolding feedbag_of
feedbag_of-parts row rows user old e h =
    let (block, p, q) = bind_ok (unmarshal_be tlv_l_block row.attributes).0 _ old (rw e at h) in
    let (items, r, s) = bind_ok (feedbag_of rows user) _ old q in (block, items, p, r, cc)

feedbag_of-nil : (user : List ℕ) (old : List FeedbagItem) → feedbag_of [] user ≡ ok old → [] ≡ old
unfolding feedbag_of
feedbag_of-nil user old h = cc

no_items : (user : List ℕ) → feedbag_of [] user ≡ ok []
unfolding feedbag_of
no_items user = refl

feedbag_of-skips :
    (row : FeedbagRow) (rows : List FeedbagRow) (user : List ℕ)
    → bytes_eq row.owner user ≡ false
    → feedbag_of (row ∷ rows) user ≡ feedbag_of rows user
unfolding feedbag_of
feedbag_of-skips row rows user e = rw e refl

-- One row is put.
feedbag_of-upsert :
    (new : FeedbagRow) (block : Value tlv_l_block) (rows : List FeedbagRow) (old : List FeedbagItem)
    → (unmarshal_be tlv_l_block new.attributes).0 ≡ ok block
    → feedbag_of rows new.owner ≡ ok old
    → feedbag_of (upsert_ordered same_item item_before new rows) new.owner
      ≡ ok (upsert_ordered same_ids ids_before (item_of new block) old)
unfolding upsert_ordered
feedbag_of-upsert new block [] old h k =
    let empty = feedbag_of-nil new.owner old k in
    rw (← empty)
      (feedbag_of-cons new [] new.owner block [] (bytes_eq_refl new.owner) h (no_items new.owner))
feedbag_of-upsert new block (row ∷ rows) old h k =
    elim (Bool-cases (bytes_eq row.owner new.owner)) [
      | inl e ↦
          let (b, items, p, q, s) = feedbag_of-parts row rows new.owner old e k in
          rw (← s, e)
            (elim (Bool-cases (row.group_id == new.group_id && row.item_id == new.item_id)) [
              | inl t ↦
                  rw t
                    (feedbag_of-cons new rows new.owner block items (bytes_eq_refl new.owner) h q)
              | inr t ↦
                  rw (t, bytes_eq_comm new.owner row.owner, e)
                    (elim (Bool-cases
                      (numbers_before new.group_id new.item_id row.group_id row.item_id)) [
                        | inl n ↦ rw n (
                            feedbag_of-cons new _ new.owner block _ (bytes_eq_refl new.owner) h
                              (feedbag_of-cons row rows new.owner b items e p q))
                        | inr n ↦ rw n (
                            feedbag_of-cons row _ new.owner b _ e p
                              (feedbag_of-upsert new block rows items h q))
                      ])
            ])
      | inr e ↦
          rw (e, bytes_eq_comm new.owner row.owner, e)
            (feedbag_of-skips row _ new.owner e
              ∙ feedbag_of-upsert new block rows old h
                  (sym (feedbag_of-skips row rows new.owner e) ∙ k))
    ]

feedbag_of-tail :
    (row : FeedbagRow) (rows rows' : List FeedbagRow) (user : List ℕ)
    → feedbag_of rows user ≡ feedbag_of rows' user
    → feedbag_of (row ∷ rows) user ≡ feedbag_of (row ∷ rows') user
unfolding feedbag_of
feedbag_of-tail row rows rows' user h = rw h refl

-- Of another user's items nothing changes.
feedbag_of-upsert_other :
    (new : FeedbagRow) (rows : List FeedbagRow) (other : List ℕ)
    → bytes_eq new.owner other ≡ false
    → feedbag_of (upsert_ordered same_item item_before new rows) other ≡ feedbag_of rows other
unfolding upsert_ordered
feedbag_of-upsert_other new [] other h = feedbag_of-skips new [] other h
feedbag_of-upsert_other new (row ∷ rows) other h = elim (Bool-cases (same_item row new)) [
  | inl e ↦
      let (owners, ids) = and_parts (bytes_eq row.owner new.owner) _ e in
      rw e (
        feedbag_of-skips new rows other h
        ∙ sym (feedbag_of-skips row rows other (rw (bytes_eq_sound row.owner new.owner owners) h)))
  | inr e ↦ rw e (elim (Bool-cases (item_before new row)) [
    | inl t ↦ rw t (feedbag_of-skips new (row ∷ rows) other h)
    | inr t ↦ rw t (feedbag_of-tail row _ rows other (feedbag_of-upsert_other new rows other h))
  ])
]

-- The row of an item that can be saved.
feedbag_row-kept :
    (u : Unicode) (user : List ℕ) (item : FeedbagItem)
    → IsSavable item
    → (row : FeedbagRow) × (feedbag_row u user item ≡ ok row)
      × (row.owner ≡ user)
      × ((unmarshal_be tlv_l_block row.attributes).0 ≡ ok item.0)
      × (item_of row item.0 ≡ kept u item)
unfolding feedbag_row marshal_be unmarshal_be codable parse_oscar_tag
feedbag_row-kept u user (block, (g, (i, (c, (name, end_))))) (r, pd, k) =
    let (bs, p, q, s) = codable-round_trip tlv_l_block big_endian block refl r in
    let row : FeedbagRow = record {
      owner = user;
      group_id = g;
      item_id = i;
      class_id = c;
      name = if names_user c then new_ident_screen_name u name else name;
      attributes = bs;
      pd_mode = some pd;
    } in
    (row, rw (p, k) refl, refl, ap (λ (r : Result (Value tlv_l_block) × List ℕ). r.0) s, refl)

-- Let the items that a user saves have TLVs that fit the wire, and those with a mode its byte, and let what he
-- reads before be in the order of groups and items, without two of the same numbers. Saving has no error. What
-- he reads afterwards is in that order again, and has for each group and item number the last that was saved,
-- with its name in the form of a screen name where it names a user, or else the item that was there before.
-- Another user reads what he read before.
pub feedbag_upsert-feedbag_of :
    (u : Unicode) (db : Tables) (user : List ℕ) (items old : List FeedbagItem)
    → All IsSavable items
    → feedbag_of db.feedbag user ≡ ok old
    → InOrder old
    → ((feedbag_upsert u db user items).1 ≡ ok tt)
      × (feedbag_of (feedbag_upsert u db user items).0.feedbag user ≡ ok (put_items u items old))
      × InOrder (put_items u items old)
      × ((g i : ℕ) → item_at (put_items u items old) g i ≡ last_saved u items g i (item_at old g i))
      × ((other : List ℕ)
          → bytes_eq user other ≡ false
          → feedbag_of (feedbag_upsert u db user items).0.feedbag other
            ≡ feedbag_of db.feedbag other)
unfolding feedbag_upsert put_items put_row
feedbag_upsert-feedbag_of u db user [] old h k n =
    (refl, k, n, put_items-item_at u [] old, λ other e. refl)
feedbag_upsert-feedbag_of u db user (item ∷ items) old (h, hs) k n =
    let (row, p, o, d, i) = feedbag_row-kept u user item h in
    let now : feedbag_of (put_row db row).feedbag user ≡ ok (put_item u item old) =
      rw (o, i) at (feedbag_of-upsert row item.0 db.feedbag old d (rw o k)) in
    let (done, read, order, kept_at, others) =
      feedbag_upsert-feedbag_of u (put_row db row) user items (put_item u item old) hs now
        (upsert_ordered-InOrder (kept u item) old n) in
    rw p (
      done,
      read,
      order,
      put_items-item_at u (item ∷ items) old,
      λ other e. others other e ∙ feedbag_of-upsert_other row db.feedbag other (rw o e),
    )

feedbag_of-delete_where :
    (rows : List FeedbagRow) (user : List ℕ) (n : ℕ) (old : List FeedbagItem)
    → feedbag_of rows user ≡ ok old
    → feedbag_of
        (delete_where (λ (row : FeedbagRow). bytes_eq row.owner user && row.item_id == n) rows)
        user
      ≡ ok (delete_where (λ item. item_id_of item == n) old)
unfolding delete_where
feedbag_of-delete_where [] user n old h = rw (← feedbag_of-nil user old h) (no_items user)
feedbag_of-delete_where (row ∷ rows) user n old h = elim (Bool-cases (bytes_eq row.owner user)) [
  | inl e ↦
      let (b, items, p, q, s) = feedbag_of-parts row rows user old e h in
      let rest = feedbag_of-delete_where rows user n items q in
      rw (← s, e)
        (elim (Bool-cases (row.item_id == n)) [
          | inl t ↦ rw t rest
          | inr t ↦ rw t (feedbag_of-cons row _ user b _ e p rest)
        ])
  | inr e ↦ rw e (
      feedbag_of-skips row _ user e
      ∙ feedbag_of-delete_where rows user n old (sym (feedbag_of-skips row rows user e) ∙ h))
]

delete_where-delete_where {ℓ} :
    {A : Type ℓ} (p q : A → Bool) (xs : List A)
    → delete_where q (delete_where p xs) ≡ delete_where (λ x. p x || q x) xs
unfolding delete_where
delete_where-delete_where p q [] = refl
delete_where-delete_where p q (x ∷ xs) = ground (arith, delete_where-delete_where p q xs)

delete_where-false {ℓ} : {A : Type ℓ} (xs : List A) → delete_where (λ x. false) xs ≡ xs
unfolding delete_where
delete_where-false [] = refl
delete_where-false (x ∷ xs) = ap (◌∷◌ x) (delete_where-false xs)

-- Deletion asks for the second number only: what is left of a user's items is what has the second number
-- of none of those deleted, in whatever group it is.
pub feedbag_delete-feedbag_of :
    (db : Tables) (user : List ℕ) (items old : List FeedbagItem)
    → feedbag_of db.feedbag user ≡ ok old
    → feedbag_of (feedbag_delete db user items).feedbag user
      ≡ ok (delete_where (λ item. is_one_of (map item_id_of items) (item_id_of item)) old)
unfolding feedbag_delete is_one_of
feedbag_delete-feedbag_of db user [] old h = h ∙ ap ok (sym (delete_where-false old))
feedbag_delete-feedbag_of db user ((block, (g, (n, rest))) ∷ items) old h =
    feedbag_delete-feedbag_of
      (record db {
        feedbag =
            delete_where (λ (row : FeedbagRow). bytes_eq row.owner user && row.item_id == n)
              db.feedbag;
      })
      user items _ (feedbag_of-delete_where db.feedbag user n old h)
    ∙ ap ok (
        delete_where-delete_where (λ item. item_id_of item == n)
          (λ item. is_one_of (map item_id_of items) (item_id_of item)) old)
