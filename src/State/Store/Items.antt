-- ===== src/State/Store/Items.antt =====
-- The items of a user (state/user_store.go) as a list in the order in which they are read.
use go_icq.Prelude.{
  ℕ, ◌≡◌, refl, ap, ◌∙◌, Option, none, some, Bool, true, false, ◌||◌, ◌==◌, Bool-cases, inl, inr,
  List, [], ◌∷◌, if◌then◌else◌, All, All-map, ◌&&◌, arith,
}
use go_icq.State.User.Name.{Unicode, new_ident_screen_name}
use go_icq.State.Sql.{upsert_ordered}
use go_icq.State.Store.{numbers_before}
use go_icq.State.Store.BuddyLists.{FeedbagItem, names_user}

-- The numbers of an item, and those of two items.
abbrev pub item_id_of : FeedbagItem → ℕ
item_id_of item = item.1.1.0

abbrev pub same_ids : FeedbagItem → FeedbagItem → Bool
same_ids a b = a.1.0 == b.1.0 && a.1.1.0 == b.1.1.0

-- Items in the order of their numbers.
abbrev pub ids_before : FeedbagItem → FeedbagItem → Bool
ids_before a b = numbers_before a.1.0 a.1.1.0 b.1.0 b.1.1.0

abbrev pub InOrder : List FeedbagItem → Type 0
InOrder [] = Unit {0}
InOrder (item ∷ items) = All (λ later. ids_before item later ≡ true) items × InOrder items

unfoldable pub is_one_of : List ℕ → ℕ → Bool
is_one_of [] n = false
is_one_of (m ∷ ms) n = n == m || is_one_of ms n

-- An item as it is kept: the name of a user is brought to the form in which users are known.
abbrev pub kept : Unicode → FeedbagItem → FeedbagItem
kept u (block, (group_id, (item_id, (class_id, (name, end_))))) = (
  block,
  (
    group_id,
    (item_id, (class_id, (if names_user class_id then new_ident_screen_name u name else name, tt))),
  ),
)

abbrev pub put_item : Unicode → FeedbagItem → List FeedbagItem → List FeedbagItem
put_item u item items = upsert_ordered same_ids ids_before (kept u item) items

unfoldable pub put_items : Unicode → List FeedbagItem → List FeedbagItem → List FeedbagItem
put_items u [] old = old
put_items u (item ∷ items) old = put_items u items (put_item u item old)

-- The item with two numbers in a list, and the last with them that is saved, or else what was there before.
abbrev pub is_at : ℕ → ℕ → FeedbagItem → Bool
is_at g i item = item.1.0 == g && item.1.1.0 == i

unfoldable pub item_at : List FeedbagItem → ℕ → ℕ → Option FeedbagItem
item_at [] g i = none
item_at (item ∷ items) g i =
    let rest = item_at items g i in if is_at g i item then some item else rest

unfoldable pub last_saved :
    Unicode → List FeedbagItem → ℕ → ℕ → Option FeedbagItem → Option FeedbagItem
last_saved u [] g i old = old
last_saved u (item ∷ items) g i old =
    last_saved u items g i (if is_at g i (kept u item) then some (kept u item) else old)

upsert_ordered-item_at :
    (new : FeedbagItem) (items : List FeedbagItem) (g i : ℕ)
    → item_at (upsert_ordered same_ids ids_before new items) g i
      ≡ (if is_at g i new then some new else item_at items g i)
unfolding upsert_ordered item_at
upsert_ordered-item_at new [] g i = refl
upsert_ordered-item_at new (item ∷ items) g i =
    let ih = upsert_ordered-item_at new items g i in
    elim (Bool-cases (same_ids item new)) [
      | inl e ↦ rw e (ground arith)
      | inr e ↦ rw e (elim (Bool-cases (ids_before new item)) [
        | inl t ↦ rw t refl
        | inr t ↦ rw t (ground (arith, ih))
      ])
    ]

pub put_items-item_at :
    (u : Unicode) (items old : List FeedbagItem) (g i : ℕ)
    → item_at (put_items u items old) g i ≡ last_saved u items g i (item_at old g i)
unfolding put_items last_saved
put_items-item_at u [] old g i = refl
put_items-item_at u (item ∷ items) old g i =
    put_items-item_at u items (put_item u item old) g i
    ∙ ap (last_saved u items g i) (upsert_ordered-item_at (kept u item) old g i)

-- The order of items.
ids_before_trans :
    (a b c : FeedbagItem) → ids_before a b ≡ true → ids_before b c ≡ true → ids_before a c ≡ true
ids_before_trans a b c h k = ground arith

ids_before_other :
    (a b : FeedbagItem) → same_ids a b ≡ false → ids_before b a ≡ false → ids_before a b ≡ true
ids_before_other a b h k = ground arith

same_ids-before :
    (a b c : FeedbagItem) → same_ids a b ≡ true → ids_before a c ≡ true → ids_before b c ≡ true
same_ids-before a b c h k = ground arith

All-upsert_ordered :
    (P : FeedbagItem → Type 0) (new : FeedbagItem) (items : List FeedbagItem)
    → P new
    → All P items
    → All P (upsert_ordered same_ids ids_before new items)
unfolding upsert_ordered
All-upsert_ordered P new [] p h = (p, tt)
All-upsert_ordered P new (item ∷ items) p (h, hs) = elim (Bool-cases (same_ids item new)) [
  | inl e ↦ rw e (p, hs)
  | inr e ↦ rw e (elim (Bool-cases (ids_before new item)) [
    | inl t ↦ rw t (p, (h, hs))
    | inr t ↦ rw t (h, All-upsert_ordered P new items p hs)
  ])
]

pub upsert_ordered-InOrder :
    (new : FeedbagItem) (items : List FeedbagItem)
    → InOrder items
    → InOrder (upsert_ordered same_ids ids_before new items)
unfolding upsert_ordered
upsert_ordered-InOrder new [] h = (tt, tt)
upsert_ordered-InOrder new (item ∷ items) (h, hs) = elim (Bool-cases (same_ids item new)) [
  | inl e ↦ rw e (All-map (λ later k. same_ids-before item new later e k) items h, hs)
  | inr e ↦ rw e (elim (Bool-cases (ids_before new item)) [
    | inl t ↦ rw t ((t, All-map (λ later k. ids_before_trans new item later t k) items h), (h, hs))
    | inr t ↦ rw t (
      All-upsert_ordered _ new items (ids_before_other item new e t) h,
      upsert_ordered-InOrder new items hs,
    )
  ])
]

pub put_items-InOrder :
    (u : Unicode) (items old : List FeedbagItem) → InOrder old → InOrder (put_items u items old)
unfolding put_items
put_items-InOrder u [] old h = h
put_items-InOrder u (item ∷ items) old h =
    put_items-InOrder u items (put_item u item old) (upsert_ordered-InOrder (kept u item) old h)
