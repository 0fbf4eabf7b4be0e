-- ===== src/State/Store/Keywords/InUse.antt =====
-- Keywords that users have chosen (state/user_store.go).
use go_icq.Prelude.{
  ℕ, ◌≡◌, refl, sym, ◌∙◌, Bool, true, false, ◌&&◌, ◌==◌, ==_iff, Bool-cases, inl, inr, List, [],
  ◌∷◌, arith,
}
use go_icq.State.Sql.{delete_where}
use go_icq.State.User.Info.{Category}
use go_icq.State.Store.Keywords.{
  KeywordRow, Directory, any_of, is_chosen, in_category, delete_category, delete_keyword,
}

-- Whether there is a keyword of an ID.
abbrev pub is_keyword : List KeywordRow → ℕ → Bool
is_keyword rows n = any_of (λ (k : KeywordRow). k.key_id == n) rows

any_of-delete_where {ℓ} :
    {A : Type ℓ} (test gone used : A → Bool) (rows : List A)
    → ((row : A) → test row ≡ true → used row ≡ true)
    → any_of (λ row. gone row && used row) rows ≡ false
    → any_of test (delete_where gone rows) ≡ any_of test rows
unfolding any_of delete_where
any_of-delete_where test gone used [] h k = refl
any_of-delete_where test gone used (row ∷ rows) h k =
    ground (arith, any_of-delete_where test gone used rows h, h row)

used_by_id :
    (d : Directory) (n : ℕ) (row : KeywordRow)
    → is_chosen d.choices_of n ≡ true
    → (row.key_id == n) ≡ true
    → is_chosen d.choices_of row.key_id ≡ true
used_by_id d n row h e = rw ((==_iff row.key_id n).0 e) h

no_use : (a b : Bool) → (a && b) ≡ false → b ≡ true → a ≡ false
no_use true b h k = sym k ∙ h
no_use false b h k = refl

no_use_of : (a b : Bool) → (a && b) ≡ false → a ≡ true → b ≡ false
no_use_of true b h k = h
no_use_of false b h k = absurd (cc)

none_chosen :
    (d : Directory) (id : ℕ) (rows : List KeywordRow)
    → is_chosen d.choices_of id ≡ false
    → any_of (λ (row : KeywordRow). row.key_id == id && is_chosen d.choices_of row.key_id) rows
      ≡ false
unfolding any_of
none_chosen d id [] h = refl
none_chosen d id (row ∷ rows) h = elim (Bool-cases (row.key_id == id)) [
  | inl e ↦ rw ((==_iff row.key_id id).0 e, h) (ground (arith, none_chosen d id rows h))
  | inr e ↦ rw e (none_chosen d id rows h)
]

-- A keyword that a user has chosen stays, whichever category or keyword is asked to be deleted.
pub delete_category-is_keyword :
    (d : Directory) (id n : ℕ)
    → is_chosen d.choices_of n ≡ true
    → (is_keyword (delete_category d id).0.keywords n ≡ is_keyword d.keywords n)
      × (is_keyword (delete_keyword d id).0.keywords n ≡ is_keyword d.keywords n)
unfolding delete_category delete_keyword
delete_category-is_keyword d id n h =
    let used = any_of (λ row. in_category id row && is_chosen d.choices_of row.key_id) d.keywords in
    let there = any_of (λ (c : Category). c.id == id) d.categories in
    let named = is_keyword d.keywords id in
    (
      elim (Bool-cases (used && there)) [
        | inl e ↦ rw e refl
        | inr e ↦ rw e (elim (Bool-cases there) [
          | inl k ↦ rw k (
              any_of-delete_where _ (in_category id) (λ row. is_chosen d.choices_of row.key_id)
                d.keywords (λ row. used_by_id d n row h) (no_use used there e k))
          | inr k ↦ rw k refl
        ])
      ],
      elim (Bool-cases (named && is_chosen d.choices_of id)) [
        | inl e ↦ rw e refl
        | inr e ↦ rw e (elim (Bool-cases named) [
          | inl k ↦ rw k (
              any_of-delete_where _ (λ (r : KeywordRow). r.key_id == id)
                (λ row. is_chosen d.choices_of row.key_id) d.keywords (λ row. used_by_id d n row h)
                (none_chosen d id d.keywords (no_use_of named _ e k)))
          | inr k ↦ rw k refl
        ])
      ],
    )
