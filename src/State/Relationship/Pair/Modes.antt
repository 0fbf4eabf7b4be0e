-- ===== src/State/Relationship/Pair/Modes.antt =====
-- What the mode of a user is in the query of state/relationship.go.
use go_icq.Prelude.{
  ℕ, ◌≡◌, refl, Bool, true, false, Bool-cases, Option, none, some, inl, inr, List, [], ◌∷◌, ◌++◌,
  map, bytes_eq, bytes_eq_sound, if◌then◌else◌, arith,
}
use go_icq.State.Store.{FeedbagRow, ModeRow}
use go_icq.State.Sql.{lookup}
use go_icq.State.Sql.Join.{lookup-append, head?}
use go_icq.State.Relationship.{pd_items, effective_mode, mode_rows, privacy_prefs}
use go_icq.State.Relationship.Pair.{items_mode, mode_of}

-- The mode that the join gives first.
abbrev first_mode : ModeRow → List (Option ℕ) → ℕ
first_mode row [] = effective_mode row none
first_mode row (m ∷ ms) = effective_mode row m

by_feedbag :
    (row : ModeRow) (m : Option ℕ)
    → effective_mode row m
      ≡ (if row.use_feedbag then elim m [ none ↦ 1 | some n ↦ n ] else row.client_side_pd_mode)
by_feedbag row none = refl
by_feedbag row (some n) = refl

first_mode-pd_items :
    (row : ModeRow) (feedbag : List FeedbagRow) (a : List ℕ)
    → first_mode row (pd_items feedbag a)
      ≡ (if row.use_feedbag then items_mode feedbag a else row.client_side_pd_mode)
unfolding pd_items items_mode
first_mode-pd_items row [] a = refl
first_mode-pd_items row (item ∷ feedbag) a =
    ground (arith, first_mode-pd_items row feedbag a, by_feedbag row item.pd_mode)

lookup-same_user :
    (row : ModeRow) (ms : List (Option ℕ)) (k : List ℕ)
    → bytes_eq row.user k ≡ false
    → lookup (map (λ m. (row.user, effective_mode row m)) ms) k ≡ none
unfolding lookup
lookup-same_user row [] k h = refl
lookup-same_user row (m ∷ ms) k h = rw h (lookup-same_user row ms k h)

lookup-mode_rows :
    (row : ModeRow) (ms : List (Option ℕ)) (k : List ℕ)
    → lookup (mode_rows row ms) k ≡ (if bytes_eq row.user k then some (first_mode row ms) else none)
unfolding lookup
lookup-mode_rows row [] k = refl
lookup-mode_rows row (m ∷ ms) k = ground (arith, lookup-same_user row ms k)

pub lookup-privacy_prefs :
    (test : List ℕ → Bool) (feedbag : List FeedbagRow) (modes : List ModeRow) (k : List ℕ)
    → test k ≡ true
    → lookup (privacy_prefs test feedbag modes) k ≡ mode_of feedbag modes k
unfolding privacy_prefs mode_of lookup
lookup-privacy_prefs test feedbag [] k h = refl
lookup-privacy_prefs test feedbag (row ∷ rows) k h = elim (Bool-cases (test row.user)) [
  | inl e ↦
      rw
        (
          e,
          lookup-append (mode_rows row (pd_items feedbag row.user))
              (privacy_prefs test feedbag rows) k,
          lookup-mode_rows row (pd_items feedbag row.user) k,
          lookup-privacy_prefs test feedbag rows k h,
          first_mode-pd_items row feedbag row.user,
        )
        (ground (arith, bytes_eq_sound row.user k))
  | inr e ↦ ground (arith, bytes_eq_sound row.user k, lookup-privacy_prefs test feedbag rows k h, e)
]

head-mode_rows :
    (row : ModeRow) (ms : List (Option ℕ)) (rest : List (List ℕ × ℕ))
    → head? (map (λ (r : List ℕ × ℕ). r.1) (mode_rows row ms ++ rest)) ≡ some (first_mode row ms)
head-mode_rows row [] rest = refl
head-mode_rows row (m ∷ ms) rest = refl

pub head-privacy_prefs :
    (feedbag : List FeedbagRow) (modes : List ModeRow) (me : List ℕ)
    → head?
        (map (λ (row : List ℕ × ℕ). row.1) (privacy_prefs (λ name. bytes_eq name me) feedbag modes))
      ≡ mode_of feedbag modes me
unfolding privacy_prefs mode_of
head-privacy_prefs feedbag [] me = refl
head-privacy_prefs feedbag (row ∷ rows) me = elim (Bool-cases (bytes_eq row.user me)) [
  | inl e ↦
      rw
        (
          e,
          head-mode_rows row (pd_items feedbag row.user) _,
          first_mode-pd_items row feedbag row.user,
          bytes_eq_sound row.user me e,
        )
        refl
  | inr e ↦ rw e (head-privacy_prefs feedbag rows me)
]
