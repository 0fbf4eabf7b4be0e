-- ===== src/Wire/RateLimit/Classes.antt =====
-- The classes that the tables of wire/rate_limit.go give.
use go_icq.Prelude.{
  ℕ, zero, suc, ◌≤◌, ◌≡◌, ◌≢◌, refl, none, some, List, [], ◌∷◌, Bool, true, ◌&&◌, Option-cases, inl,
  inr, leb, arith,
}
use go_icq.Wire.RateLimit.{
  RateClass, lookup, rate_class_lookup, index, get, default_rate_limit_classes,
}
use go_icq.Wire.RateLimit.Table.{default_snac_rate_limits}

module _ {ℓ} {A : Type ℓ} (p : A → Bool) where
  all_values : List (ℕ × A) → Bool
  all_values [] = true
  all_values (entry ∷ entries) = p entry.1 && all_values entries

  lookup-all_values :
      (entries : List (ℕ × A)) (key : ℕ) (a : A)
      → all_values entries ≡ true
      → lookup entries key ≡ some a
      → p a ≡ true
  unfolding all_values lookup
  lookup-all_values [] key a h e = absurd cc
  lookup-all_values ((k, b) ∷ entries) key a h e = ground (arith, lookup-all_values entries key a)

abbrev is_class : ℕ → Bool
is_class n = leb 1 n && leb n 5

default_classes : all_values (all_values is_class) default_snac_rate_limits ≡ true
unfolding all_values default_snac_rate_limits
default_classes = refl

module _ (food_group sub_group id : ℕ) where
  none_found :
      lookup default_snac_rate_limits food_group ≡ none
      → rate_class_lookup default_snac_rate_limits food_group sub_group ≢ some id
  unfolding rate_class_lookup
  none_found h e = let absent = rw (rate_class_lookup, h) at e in cc

  in_group :
      (group : List (ℕ × ℕ))
      → lookup default_snac_rate_limits food_group ≡ some group
      → rate_class_lookup default_snac_rate_limits food_group sub_group ≡ some id
      → lookup group sub_group ≡ some id
  unfolding rate_class_lookup
  in_group group h e = rw (rate_class_lookup, h) at e

class_of :
    (food_group sub_group id : ℕ)
    → rate_class_lookup default_snac_rate_limits food_group sub_group ≡ some id
    → is_class id ≡ true
unfolding rate_class_lookup
class_of food_group sub_group id e =
    elim (Option-cases (lookup default_snac_rate_limits food_group)) [
      | inl none_there ↦ absurd (none_found food_group sub_group id none_there e)
      | inr (group, there) ↦
          lookup-all_values is_class group sub_group id
            (lookup-all_values (all_values is_class) default_snac_rate_limits food_group group
              default_classes there)
            (in_group food_group sub_group id group there e)
    ]

get_class :
    (id : ℕ)
    → is_class id ≡ true
    → (1 ≤ id)
      × (id ≤ 5)
      × ((c : RateClass) × (get default_rate_limit_classes id ≡ some c) × (c.id ≡ id))
unfolding get index default_rate_limit_classes
get_class zero h = absurd cc
get_class (suc zero) h = (omega arith, omega arith, (_, refl, refl))
get_class (suc (suc zero)) h = (omega arith, omega arith, (_, refl, refl))
get_class (suc (suc (suc zero))) h = (omega arith, omega arith, (_, refl, refl))
get_class (suc (suc (suc (suc zero)))) h = (omega arith, omega arith, (_, refl, refl))
get_class (suc (suc (suc (suc (suc zero))))) h = (omega arith, omega arith, (_, refl, refl))
get_class (suc (suc (suc (suc (suc (suc n)))))) h = absurd (ground arith)

-- Every class that the default table has for a SNAC is one of the five default classes, so that
-- neither `Get` nor the arrays that sessions keep of them can be indexed out of range with it.
pub rate_class_lookup-get :
    (food_group sub_group id : ℕ)
    → rate_class_lookup default_snac_rate_limits food_group sub_group ≡ some id
    → (1 ≤ id)
      × (id ≤ 5)
      × ((c : RateClass) × (get default_rate_limit_classes id ≡ some c) × (c.id ≡ id))
unfolding rate_class_lookup
rate_class_lookup-get food_group sub_group id e = get_class id (class_of food_group sub_group id e)
