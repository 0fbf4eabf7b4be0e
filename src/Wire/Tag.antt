-- ===== src/Wire/Tag.antt =====
-- `parseOSCARTag` of wire/encode.go, on the bytes of the tag's `oscar` key.
pub mod Outcomes
use go_icq.Prelude.{
  ℕ, Bool, true, false, Option, none, some, List, [], ◌∷◌, ◌==◌, if◌then◌else◌, bytes_eq, codes,
}
use go_icq.Wire.Result.{Result, ok, err, invalid_struct_tag, ◌>>=◌}

-- The kinds that a prefix may have; `parseOSCARTag` refuses any other.
pub data Prefix : Type 0 where
  uint8 uint16 : Prefix

-- `hasLenPrefix` with `lenPrefix`, and `hasCountPrefix` with `countPrefix`, are an option each.
pub record OscarTag : Type 0 where
  pub len_prefix : Option Prefix
  pub count_prefix : Option Prefix
  pub optional : Bool
  pub null_terminated : Bool

abbrev pub no_tag : OscarTag
no_tag = record {
  len_prefix = none;
  count_prefix = none;
  optional = false;
  null_terminated = false;
}

-- strings.Split on one byte: always at least one part.
unfoldable pub split : ℕ → List ℕ → List (List ℕ)
split sep [] = [] ∷ []
split sep (b ∷ bs) =
    let rest = split sep bs in
    if b == sep then [] ∷ rest else elim rest [ [] ↦ (b ∷ []) ∷ [] | p ∷ ps ↦ (b ∷ p) ∷ ps ]

-- strings.SplitN(kv, "=", 2): one part, or what stands before and after the first `=`.
unfoldable pub split_pair : List ℕ → List ℕ × Option (List ℕ)
split_pair [] = ([], none)
split_pair (b ∷ bs) =
    let (key, value) = split_pair bs in if b == b'=' then ([], some bs) else (b ∷ key, value)

parse_prefix : List ℕ → Result Prefix
parse_prefix v =
    if bytes_eq v (codes "uint8")
    then ok uint8
    else if bytes_eq v (codes "uint16")
    then ok uint16
    else err invalid_struct_tag

-- One round of the loop. A key that is not known is passed over if it has a value.
parse_part : OscarTag → List ℕ × Option (List ℕ) → Result OscarTag
parse_part tag (key, some value) =
    if bytes_eq key (codes "len_prefix")
    then (do p ← parse_prefix value; ok (record tag { len_prefix = some p }))
    else if bytes_eq key (codes "count_prefix")
    then (do p ← parse_prefix value; ok (record tag { count_prefix = some p }))
    else ok tag
parse_part tag (key, none) =
    if bytes_eq key (codes "optional")
    then ok (record tag { optional = true })
    else if bytes_eq key (codes "nullterm")
    then ok (record tag { null_terminated = true })
    else err invalid_struct_tag

parse_parts : OscarTag → List (List ℕ) → Result OscarTag
parse_parts tag [] = ok tag
parse_parts tag (kv ∷ kvs) = do tag' ← parse_part tag (split_pair kv); parse_parts tag' kvs

-- Both prefixes at once are refused, after the loop.
check_prefixes : OscarTag → Result OscarTag
check_prefixes tag = elim tag.len_prefix [
  | none ↦ ok tag
  | some l ↦ elim tag.count_prefix [ none ↦ ok tag | some c ↦ err invalid_struct_tag ]
]

unfoldable pub parse_oscar_tag : Option (List ℕ) → Result OscarTag
unfolding parse_prefix parse_part parse_parts check_prefixes split split_pair
parse_oscar_tag none = ok no_tag
parse_oscar_tag (some val) = do tag ← parse_parts no_tag (split b',' val); check_prefixes tag
