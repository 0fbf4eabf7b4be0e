-- ===== src/Wire/Tag/Outcomes.antt =====
-- `parseOSCARTag` of wire/encode.go ends with a tag or an error.
use go_icq.Prelude.{ℕ, ◌≢◌, refl, Option, none, some, List, [], ◌∷◌, arith}
use go_icq.Wire.Result.{Result, ok, err, panic, stuck, ◌>>=◌}
use go_icq.Wire.Tag.{
  OscarTag, parse_oscar_tag, parse_prefix, parse_part, parse_parts, check_prefixes, no_tag, split,
  split_pair,
}

bind-ne-stuck {ℓ κ} :
    {A : Type ℓ} {B : Type κ} (m : Result A) (f : A → Result B)
    → m ≢ stuck
    → ((a : A) → f a ≢ stuck)
    → (m >>= f) ≢ stuck
bind-ne-stuck (ok a) f h k = k a
bind-ne-stuck (err e) f h k = λ p. cc
bind-ne-stuck panic f h k = λ p. cc
bind-ne-stuck stuck f h k = absurd (h refl)

parse_prefix-ne-stuck : (v : List ℕ) → parse_prefix v ≢ stuck
unfolding parse_prefix
parse_prefix-ne-stuck v = λ e. ground arith

parse_part-ne-stuck : (tag : OscarTag) (p : List ℕ × Option (List ℕ)) → parse_part tag p ≢ stuck
unfolding parse_part
parse_part-ne-stuck tag (key, some value) = λ e. ground (arith, parse_prefix-ne-stuck value)
parse_part-ne-stuck tag (key, none) = λ e. ground arith

parse_parts-ne-stuck : (tag : OscarTag) (kvs : List (List ℕ)) → parse_parts tag kvs ≢ stuck
unfolding parse_parts
parse_parts-ne-stuck tag [] = λ e. cc
parse_parts-ne-stuck tag (kv ∷ kvs) =
    bind-ne-stuck (parse_part tag (split_pair kv)) _ (parse_part-ne-stuck tag (split_pair kv))
      (λ tag'. parse_parts-ne-stuck tag' kvs)

check_prefixes-ne-stuck : (tag : OscarTag) → check_prefixes tag ≢ stuck
unfolding check_prefixes
check_prefixes-ne-stuck tag = λ e. ground arith

pub parse_oscar_tag-ne-stuck : (tag : Option (List ℕ)) → parse_oscar_tag tag ≢ stuck
unfolding parse_oscar_tag
parse_oscar_tag-ne-stuck none = λ e. cc
parse_oscar_tag-ne-stuck (some val) =
    bind-ne-stuck (parse_parts no_tag (split b',' val)) check_prefixes
      (parse_parts-ne-stuck no_tag (split b',' val)) check_prefixes-ne-stuck
