-- ===== src/Wire/Termination/Readers.antt =====
-- How many bytes the operations of wire/decode.go take, and that they end.
use go_icq.Prelude.{
  ℕ, zero, suc, ◌+◌, ◌*◌, ◌≤◌, ◌<◌, ◌≡◌, ◌≢◌, refl, List, [], ◌∷◌, Bool, true, Option, none, some,
  length, length-drop, leb, leb→le, ltb, ltb→lt, Bool-cases, inl, inr, le_refl, arith,
}
use go_icq.Wire.Bytes.{ByteOrder, Width, size, get_uint}
use go_icq.Wire.Result.{Result, ok, err, panic, stuck, eof}
use go_icq.Wire.Reader.{Reader, on_ok, pure, read_full, read_uint}
use go_icq.Wire.Tag.{OscarTag, Prefix}
use go_icq.Wire.Encode.{width_of}
use go_icq.Wire.Decode.{
  read_prefixed, unmarshal_unsigned_int, read_count, read_until_empty, read_rest, read_slice,
  read_struct, read_string, string_body, strip_terminator, lift, or_absent, or_end,
}

-- An outcome from `n` bytes: a value takes `k` of them at least, nothing is put back, and the call
-- has ended.
abbrev pub Step : {A : Type 0} → ℕ → ℕ → Result A × List ℕ → Type 0
Step k n (ok a, rest) = length rest + k ≤ n
Step k n (err e, rest) = length rest ≤ n
Step k n (panic, rest) = length rest ≤ n
Step k n (stuck, rest) = ⊥

abbrev pub Takes : {A : Type 0} → ℕ → Reader A → Type 0
Takes k read = (bs : List ℕ) → Step k (length bs) (read bs)

Step-shift :
    {A : Type 0} (j k m n : ℕ) (r : Result A × List ℕ) → m + j ≤ n → Step k m r → Step (j + k) n r
Step-shift j k m n (ok a, bs) h s = omega arith
Step-shift j k m n (err e, bs) h s = omega arith
Step-shift j k m n (panic, bs) h s = omega arith
Step-shift j k m n (stuck, bs) h s = s

Step-on_ok :
    {A B : Type 0} (j k n : ℕ) (r : Result A × List ℕ) (f : A → Reader B)
    → Step j n r
    → ((a : A) → Takes k (f a))
    → Step (j + k) n (on_ok r f)
Step-on_ok j k n (ok a, bs) f h t = Step-shift j k (length bs) n (f a bs) h (t a bs)
Step-on_ok j k n (err e, bs) f h t = h
Step-on_ok j k n (panic, bs) f h t = h
Step-on_ok j k n (stuck, bs) f h t = h

pub Takes-bind :
    {A B : Type 0} (j k : ℕ) (read : Reader A) (f : A → Reader B)
    → Takes j read
    → ((a : A) → Takes k (f a))
    → Takes (j + k) (λ bs. on_ok (read bs) f)
Takes-bind j k read f h t bs = Step-on_ok j k (length bs) (read bs) f (h bs) t

-- A round of a loop, and the rounds behind it.
Step-then :
    {A B : Type 0} (k n : ℕ) (r : Result A × List ℕ) (f : A → Reader B)
    → Step k n r
    → ((a : A) (rest : List ℕ) → length rest + k ≤ n → Step 0 (length rest) (f a rest))
    → Step 0 n (on_ok r f)
Step-then k n (ok a, bs) f h t = Step-shift 0 0 (length bs) n (f a bs) (omega arith) (t a bs h)
Step-then k n (err e, bs) f h t = h
Step-then k n (panic, bs) f h t = h
Step-then k n (stuck, bs) f h t = h

pub Step-or_absent :
    {A : Type 0} (k n : ℕ) (r : Result A × List ℕ) → Step k n r → Step 0 n (or_absent r)
Step-or_absent k n (ok a, bs) h = omega arith
Step-or_absent k n (err eof, bs) h = omega arith
Step-or_absent k n (err e, bs) h = h
Step-or_absent k n (panic, bs) h = h
Step-or_absent k n (stuck, bs) h = h

Step-or_end :
    {A : Type 0} (k n : ℕ) (r : Result A × List ℕ) (f : A → Reader (List A))
    → Step k n r
    → ((a : A) (rest : List ℕ) → length rest + k ≤ n → Step 0 (length rest) (f a rest))
    → Step 0 n (or_end r f)
Step-or_end k n (ok a, bs) f h t = Step-shift 0 0 (length bs) n (f a bs) (omega arith) (t a bs h)
Step-or_end k n (err eof, bs) f h t = omega arith
Step-or_end k n (err e, bs) f h t = h
Step-or_end k n (panic, bs) f h t = h
Step-or_end k n (stuck, bs) f h t = h

Step-mono :
    {A : Type 0} (j k m n : ℕ) (r : Result A × List ℕ) → k ≤ j → m ≤ n → Step j m r → Step k n r
Step-mono j k m n (ok a, bs) h l s = omega arith
Step-mono j k m n (err e, bs) h l s = omega arith
Step-mono j k m n (panic, bs) h l s = omega arith
Step-mono j k m n (stuck, bs) h l s = s

pub Takes-read_full : (n : ℕ) → Takes n (read_full n)
unfolding read_full
Takes-read_full n bs = elim (Bool-cases (leb n (length bs))) [
  | inl e ↦ rw e (omega (arith, length-drop n bs, leb→le n (length bs) e))
  | inr e ↦ rw e (omega arith)
]

pub Takes-pure : {A : Type 0} (a : A) → Takes 0 (pure a)
Takes-pure a bs = omega arith

pub Takes-weaken : {A : Type 0} (j k : ℕ) (read : Reader A) → k ≤ j → Takes j read → Takes k read
Takes-weaken j k read h t bs = Step-mono j k (length bs) (length bs) (read bs) h (le_refl _) (t bs)

pub Takes-read_uint : (w : Width) (o : ByteOrder) → Takes (size w) (read_uint w o)
unfolding read_uint
Takes-read_uint w o = Takes-weaken (size w + 0) (size w) _ (omega arith) (
    Takes-bind (size w) 0 (read_full (size w)) _ (Takes-read_full (size w))
      (λ bs. Takes-pure (get_uint o bs)))

pub Takes-read_prefixed :
    (p : Prefix) (o : ByteOrder) → Takes (size (width_of p)) (read_prefixed p o)
unfolding read_prefixed unmarshal_unsigned_int
Takes-read_prefixed p o =
    let w = width_of p in
    Takes-weaken (size w + 0) (size w) _ (omega arith) (
      Takes-bind (size w) 0 (read_uint w o) read_full (Takes-read_uint w o)
        (λ n. Takes-weaken n 0 (read_full n) (omega arith) (Takes-read_full n)))

pub Takes-lift : {A : Type 0} (r : Result A) → r ≢ stuck → Takes 0 (lift r)
Takes-lift (ok a) h bs = omega arith
Takes-lift (err e) h bs = omega arith
Takes-lift panic h bs = omega arith
Takes-lift stuck h bs = absurd (h refl)

Step-ne-stuck : {A : Type 0} (k n : ℕ) (r : Result A × List ℕ) → Step k n r → r.0 ≢ stuck
Step-ne-stuck k n (ok a, bs) h = λ e. cc
Step-ne-stuck k n (err x, bs) h = λ e. cc
Step-ne-stuck k n (panic, bs) h = λ e. cc
Step-ne-stuck k n (stuck, bs) h = absurd h

pub Step-outcome :
    {A : Type 0} (k n : ℕ) (r : Result A × List ℕ)
    → Step k n r
    → (r.0 ≢ stuck) × (length r.1 ≤ n) × ((a : A) → r.0 ≡ ok a → length r.1 + k ≤ n)
Step-outcome k n (ok a, bs) h = ((λ e. cc), omega arith, λ b e. h)
Step-outcome k n (err x, bs) h = ((λ e. cc), h, λ b e. cc)
Step-outcome k n (panic, bs) h = ((λ e. cc), h, λ b e. cc)
Step-outcome k n (stuck, bs) h = absurd h

pub Takes-ne-stuck :
    {A : Type 0} (k : ℕ) (read : Reader A) (bs : List ℕ) → Takes k read → (read bs).0 ≢ stuck
Takes-ne-stuck k read bs t = Step-ne-stuck k (length bs) (read bs) (t bs)

module _ {A : Type 0} (k : ℕ) (read : Reader A) (t : Takes k read) where
  pub Takes-read_count : (n : ℕ) → Takes (n * k) (read_count n read)
  unfolding read_count
  Takes-read_count zero = λ bs. omega arith
  Takes-read_count (suc n) = Takes-weaken (k + (n * k + 0)) (suc n * k) _ (omega arith) (
      Takes-bind k (n * k + 0) read _ t (λ a.
        Takes-bind (n * k) 0 (read_count n read) _ (Takes-read_count n)
          (λ as'. Takes-pure (a ∷ as'))))

  -- The loops that go by bytes, with enough fuel.
  pub read_until_empty_ends :
      (fuel : ℕ) (bs : List ℕ)
      → 0 < k
      → length bs ≤ fuel
      → Step 0 (length bs) (read_until_empty fuel read bs)
  unfolding read_until_empty
  read_until_empty_ends fuel [] h l = omega arith
  read_until_empty_ends zero (b ∷ bs) h l = absurd (omega arith)
  read_until_empty_ends (suc fuel) (b ∷ bs) h l =
      Step-then k (suc (length bs)) (read (b ∷ bs)) _ (t (b ∷ bs)) λ a rest q.
        Step-on_ok 0 0 (length rest) (read_until_empty fuel read rest) (λ elems. pure (a ∷ elems))
          (read_until_empty_ends fuel rest h (omega arith)) (λ elems. Takes-pure (a ∷ elems))

  pub read_rest_ends :
      (fuel : ℕ) (bs : List ℕ)
      → 0 < k
      → length bs < fuel
      → Step 0 (length bs) (read_rest fuel read bs)
  unfolding read_rest
  read_rest_ends zero bs h l = absurd (omega arith)
  read_rest_ends (suc fuel) bs h l = Step-or_end k (length bs) (read bs) _ (t bs) λ a rest q.
      Step-on_ok 0 0 (length rest) (read_rest fuel read rest) (λ elems. pure (a ∷ elems))
        (read_rest_ends fuel rest h (omega arith)) (λ elems. Takes-pure (a ∷ elems))

strip_terminator-ne-stuck : (bs : List ℕ) → strip_terminator bs ≢ stuck
unfolding strip_terminator
strip_terminator-ne-stuck [] = λ e. cc
strip_terminator-ne-stuck (b ∷ []) = λ e. ground arith
strip_terminator-ne-stuck (b ∷ c ∷ bs) = λ e. ground (arith, strip_terminator-ne-stuck (c ∷ bs))

string_body-ne-stuck : (tag : OscarTag) (bs : List ℕ) → string_body tag bs ≢ stuck
unfolding string_body
string_body-ne-stuck tag [] = λ e. cc
string_body-ne-stuck tag (b ∷ bs) = λ e. ground (arith, strip_terminator-ne-stuck (b ∷ bs))

-- What the prefix of a slice, a string or a struct takes.
abbrev pub prefix_size : Option Prefix → ℕ
prefix_size none = 0
prefix_size (some p) = size (width_of p)

abbrev pub slice_size : Option Prefix → Option Prefix → ℕ
slice_size (some p) c = size (width_of p)
slice_size none c = prefix_size c

abbrev pub struct_size : Option Prefix → ℕ → ℕ
struct_size none k = k
struct_size (some p) k = size (width_of p)

-- A slice that goes by bytes wants elements of `k` bytes at least, with `k` not 0.
abbrev pub slice_ends : Option Prefix → Option Prefix → ℕ → Bool
slice_ends (some p) c k = ltb 0 k
slice_ends none (some p) k = true
slice_ends none none k = ltb 0 k

pub Takes-read_string :
    (p : Option Prefix) (tag : OscarTag) (o : ByteOrder)
    → Takes (prefix_size p) (read_string p tag o)
unfolding read_string
Takes-read_string none tag o = λ bs. omega arith
Takes-read_string (some p) tag o =
    Takes-weaken (size (width_of p) + 0) (size (width_of p)) _ (omega arith) (
      Takes-bind (size (width_of p)) 0 (read_prefixed p o) (λ buf. lift (string_body tag buf))
        (Takes-read_prefixed p o) (λ buf. Takes-lift _ (string_body-ne-stuck tag buf)))

-- What follows a length prefix works on its buffer.
pub Takes-buffer :
    {A : Type 0} (p : Prefix) (o : ByteOrder) (f : List ℕ → Result A)
    → ((buf : List ℕ) → f buf ≢ stuck)
    → Takes (size (width_of p)) (λ bs. on_ok (read_prefixed p o bs) (λ buf. lift (f buf)))
Takes-buffer p o f h = Takes-weaken (size (width_of p) + 0) (size (width_of p)) _ (omega arith) (
    Takes-bind (size (width_of p)) 0 (read_prefixed p o) (λ buf. lift (f buf))
      (Takes-read_prefixed p o) (λ buf. Takes-lift (f buf) (h buf)))

pub Takes-read_struct :
    {A : Type 0} (p : Option Prefix) (o : ByteOrder) (k : ℕ) (read : Reader A)
    → Takes k read
    → Takes (struct_size p k) (read_struct p o read)
unfolding read_struct
Takes-read_struct none o k read t = t
Takes-read_struct (some p) o k read t =
    Takes-buffer p o (λ buf. (read buf).0) (λ buf. Takes-ne-stuck k read buf t)

-- Elements with a size, or a count, end the loop over a slice.
pub Takes-read_slice :
    {A : Type 0} (p c : Option Prefix) (o : ByteOrder) (k : ℕ) (read : Reader A)
    → slice_ends p c k ≡ true
    → Takes k read
    → Takes (slice_size p c) (read_slice p c o read)
unfolding read_slice unmarshal_unsigned_int
Takes-read_slice (some p) c o k read h t =
    Takes-buffer p o (λ buf. (read_until_empty (length buf) read buf).0)
      λ buf.
        Step-ne-stuck 0 (length buf) _
          (read_until_empty_ends k read t (length buf) buf (ltb→lt 0 k h) (le_refl _))
Takes-read_slice none (some p) o k read h t =
    let w = width_of p in
    Takes-weaken (size w + 0) (size w) _ (omega arith) (
      Takes-bind (size w) 0 (read_uint w o) (λ n. read_count n read) (Takes-read_uint w o)
        (λ n. Takes-weaken (n * k) 0 _ (omega arith) (Takes-read_count k read t n)))
Takes-read_slice none none o k read h t =
    λ bs. read_rest_ends k read t (suc (length bs)) bs (ltb→lt 0 k h) (le_refl _)
