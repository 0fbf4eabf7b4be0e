-- ===== src/Wire/RoundTrip/Elems.antt =====
-- The loops of wire/encode.go and wire/decode.go over the elements of an array or a slice.
use go_icq.Prelude.{
  ℕ, zero, suc, ◌≤◌, ◌<◌, ◌≡◌, ◌≢◌, refl, ap, Bool, true, false, List, [], ◌∷◌, ◌++◌, length,
  length-append, All, All-append, arith,
}
use mathlib.Core.List.{append-nil, append_assoc}
use go_icq.Wire.Bytes.{IsByte}
use go_icq.Wire.Result.{Result, ok, err, eof}
use go_icq.Wire.Reader.{Reader, pure, on_ok}
use go_icq.Wire.Encode.{marshal_each}
use go_icq.Wire.Decode.{read_until_empty, read_count, read_rest}

-- What `m` writes are bytes, and they are read back as `v`, whatever follows it; at the end of the input (`last`) nothing
-- may follow.
abbrev pub Good : {A : Type 0} → Bool → Result (List ℕ) → Reader A → A → Type 0
Good last m read v =
    (bs : List ℕ) × (m ≡ ok bs)
    × All IsByte bs
    × ((rest : List ℕ) → (last ≡ true → rest ≡ []) → read (bs ++ rest) ≡ (ok v, rest))

-- A buffer is the encodings of a list of values, one behind the other.
abbrev pub Encoded : {A : Type 0} → Reader A → List A → List ℕ → Type 0
Encoded read [] buf = buf ≡ []
Encoded read (x ∷ xs) buf =
    (b : List ℕ) × (bs : List ℕ) × (buf ≡ b ++ bs)
    × ((rest : List ℕ) → read (b ++ rest) ≡ (ok x, rest))
    × Encoded read xs bs

module _ {A : Type 0} (m : A → Result (List ℕ)) (read : Reader A) where
  pub marshal_each-Encoded :
      (xs : List A)
      → All (λ x. Good false (m x) read x) xs
      → (buf : List ℕ) × (marshal_each m xs ≡ ok buf) × All IsByte buf × Encoded read xs buf
  marshal_each-Encoded [] h = ([], refl, tt, refl)
  marshal_each-Encoded (x ∷ xs) ((b, e, y, r), hs) =
      let (buf, e', ys, enc) = marshal_each-Encoded xs hs in
      (
        b ++ buf,
        rw (e, e'),
        All-append IsByte b buf y ys,
        (b, buf, refl, (λ rest. r rest (λ f. cc)), enc),
      )

module _ {A : Type 0} (read : Reader A) where
  pub read_count-Encoded :
      (xs : List A) (buf rest : List ℕ)
      → Encoded read xs buf
      → read_count (length xs) read (buf ++ rest) ≡ (ok xs, rest)
  unfolding read_count
  read_count-Encoded [] buf rest e = rw e
  read_count-Encoded (x ∷ xs) buf rest (b, bs, e, r, enc) =
      rw (e, append_assoc b bs rest, r (bs ++ rest), read_count-Encoded xs bs rest enc)

  -- An element that wants input has an encoding that is not empty.
  encoding-ne-nil :
      read [] ≡ (err eof, [])
      → {x : A} (b : List ℕ) → ((rest : List ℕ) → read (b ++ rest) ≡ (ok x, rest))
      → b ≢ []
  encoding-ne-nil starved b r e = cc (starved, ap read e, r [], append-nil b)

  until_empty_round :
      (fuel : ℕ) (bs : List ℕ)
      → bs ≢ []
      → read_until_empty (suc fuel) read bs
        ≡ on_ok
            (read bs)
            (λ a bs'. on_ok (read_until_empty fuel read bs') (λ elems. pure (a ∷ elems)))
  unfolding read_until_empty
  until_empty_round fuel [] h = absurd (h refl)
  until_empty_round fuel (b ∷ bs) h = refl

  append-ne-nil : (b bs : List ℕ) → b ≢ [] → b ++ bs ≢ []
  append-ne-nil [] bs h = absurd (h refl)
  append-ne-nil (x ∷ b) bs h = λ e. cc

  length-pos : (b : List ℕ) → b ≢ [] → 0 < length b
  length-pos [] h = absurd (h refl)
  length-pos (x ∷ b) h = omega arith

  -- The fuel of `unmarshalSlice` is enough: each round reads a byte at least.
  pub read_until_empty-Encoded :
      (xs : List A) (buf : List ℕ) (fuel : ℕ)
      → read [] ≡ (err eof, [])
      → Encoded read xs buf
      → length buf ≤ fuel
      → read_until_empty fuel read buf ≡ (ok xs, [])
  read_until_empty-Encoded [] buf fuel starved e h = rw e (unfold read_until_empty in refl)
  read_until_empty-Encoded (x ∷ xs) buf zero starved (b, bs, e, r, enc) h =
      absurd
        (omega (arith, ap length e, length-append b bs, length-pos b (encoding-ne-nil starved b r)))
  read_until_empty-Encoded (x ∷ xs) buf (suc fuel) starved (b, bs, e, r, enc) h =
      let ne = encoding-ne-nil starved b r in
      let rec =
        read_until_empty-Encoded xs bs fuel starved enc
          (omega (arith, ap length e, length-append b bs, length-pos b ne)) in
      rw (e, until_empty_round fuel (b ++ bs) (append-ne-nil b bs ne), r bs, rec)

  pub read_rest-Encoded :
      (xs : List A) (buf : List ℕ) (fuel : ℕ)
      → read [] ≡ (err eof, [])
      → Encoded read xs buf
      → length buf < fuel
      → read_rest fuel read buf ≡ (ok xs, [])
  unfolding read_rest
  read_rest-Encoded xs buf zero starved enc h = absurd (omega arith)
  read_rest-Encoded [] buf (suc fuel) starved e h = rw (e, starved)
  read_rest-Encoded (x ∷ xs) buf (suc fuel) starved (b, bs, e, r, enc) h =
      let ne = encoding-ne-nil starved b r in
      let rec =
        read_rest-Encoded xs bs fuel starved enc
          (omega (arith, ap length e, length-append b bs, length-pos b ne)) in
      rw (e, r bs, rec)
