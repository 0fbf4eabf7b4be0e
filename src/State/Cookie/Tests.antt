-- ===== src/State/Cookie/Tests.antt =====
-- Login cookies at concrete inputs.
use go_icq.Prelude.{
  ℕ, zero, suc, ◌*◌, ◌+◌, ◌%◌, ◌^◌, ◌<◌, ◌≤◌, ◌≡◌, ◌≢◌, ◌↔◌, refl, List, [], ◌∷◌, All, length,
  replicate, arith,
}
use go_icq.Prelude.Int.{pos}
use go_icq.Wire.Bytes.{IsByte}
use go_icq.Wire.Result.{ok}
use go_icq.Wire.Encode.{marshal_be}
use go_icq.State.Cookie.{hmac_token_payload, invalid, expired, done, failed, issue, crack}
use go_icq.State.Cookie.Laws.{IsHmacSha256, crack-issue, crack-issue_other_key}

-- A signature that repeats the key's first byte.
abbrev key_byte : List ℕ → ℕ
key_byte [] = 0
key_byte (b ∷ bs) = b % 256

abbrev stamp : List ℕ → List ℕ → List ℕ
stamp key text = replicate 32 (key_byte key)

key_byte-IsByte : (key : List ℕ) → IsByte (key_byte key)
key_byte-IsByte [] = omega arith
key_byte-IsByte (b ∷ bs) = omega arith

replicate-IsByte : (n b : ℕ) → IsByte b → All IsByte (replicate n b)
replicate-IsByte zero b h = tt
replicate-IsByte (suc n) b h = (h, replicate-IsByte n b h)

stamp-IsHmacSha256 : IsHmacSha256 stamp
stamp-IsHmacSha256 = record {
  sum_bytes = λ key text. replicate-IsByte 32 (key_byte key) (key_byte-IsByte key);
  sum_length = λ key text. refl;
}

crack-issue_example :
    (cookie : List ℕ) × (issue stamp (5 ∷ []) (pos (1700000000 * 10 ^ 9 + 3)) (1 ∷ 2 ∷ [])
      ≡ done cookie)
    × (length cookie ≡ 256)
    × ((later : ℕ)
        → later ≤ 1700000060 * 10 ^ 9
        → crack stamp (5 ∷ []) (pos later) cookie ≡ done (1 ∷ 2 ∷ []))
    × ((later : ℕ)
        → 1700000060 * 10 ^ 9 < later
        → crack stamp (5 ∷ []) (pos later) cookie ≡ failed expired)
crack-issue_example =
    crack-issue stamp (5 ∷ []) (1700000000 * 10 ^ 9 + 3) (1 ∷ 2 ∷ []) stamp-IsHmacSha256
      (omega arith) (omega arith) (omega arith)

crack-issue_other_key_example :
    (cookie : List ℕ) × (payload : List ℕ) × (issue stamp
        (5 ∷ [])
        (pos (1700000000 * 10 ^ 9))
        (1 ∷ 2 ∷ [])
      ≡ done cookie)
    × (marshal_be hmac_token_payload (1700000060, (1 ∷ 2 ∷ [], tt)) ≡ ok payload)
    × ((crack stamp (6 ∷ []) (pos (1700000001 * 10 ^ 9)) cookie ≡ failed invalid)
        ↔ (stamp (5 ∷ []) payload ≢ stamp (6 ∷ []) payload))
    × (stamp (5 ∷ []) payload ≡ stamp (6 ∷ []) payload
        → crack stamp (6 ∷ []) (pos (1700000001 * 10 ^ 9)) cookie
          ≡ crack stamp (5 ∷ []) (pos (1700000001 * 10 ^ 9)) cookie)
crack-issue_other_key_example =
    crack-issue_other_key stamp (5 ∷ []) (6 ∷ []) (1700000000 * 10 ^ 9) (1700000001 * 10 ^ 9)
      (1 ∷ 2 ∷ []) stamp-IsHmacSha256 (omega arith) (omega arith) (omega arith)
