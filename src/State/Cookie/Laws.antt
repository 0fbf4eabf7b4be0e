-- ===== src/State/Cookie/Laws.antt =====
-- What `Crack` of state/cookie.go makes of the cookies of `Issue`.
use go_icq.Prelude.{
  ℕ, ◌+◌, ◌-◌, ◌*◌, ◌/◌, ◌^◌, ◌<◌, ◌≤◌, ◌≡◌, ◌≢◌, ◌↔◌, refl, ◌∙◌, sym, true, false, List, [], ◌++◌,
  All, length, replicate, length-append, length-replicate, ltb, lt→ltb, bytes_eq, bytes_eq_refl,
  bytes_eq-ne, if◌then◌else◌, if_both, arith,
}
use mathlib.Core.List.{append-nil}
use go_icq.Prelude.Int.{ℤ, pos, ◌+ℤ◌, ltb_ℤ}
use go_icq.Wire.Bytes.{IsByte, w8, w16, w32, big_endian, put_uint, size, length-put_uint}
use go_icq.Wire.Result.{ok}
use go_icq.Wire.GoType.{uint}
use go_icq.Wire.Tag.{no_tag, parse_oscar_tag}
use go_icq.Wire.Encode.{
  marshal, marshal_be, marshal_elems, write_fixed, is_fixed, each, check_pointer, struct_order,
  struct_prefix, slice_prefix, marshal_unsigned_int,
}
use go_icq.Wire.Decode.{unmarshal_be}
use go_icq.Wire.Flap.Transfer.{length-each_byte}
use go_icq.Wire.Snacs.Codable.{wants_input, codable, InRange}
use go_icq.Wire.Snacs.Carried.{codable-carried}
use go_icq.State.Session.Info.{unix_32}
use go_icq.State.Cookie.{
  hmac_token_payload, hmac_token, CookieResult, invalid, expired, too_long, done, failed, padded,
  issue, validate, crack_payload, crack,
}

-- The bytes of a slice behind its length, and of the two structs.
abbrev block : List ℕ → List ℕ
block dat =
    let written = each (write_fixed (uint w8) big_endian) dat in
    put_uint w16 big_endian (length written) ++ written

marshal_be-payload :
    (e : ℕ) (dat : List ℕ)
    → marshal_be hmac_token_payload (e, (dat, tt))
      ≡ ok (put_uint w32 big_endian e ++ (block dat ++ []))
unfolding marshal_be marshal marshal_elems is_fixed parse_oscar_tag check_pointer struct_order
    struct_prefix slice_prefix marshal_unsigned_int
marshal_be-payload e dat = refl

marshal_be-token :
    (dat sig : List ℕ)
    → marshal_be hmac_token (dat, (sig, tt)) ≡ ok (block dat ++ (block sig ++ []))
unfolding marshal_be marshal marshal_elems is_fixed parse_oscar_tag check_pointer struct_order
    struct_prefix slice_prefix marshal_unsigned_int
marshal_be-token dat sig = refl

length-block : (dat : List ℕ) → length (block dat) ≡ 2 + length dat
length-block dat =
    let written = each (write_fixed (uint w8) big_endian) dat in
    rw
      (
        length-append (put_uint w16 big_endian (length written)) written,
        length-put_uint w16 big_endian (length written),
        length-each_byte dat,
      )
      refl

ok-injective : {A : Type 0} {a b : A} → ok a ≡ ok b → a ≡ b
ok-injective e = cc

length-payload :
    (e : ℕ) (dat bs : List ℕ)
    → marshal_be hmac_token_payload (e, (dat, tt)) ≡ ok bs
    → length bs ≡ 6 + length dat
length-payload e dat bs h =
    let same = ok-injective (sym (marshal_be-payload e dat) ∙ h) in
    rw
      (
        ← same,
        length-append (put_uint w32 big_endian e) (block dat ++ []),
        length-append (block dat) [],
        length-put_uint w32 big_endian e,
        length-block dat,
      )
      (omega arith)

length-token :
    (dat sig bs : List ℕ)
    → marshal_be hmac_token (dat, (sig, tt)) ≡ ok bs
    → length bs ≡ 4 + length dat + length sig
length-token dat sig bs h =
    let same = ok-injective (sym (marshal_be-token dat sig) ∙ h) in
    rw
      (
        ← same,
        length-append (block dat) (block sig ++ []),
        length-append (block sig) [],
        length-block dat,
        length-block sig,
      )
      (omega arith)

-- Both are carried, the token in front of padding.
bytes-InRange :
    (dat : List ℕ) → All IsByte dat → All (λ x. InRange (uint w8) no_tag big_endian x) dat
bytes-InRange dat h = h

payload-carried :
    (e : ℕ) (dat : List ℕ)
    → e < 2 ^ 32
    → All IsByte dat
    → length dat < 2 ^ 16
    → (bs : List ℕ) × (marshal_be hmac_token_payload (e, (dat, tt)) ≡ ok bs)
      × All IsByte bs
      × ((rest : List ℕ) → unmarshal_be hmac_token_payload (bs ++ rest) ≡ (ok (e, (dat, tt)), rest))
unfolding parse_oscar_tag codable wants_input marshal_elems
payload-carried e dat he hd short =
    let room = rw (← length-each_byte dat) at short in
    codable-carried hmac_token_payload (e, (dat, tt)) refl ((he, ((hd, room, tt), tt)), tt)

token-carried :
    (dat sig : List ℕ)
    → All IsByte dat
    → All IsByte sig
    → length dat < 2 ^ 16
    → length sig < 2 ^ 16
    → (bs : List ℕ) × (marshal_be hmac_token (dat, (sig, tt)) ≡ ok bs)
      × All IsByte bs
      × ((rest : List ℕ) → unmarshal_be hmac_token (bs ++ rest) ≡ (ok (dat, (sig, tt)), rest))
unfolding parse_oscar_tag codable wants_input marshal_elems
token-carried dat sig hd hs short short' =
    let room = rw (← length-each_byte dat) at short in
    let room' = rw (← length-each_byte sig) at short' in
    codable-carried hmac_token (dat, (sig, tt)) refl (((hd, room, tt), ((hs, room', tt), tt)), tt)

-- What package crypto promises of HMAC with SHA-256: 32 bytes.
pub record IsHmacSha256 (hmac : List ℕ → List ℕ → List ℕ) : Type 0 where
  pub sum_bytes : (key dat : List ℕ) → All IsByte (hmac key dat)
  pub sum_length : (key dat : List ℕ) → length (hmac key dat) ≡ 32

padded-short :
    (bs : List ℕ) → length bs ≤ 256 → padded bs ≡ done (bs ++ replicate (256 - length bs) 0)
unfolding padded
padded-short bs h = let e : ltb 256 (length bs) ≡ false = ground arith in rw e refl

padded-long : (bs : List ℕ) → 256 < length bs → padded bs ≡ failed (too_long (length bs))
unfolding padded
padded-long bs h = rw (lt→ltb 256 (length bs) h) refl

length-padding :
    (bs : List ℕ) → length bs ≤ 256 → length (bs ++ replicate (256 - length bs) 0) ≡ 256
length-padding bs h =
    rw
      (
        length-append bs (replicate (256 - length bs) 0),
        length-replicate {A = ℕ} (256 - length bs) 0,
      )
      (omega arith)

-- An issued cookie is a token with a signature of its payload, filled up to 256 bytes, and cracking it
-- with any key at any time comes to the comparison of two signatures and to the payload.
issued :
    (hmac : List ℕ → List ℕ → List ℕ) (key : List ℕ) (now : ℤ) (dat : List ℕ)
    → IsHmacSha256 hmac
    → All IsByte dat
    → length dat ≤ 214
    → unix_32 (now +ℤ pos (60 * 10 ^ 9)) < 2 ^ 32
    → (cookie : List ℕ) × (payload : List ℕ) × (marshal_be hmac_token_payload
          (unix_32 (now +ℤ pos (60 * 10 ^ 9)), (dat, tt))
        ≡ ok payload)
      × (issue hmac key now dat ≡ done cookie)
      × (length cookie ≡ 256)
      × ((other : List ℕ) (later : ℤ)
          → crack hmac other later cookie ≡ (
              if bytes_eq (hmac key payload) (hmac other payload)
              then crack_payload later (unix_32 (now +ℤ pos (60 * 10 ^ 9)), (dat, tt))
              else failed invalid))
unfolding issue crack validate
issued hmac key now dat hm hd short he =
    let e = unix_32 (now +ℤ pos (60 * 10 ^ 9)) in
    let (payload, written, ph, read) = payload-carried e dat he hd (omega arith) in
    let size = length-payload e dat payload written in
    let sum = hm.sum_length key payload in
    let (token, written', th, read') =
      token-carried payload (hmac key payload) ph (hm.sum_bytes key payload) (omega arith)
        (omega arith) in
    let size' = length-token payload (hmac key payload) token written' in
    let read_all : unmarshal_be hmac_token_payload payload ≡ (ok (e, (dat, tt)), []) =
      rw (append-nil payload) at (read []) in
    (
      token ++ replicate (256 - length token) 0,
      payload,
      written,
      rw (written, written') (padded-short token (omega arith)),
      length-padding token (omega arith),
      λ other later. rw (read' (replicate (256 - length token) 0), read_all) refl,
    )

+ℤ-pos : (a b : ℕ) → pos a +ℤ pos b ≡ pos (a + b)
unfolding ◌+ℤ◌
+ℤ-pos a b = ground arith

expiry : (n : ℕ) → n / 10 ^ 9 + 60 < 2 ^ 32 → unix_32 (pos n +ℤ pos (60 * 10 ^ 9)) ≡ n / 10 ^ 9 + 60
unfolding unix_32
expiry n h = rw (+ℤ-pos n (60 * 10 ^ 9)) (omega arith)

-- Whether a time comes after a second.
before : (a b : ℕ) → b ≤ a → ltb_ℤ (pos a) (pos b) ≡ false
before a b h = ground arith

after : (a b : ℕ) → a < b → ltb_ℤ (pos a) (pos b) ≡ true
after a b h = lt→ltb (a + 0) (b + 0) (omega arith)

-- A cookie that `Issue` makes of at most 214 bytes has exactly 256, and `Crack` with the same key returns
-- the bytes up to the instant a minute after the second of issue, rounded down, and the error for an
-- expired cookie from then on. The times are not before 1970, and the seconds fit into 32 bits.
pub crack-issue :
    (hmac : List ℕ → List ℕ → List ℕ) (key : List ℕ) (now : ℕ) (dat : List ℕ)
    → IsHmacSha256 hmac
    → All IsByte dat
    → length dat ≤ 214
    → now / 10 ^ 9 + 60 < 2 ^ 32
    → (cookie : List ℕ) × (issue hmac key (pos now) dat ≡ done cookie)
      × (length cookie ≡ 256)
      × ((later : ℕ)
          → later ≤ (now / 10 ^ 9 + 60) * 10 ^ 9
          → crack hmac key (pos later) cookie ≡ done dat)
      × ((later : ℕ)
          → (now / 10 ^ 9 + 60) * 10 ^ 9 < later
          → crack hmac key (pos later) cookie ≡ failed expired)
unfolding crack_payload
crack-issue hmac key now dat hm hd short h =
    let e = expiry now h in
    let (cookie, payload, written, made, size, cracked) =
      issued hmac key (pos now) dat hm hd short (rw e h) in
    (
      cookie,
      made,
      size,
      λ later k.
          rw
            (
              cracked key (pos later),
              bytes_eq_refl (hmac key payload),
              e,
              before ((now / 10 ^ 9 + 60) * 10 ^ 9) later k,
            )
            refl,
      λ later k.
          rw
            (
              cracked key (pos later),
              bytes_eq_refl (hmac key payload),
              e,
              after ((now / 10 ^ 9 + 60) * 10 ^ 9) later k,
            )
            refl,
    )

crack_payload-signed :
    (later : ℤ) (token : ℕ × (List ℕ × Unit {0})) → crack_payload later token ≢ failed invalid
unfolding crack_payload
crack_payload-signed later (e, (dat, end_)) =
    if_both (λ (c : CookieResult). c ≢ failed invalid) (ltb_ℤ (pos (e * 10 ^ 9)) later)
      (λ past. λ no. cc) (λ valid. λ no. cc)

-- The cookie that `Issue` makes of at most 214 bytes, with signatures of 32 bytes and seconds that fit into 32
-- bits, cracked with any key: it is refused as invalid, expired or not, exactly when the two keys sign the
-- marshalled payload, which is the expiry and the bytes, in different ways, and where they sign it alike the
-- outcome is that of the issuing key.
pub crack-issue_other_key :
    (hmac : List ℕ → List ℕ → List ℕ) (key other : List ℕ) (now later : ℕ) (dat : List ℕ)
    → IsHmacSha256 hmac
    → All IsByte dat
    → length dat ≤ 214
    → now / 10 ^ 9 + 60 < 2 ^ 32
    → (cookie : List ℕ) × (payload : List ℕ) × (issue hmac key (pos now) dat ≡ done cookie)
      × (marshal_be hmac_token_payload (now / 10 ^ 9 + 60, (dat, tt)) ≡ ok payload)
      × ((crack hmac other (pos later) cookie ≡ failed invalid)
          ↔ (hmac key payload ≢ hmac other payload))
      × (hmac key payload ≡ hmac other payload
          → crack hmac other (pos later) cookie ≡ crack hmac key (pos later) cookie)
crack-issue_other_key hmac key other now later dat hm hd short h =
    let e = expiry now h in
    let (cookie, payload, written, made, size, cracked) =
      issued hmac key (pos now) dat hm hd short (rw e h) in
    (
      cookie,
      payload,
      made,
      rw e at written,
      (
        λ refused. λ same. crack_payload-signed (pos later) _ (
            sym (rw (← same, bytes_eq_refl (hmac key payload)) at (cracked other (pos later)))
            ∙ refused),
        λ differ. rw (cracked other (pos later), bytes_eq-ne _ _ differ) refl,
      ),
      λ same. rw (cracked other (pos later), cracked key (pos later), same) refl,
    )

-- More than 214 bytes are refused, with the length that the cookie would have.
pub issue-too_long :
    (hmac : List ℕ → List ℕ → List ℕ) (key : List ℕ) (now : ℤ) (dat : List ℕ)
    → IsHmacSha256 hmac
    → 214 < length dat
    → issue hmac key now dat ≡ failed (too_long (length dat + 42))
unfolding issue
issue-too_long hmac key now dat hm long =
    let e = unix_32 (now +ℤ pos (60 * 10 ^ 9)) in
    let payload = put_uint w32 big_endian e ++ (block dat ++ []) in
    let size = length-payload e dat payload (marshal_be-payload e dat) in
    let token = block payload ++ (block (hmac key payload) ++ []) in
    let size' =
      length-token payload (hmac key payload) token (marshal_be-token payload (hmac key payload)) in
    let sum = hm.sum_length key payload in
    let total : length token ≡ length dat + 42 = omega arith in
    rw
      (
        marshal_be-payload e dat,
        marshal_be-token payload (hmac key payload),
        padded-long token (omega arith),
        total,
      )
      refl
