-- ===== src/State/Cookie.antt =====
-- The login cookies of state/cookie.go. HMAC with SHA-256 is a parameter, and so are the random key and the
-- time, in nanoseconds.
pub mod Laws
mod Tests
use go_icq.Prelude.{
  ℕ, ◌-◌, ◌*◌, ◌^◌, Bool, List, [], ◌∷◌, ◌++◌, length, replicate, ltb, bytes_eq, if◌then◌else◌,
}
use go_icq.Prelude.Int.{ℤ, pos, ◌+ℤ◌, ltb_ℤ}
use go_icq.Wire.Bytes.{w8, w16, w32}
use go_icq.Wire.Result.{Result, ok, err, panic, stuck, Error}
use go_icq.Wire.GoType.{GoType, uint, string, struct, Value}
use go_icq.Wire.Messages.{bytes, plain, tagged, fields}
use go_icq.Wire.Encode.{marshal_be}
use go_icq.Wire.Decode.{unmarshal_be}
use go_icq.State.Session.Info.{unix_32}

abbrev pub auth_cookie_len : ℕ
auth_cookie_len = 256

-- `ServerCookie`, `hmacTokenPayload` and `hmacToken` as the codec sees them.
abbrev pub server_cookie : GoType
server_cookie = struct "ServerCookie" (
    fields (
      plain (uint w16)
      ∷ tagged "len_prefix=uint8" string
      ∷ tagged "len_prefix=uint8" string
      ∷ tagged "len_prefix=uint8" string
      ∷ plain (uint w8)
      ∷ plain (uint w8)
      ∷ []))

abbrev pub hmac_token_payload : GoType
hmac_token_payload =
    struct "hmacTokenPayload" (fields (plain (uint w32) ∷ tagged "len_prefix=uint16" bytes ∷ []))

abbrev pub hmac_token : GoType
hmac_token =
    struct "hmacToken"
      (fields (tagged "len_prefix=uint16" bytes ∷ tagged "len_prefix=uint16" bytes ∷ []))

-- The errors that `Crack` and `Issue` return. The codec may also panic or not end.
pub data CookieError : Type 0 where
  codec : Error → CookieError
  invalid expired : CookieError
  too_long : ℕ → CookieError

pub data CookieResult : Type 0 where
  done : List ℕ → CookieResult
  failed : CookieError → CookieResult
  panicked spinning : CookieResult

abbrev pub on_codec : {A : Type 0} → Result A → (A → CookieResult) → CookieResult
on_codec (ok a) f = f a
on_codec (err e) f = failed (codec e)
on_codec panic f = panicked
on_codec stuck f = spinning

-- The padding to 256 bytes.
unfoldable pub padded : List ℕ → CookieResult
padded buf =
    if ltb auth_cookie_len (length buf)
    then failed (too_long (length buf))
    else done (buf ++ replicate (auth_cookie_len - length buf) 0)

-- `Issue` at a time. `hmac key` is the signature of a text.
unfoldable pub issue : (List ℕ → List ℕ → List ℕ) → List ℕ → ℤ → List ℕ → CookieResult
unfolding padded
issue hmac key now dat =
    let expiry = unix_32 (now +ℤ pos (60 * 10 ^ 9)) in
    on_codec (marshal_be hmac_token_payload (expiry, (dat, tt)))
      λ payload. on_codec (marshal_be hmac_token (payload, (hmac key payload, tt))) padded

-- `validate`: the signature is made again and compared.
unfoldable pub validate : (List ℕ → List ℕ → List ℕ) → List ℕ → Value hmac_token → Bool
validate hmac key token = bytes_eq token.1.0 (hmac key token.0)

-- After the signature: the payload is read, and expires at the second that it names.
unfoldable pub crack_payload : ℤ → Value hmac_token_payload → CookieResult
crack_payload now payload =
    if ltb_ℤ (pos (payload.0 * 10 ^ 9)) now then failed expired else done payload.1.0

unfoldable pub crack : (List ℕ → List ℕ → List ℕ) → List ℕ → ℤ → List ℕ → CookieResult
unfolding validate crack_payload
crack hmac key now dat = on_codec (unmarshal_be hmac_token dat).0 λ token.
    if validate hmac key token
    then on_codec (unmarshal_be hmac_token_payload token.0).0 (crack_payload now)
    else failed invalid
