-- ===== src/State/ChatRoom/Laws.antt =====
-- What the cookie and the TLVs of a chat room (state/chat.go) say of it.
use go_icq.Prelude.{
  ℕ, ◌^◌, ◌<◌, ◌≡◌, refl, sym, ap, ◌∙◌, true, false, List, [], ◌∷◌, ◌++◌, All, arith,
}
use go_icq.Prelude.Int.{ℤ, pos, negsuc}
use go_icq.Wire.Bytes.{w32, big_endian, put_uint, get_uint, get_uint-put_uint}
use go_icq.Wire.Result.{ok}
use go_icq.Wire.Tag.{no_tag}
use go_icq.Wire.Encode.{marshal, marshal_be, marshal_string, with_terminator}
use go_icq.Wire.Messages.{Tlv}
use go_icq.Wire.TlvList.{
  found, bytes, string, uint16_be, uint16, uint32_be, uint32, fixed, new_tlv_be, new_tlv,
  marshal_content,
}
use go_icq.State.Text.{is_decimal, decimal, number, atoi}
use go_icq.State.Text.Laws.{atoi-decimal, decimal-digits}
use go_icq.State.Session.Info.{unix_32}
use go_icq.State.ChatRoom.{ChatRoom, cookie, tlv_list}

dash_digit : (b : ℕ) → b'-' ≡ b → is_decimal b ≡ true → ⊥
dash_digit b e h = let no : false ≡ true = rw (← e) at h in cc

-- Text of digits ends at the first dash.
same_front :
    (s t x y : List ℕ)
    → All (λ b. is_decimal b ≡ true) s
    → All (λ b. is_decimal b ≡ true) t
    → s ++ (b'-' ∷ x) ≡ t ++ (b'-' ∷ y)
    → (s ≡ t) × (x ≡ y)
same_front [] [] x y h k e = (refl, cc)
same_front [] (b ∷ t) x y h (k, ks) e = let d : b'-' ≡ b = cc in absurd (dash_digit b d k)
same_front (a ∷ s) [] x y (h, hs) k e = let d : b'-' ≡ a = cc in absurd (dash_digit a d h)
same_front (a ∷ s) (b ∷ t) x y (h, hs) (k, ks) e =
    let tails : s ++ (b'-' ∷ x) ≡ t ++ (b'-' ∷ y) = cc in
    let (same, rest) = same_front s t x y hs ks tails in
    let first : a ≡ b = cc in (rw (first, same) refl, rest)

number-injective : (m n : ℕ) → number (pos m) ≡ number (pos n) → m ≡ n
number-injective m n e = cc

-- Rooms with the same cookie have the same name and are of the same exchange, a number of 16 bits: no name
-- can be chosen so that a room is taken for one of another exchange or name.
pub cookie-injective :
    (a b : ChatRoom)
    → a.exchange < 2 ^ 16
    → b.exchange < 2 ^ 16
    → cookie a ≡ cookie b
    → (a.exchange ≡ b.exchange) × (a.name ≡ b.name)
unfolding cookie
cookie-injective a b h k e =
    let (front, rest) =
      same_front (decimal a.exchange) (decimal b.exchange) _ _ (decimal-digits a.exchange)
        (decimal-digits b.exchange) e in
    let (zeros, names) =
      same_front (decimal 0) (decimal 0) a.name b.name (decimal-digits 0) (decimal-digits 0) rest in
    let left = atoi-decimal a.exchange (omega arith) in
    let right = atoi-decimal b.exchange (omega arith) in
    (number-injective _ _ (sym left ∙ ap atoi front ∙ right), names)

unterminated : (s : List ℕ) → with_terminator no_tag s ≡ s
unterminated [] = refl
unterminated (b ∷ s) = refl

unix_32_bound : (t : ℤ) → unix_32 t < 2 ^ 32
unfolding unix_32
unix_32_bound (pos n) = omega arith
unix_32_bound (negsuc n) = omega arith

second_read : (x : ℕ) → x < 2 ^ 32 → get_uint big_endian (put_uint w32 big_endian x) ≡ x
second_read x h = get_uint-put_uint w32 big_endian x h

-- The list of TLVs is made without a panic for every room, and what a client looks up in it is the room's
-- name, under both tags, the second in which it was made, the largest message and the largest number
-- of people.
pub tlv_list-holds :
    (c : ChatRoom)
    → (tlvs : List Tlv) × (tlv_list c ≡ ok tlvs)
      × (string tlvs 0xD3 ≡ found c.name)
      × (string tlvs 0x6A ≡ found c.name)
      × (uint32_be tlvs 0xCA ≡ found (unix_32 c.create_time))
      × (uint16_be tlvs 0xD1 ≡ found 1024)
      × (uint16_be tlvs 0xD2 ≡ found 100)
unfolding tlv_list new_tlv_be new_tlv marshal_content marshal_be marshal marshal_string string bytes
    uint16_be uint16 uint32_be uint32 fixed put_uint get_uint
tlv_list-holds c = (
  _,
  refl,
  ap found (unterminated c.name),
  ap found (unterminated c.name),
  ap found (second_read (unix_32 c.create_time) (unix_32_bound c.create_time)),
  refl,
  refl,
)
