-- ===== src/Wire/Snacs/Checked.antt =====
-- The message types of wire/snacs.go, tested one by one, and what follows for wire/encode.go and
-- wire/decode.go. All structs of the file are listed but `ICQMessageReplyEnvelope`, whose field of type any
-- can only be marshalled.
use go_icq.Prelude.{
  ℕ, zero, suc, ◌≡◌, ◌≢◌, ◌≤◌, refl, Bool, true, false, ◌&&◌, ◌||◌, some, List, [], ◌∷◌, ◌++◌,
  get_elem?, length, All, str_eq, and_parts,
}
use go_icq.Wire.Bytes.{IsByte, ByteOrder}
use go_icq.Wire.Result.{ok, stuck}
use go_icq.Wire.GoType.{GoType, Value, struct}
use go_icq.Wire.Tag.{no_tag, parse_oscar_tag}
use go_icq.Wire.Encode.{marshal}
use go_icq.Wire.Decode.{unmarshal}
use go_icq.Wire.Termination.{min_size, always_ends, unmarshal_ends}
use go_icq.Wire.Snacs.Codable.{wants_input, codable, InRange}
use go_icq.Wire.Snacs.Carried.{codable-round_trip}
use go_icq.Wire.Snacs.Blocks.{blocks_messages}
use go_icq.Wire.Snacs.Icq.{icq_messages}
use go_icq.Wire.Snacs.Kerberos.{kerberos_messages}
use go_icq.Wire.Snacs.Admin.{admin_messages}
use go_icq.Wire.Snacs.Bart.{bart_messages}
use go_icq.Wire.Snacs.Bucp.{bucp_messages}
use go_icq.Wire.Snacs.Buddy.{buddy_messages}
use go_icq.Wire.Snacs.Chat.{chat_messages}
use go_icq.Wire.Snacs.ChatNav.{chat_nav_messages}
use go_icq.Wire.Snacs.Deny.{deny_messages}
use go_icq.Wire.Snacs.Feedbag.{feedbag_messages}
use go_icq.Wire.Snacs.Icbm.{icbm_messages}
use go_icq.Wire.Snacs.Locate.{locate_messages}
use go_icq.Wire.Snacs.Misc.{misc_messages}
use go_icq.Wire.Snacs.ODir.{odir_messages}
use go_icq.Wire.Snacs.Service.{service_messages}

-- The groups of wire/snacs.go, one behind the other.
abbrev pub messages : List GoType
messages =
    blocks_messages ++ icq_messages ++ kerberos_messages ++ admin_messages ++ bart_messages
    ++ bucp_messages ++ buddy_messages ++ chat_messages ++ chat_nav_messages ++ deny_messages
    ++ feedbag_messages ++ icbm_messages ++ locate_messages ++ misc_messages ++ odir_messages
    ++ service_messages

abbrev every : (GoType → Bool) → List GoType → Bool
every f [] = true
every f (t ∷ ts) = f t && every f ts

every-get_elem? :
    (f : GoType → Bool) (ts : List GoType) (i : ℕ) (t : GoType)
    → every f ts ≡ true
    → get_elem? ts i ≡ some t
    → f t ≡ true
every-get_elem? f [] i t h e = cc
every-get_elem? f (x ∷ ts) zero t h e = let fx = (and_parts (f x) _ h).0 in cc
every-get_elem? f (x ∷ ts) (suc i) t h e = every-get_elem? f ts i t (and_parts (f x) _ h).1 e

-- The reply with the rate classes: each class ends in an optional struct that others may follow.
abbrev pub is_rate_params_reply : GoType → Bool
is_rate_params_reply (struct name fs) = str_eq name "SNAC_0x01_0x07_OServiceRateParamsReply"
is_rate_params_reply _ = false

messages-codable : every (λ t. is_rate_params_reply t || codable true t no_tag) messages ≡ true
unfolding codable wants_input parse_oscar_tag
messages-codable = refl

messages_end : every (λ t. always_ends t no_tag) messages ≡ true
unfolding always_ends min_size parse_oscar_tag
messages_end = refl

-- Unmarshalling any of the message types, which are all but `ICQMessageReplyEnvelope`, ends on every input, in
-- either byte order, whatever stands in the length and count prefixes; it puts nothing back.
pub unmarshal_message-ends :
    (i : ℕ) (t : GoType) (order : ByteOrder) (bs : List ℕ)
    → get_elem? messages i ≡ some t
    → ((unmarshal t no_tag order bs).0 ≢ stuck)
      × (length (unmarshal t no_tag order bs).1 ≤ length bs)
unmarshal_message-ends i t order bs h =
    let ends = every-get_elem? (λ x. always_ends x no_tag) messages i t messages_end h in
    let (a, b, c) = unmarshal_ends t no_tag order bs ends in (a, b)

-- Every message type but `ICQMessageReplyEnvelope`, whose field of type any can only be marshalled, and the
-- reply with the rate classes carries its values: in either byte order, a value
-- whose numbers, strings and lists are in range is marshalled to bytes without an error, and
-- unmarshalling the bytes gives the value back and leaves nothing.
pub message-round_trip :
    (i : ℕ) (t : GoType) (order : ByteOrder) (v : Value t)
    → get_elem? messages i ≡ some t
    → is_rate_params_reply t ≡ false
    → InRange t no_tag order v
    → (bs : List ℕ) × (marshal t no_tag order v ≡ ok bs)
      × All IsByte bs
      × (unmarshal t no_tag order bs ≡ (ok v, []))
message-round_trip i t order v h named r =
    let tested =
      every-get_elem? (λ x. is_rate_params_reply x || codable true x no_tag) messages i t
        messages-codable h in
    codable-round_trip t order v (rw named at tested) r
