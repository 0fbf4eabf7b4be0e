-- ===== src/Wire/RateLimit/Table.antt =====
-- `DefaultSNACRateLimits` of wire/rate_limit.go: the class of each SNAC, a list for each food group
-- with the sub group's number and the class. The numbers are those of the constants of wire/snacs.go.
use go_icq.Prelude.{ℕ, List, [], ◌∷◌}
use go_icq.Wire.RateLimit.{SnacRateLimits}

abbrev pub o_service_limits : List (ℕ × ℕ)
o_service_limits =
    (0x01, 1)
    ∷ (0x02, 1)
    ∷ (0x03, 1)
    ∷ (0x04, 1)
    ∷ (0x05, 1)
    ∷ (0x06, 1)
    ∷ (0x07, 1)
    ∷ (0x08, 1)
    ∷ (0x09, 1)
    ∷ (0x0A, 1)
    ∷ (0x0B, 1)
    ∷ (0x0C, 1)
    ∷ (0x0D, 1)
    ∷ (0x0E, 1)
    ∷ (0x0F, 1)
    ∷ (0x10, 1)
    ∷ (0x11, 1)
    ∷ (0x12, 1)
    ∷ (0x13, 1)
    ∷ (0x14, 1)
    ∷ (0x15, 1)
    ∷ (0x16, 1)
    ∷ (0x17, 1)
    ∷ (0x18, 1)
    ∷ (0x19, 1)
    ∷ (0x1A, 1)
    ∷ (0x1B, 1)
    ∷ (0x1C, 1)
    ∷ (0x1D, 1)
    ∷ (0x1E, 1)
    ∷ (0x1F, 1)
    ∷ (0x20, 1)
    ∷ (0x21, 1)
    ∷ (0x22, 1)
    ∷ (0x23, 1)
    ∷ []

abbrev pub locate_limits : List (ℕ × ℕ)
locate_limits =
    (0x01, 1)
    ∷ (0x02, 1)
    ∷ (0x03, 1)
    ∷ (0x04, 1)
    ∷ (0x05, 3)
    ∷ (0x06, 1)
    ∷ (0x07, 1)
    ∷ (0x08, 1)
    ∷ (0x09, 4)
    ∷ (0x0A, 1)
    ∷ (0x0B, 4)
    ∷ (0x0C, 1)
    ∷ (0x0D, 1)
    ∷ (0x0E, 1)
    ∷ (0x0F, 1)
    ∷ (0x10, 1)
    ∷ (0x11, 1)
    ∷ (0x12, 1)
    ∷ (0x13, 1)
    ∷ (0x14, 1)
    ∷ (0x15, 1)
    ∷ []

abbrev pub buddy_limits : List (ℕ × ℕ)
buddy_limits =
    (0x01, 1)
    ∷ (0x02, 1)
    ∷ (0x03, 1)
    ∷ (0x04, 2)
    ∷ (0x05, 2)
    ∷ (0x06, 1)
    ∷ (0x07, 1)
    ∷ (0x08, 1)
    ∷ (0x09, 1)
    ∷ (0x0A, 1)
    ∷ (0x0B, 1)
    ∷ (0x0C, 1)
    ∷ (0x0F, 1)
    ∷ (0x10, 1)
    ∷ []

abbrev pub icbm_limits : List (ℕ × ℕ)
icbm_limits =
    (0x01, 1)
    ∷ (0x02, 1)
    ∷ (0x03, 1)
    ∷ (0x04, 1)
    ∷ (0x05, 1)
    ∷ (0x06, 3)
    ∷ (0x07, 1)
    ∷ (0x08, 1)
    ∷ (0x09, 1)
    ∷ (0x0A, 1)
    ∷ (0x0B, 1)
    ∷ (0x0C, 1)
    ∷ (0x0D, 1)
    ∷ (0x0E, 1)
    ∷ (0x0F, 1)
    ∷ (0x10, 1)
    ∷ (0x11, 1)
    ∷ (0x12, 1)
    ∷ (0x13, 1)
    ∷ (0x14, 1)
    ∷ []

abbrev pub advert_limits : List (ℕ × ℕ)
advert_limits = (0x01, 1) ∷ (0x02, 1) ∷ (0x03, 1) ∷ []

abbrev pub invite_limits : List (ℕ × ℕ)
invite_limits = (0x01, 1) ∷ (0x02, 1) ∷ (0x03, 1) ∷ []

abbrev pub admin_limits : List (ℕ × ℕ)
admin_limits =
    (0x01, 1)
    ∷ (0x02, 1)
    ∷ (0x03, 1)
    ∷ (0x04, 1)
    ∷ (0x05, 1)
    ∷ (0x06, 1)
    ∷ (0x07, 1)
    ∷ (0x08, 1)
    ∷ (0x09, 1)
    ∷ []

abbrev pub popup_limits : List (ℕ × ℕ)
popup_limits = (0x01, 1) ∷ (0x02, 1) ∷ []

abbrev pub permit_deny_limits : List (ℕ × ℕ)
permit_deny_limits =
    (0x01, 1)
    ∷ (0x02, 1)
    ∷ (0x03, 1)
    ∷ (0x04, 1)
    ∷ (0x05, 2)
    ∷ (0x06, 2)
    ∷ (0x07, 2)
    ∷ (0x08, 2)
    ∷ (0x09, 1)
    ∷ (0x0A, 1)
    ∷ (0x0B, 1)
    ∷ []

abbrev pub user_lookup_limits : List (ℕ × ℕ)
user_lookup_limits = (0x01, 1) ∷ (0x02, 1) ∷ (0x03, 1) ∷ []

abbrev pub stats_limits : List (ℕ × ℕ)
stats_limits = (0x01, 1) ∷ (0x02, 1) ∷ (0x03, 1) ∷ (0x04, 1) ∷ []

abbrev pub translate_limits : List (ℕ × ℕ)
translate_limits = (0x01, 1) ∷ (0x02, 1) ∷ (0x03, 1) ∷ []

abbrev pub chat_nav_limits : List (ℕ × ℕ)
chat_nav_limits =
    (0x01, 1)
    ∷ (0x02, 1)
    ∷ (0x03, 1)
    ∷ (0x04, 1)
    ∷ (0x05, 1)
    ∷ (0x06, 1)
    ∷ (0x07, 1)
    ∷ (0x08, 1)
    ∷ (0x09, 1)
    ∷ []

abbrev pub chat_limits : List (ℕ × ℕ)
chat_limits =
    (0x01, 1)
    ∷ (0x02, 1)
    ∷ (0x03, 1)
    ∷ (0x04, 1)
    ∷ (0x05, 2)
    ∷ (0x06, 1)
    ∷ (0x07, 1)
    ∷ (0x08, 1)
    ∷ (0x09, 1)
    ∷ []

abbrev pub o_dir_limits : List (ℕ × ℕ)
o_dir_limits = (0x01, 1) ∷ (0x02, 1) ∷ (0x03, 1) ∷ (0x04, 1) ∷ []

abbrev pub bart_limits : List (ℕ × ℕ)
bart_limits = (0x01, 1) ∷ (0x02, 1) ∷ (0x04, 1) ∷ (0x06, 1) ∷ []

abbrev pub feedbag_limits : List (ℕ × ℕ)
feedbag_limits =
    (0x01, 1)
    ∷ (0x02, 1)
    ∷ (0x03, 1)
    ∷ (0x04, 1)
    ∷ (0x05, 1)
    ∷ (0x06, 1)
    ∷ (0x07, 1)
    ∷ (0x08, 1)
    ∷ (0x09, 1)
    ∷ (0x0A, 1)
    ∷ (0x0B, 1)
    ∷ (0x0C, 1)
    ∷ (0x0D, 1)
    ∷ (0x0E, 1)
    ∷ (0x0F, 1)
    ∷ (0x10, 1)
    ∷ (0x11, 1)
    ∷ (0x12, 1)
    ∷ (0x13, 1)
    ∷ (0x14, 1)
    ∷ (0x15, 1)
    ∷ (0x16, 1)
    ∷ (0x17, 1)
    ∷ (0x18, 1)
    ∷ (0x19, 1)
    ∷ (0x1A, 1)
    ∷ (0x1B, 1)
    ∷ (0x1C, 1)
    ∷ (0x1D, 1)
    ∷ (0x1E, 1)
    ∷ (0x1F, 1)
    ∷ (0x20, 1)
    ∷ (0x21, 1)
    ∷ (0x22, 1)
    ∷ (0x23, 1)
    ∷ (0x24, 1)
    ∷ (0x25, 1)
    ∷ (0x26, 1)
    ∷ (0x27, 1)
    ∷ (0x28, 1)
    ∷ []

abbrev pub icq_limits : List (ℕ × ℕ)
icq_limits = (0x01, 1) ∷ (0x02, 1) ∷ (0x03, 1) ∷ []

abbrev pub bucp_limits : List (ℕ × ℕ)
bucp_limits = (0x01, 1) ∷ (0x02, 1) ∷ (0x04, 1) ∷ (0x06, 1) ∷ (0x08, 1) ∷ (0x0A, 1) ∷ (0x0C, 1) ∷ []

abbrev pub alert_limits : List (ℕ × ℕ)
alert_limits =
    (0x01, 1)
    ∷ (0x02, 1)
    ∷ (0x04, 1)
    ∷ (0x06, 1)
    ∷ (0x07, 1)
    ∷ (0x08, 1)
    ∷ (0x0A, 1)
    ∷ (0x0D, 1)
    ∷ (0x0E, 1)
    ∷ (0x0F, 1)
    ∷ (0x10, 1)
    ∷ (0x11, 1)
    ∷ (0x12, 1)
    ∷ (0x15, 1)
    ∷ (0x16, 1)
    ∷ (0x17, 1)
    ∷ []

unfoldable pub default_snac_rate_limits : SnacRateLimits
default_snac_rate_limits =
    (0x01, o_service_limits)
    ∷ (0x02, locate_limits)
    ∷ (0x03, buddy_limits)
    ∷ (0x04, icbm_limits)
    ∷ (0x05, advert_limits)
    ∷ (0x06, invite_limits)
    ∷ (0x07, admin_limits)
    ∷ (0x08, popup_limits)
    ∷ (0x09, permit_deny_limits)
    ∷ (0x0A, user_lookup_limits)
    ∷ (0x0B, stats_limits)
    ∷ (0x0C, translate_limits)
    ∷ (0x0D, chat_nav_limits)
    ∷ (0x0E, chat_limits)
    ∷ (0x0F, o_dir_limits)
    ∷ (0x10, bart_limits)
    ∷ (0x13, feedbag_limits)
    ∷ (0x15, icq_limits)
    ∷ (0x17, bucp_limits)
    ∷ (0x18, alert_limits)
    ∷ []
