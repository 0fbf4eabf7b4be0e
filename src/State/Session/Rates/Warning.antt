-- ===== src/State/Session/Rates/Warning.antt =====
-- The channel of warnings that `ScaleWarningAndRateLimit` (state/session.go) sends on.
use go_icq.Prelude.{
  ℕ, zero, suc, ◌-◌, ◌^◌, ◌%◌, ◌≡◌, ◌∙◌, refl, Bool, true, false, Option, some, List, [], ◌∷◌,
  get_elem?, if◌then◌else◌, Bool-cases, inl, inr,
}
use go_icq.Prelude.Int.{ℤ, pos, ◌+ℤ◌, ltb_ℤ, pos_part}
use go_icq.Wire.RateLimit.{index}
use go_icq.State.Session.{Session, RateClassState}
use go_icq.State.Session.Relay.{receive_warning}
use go_icq.State.Session.Rates.Arrays.{set_elem, change}
use go_icq.State.Session.Rates.{
  Outcome, returns, blocks, or_panic, scale_state, send_warning, scale_rate_limit,
  scale_warning_and_rate_limit,
}

or_panic-some {ℓ κ} :
    {A : Type ℓ} {B : Type κ} (s : Session) (o : Option B) (b : B) (f : B → Outcome A)
    → o ≡ some b
    → or_panic s o f ≡ f b
or_panic-some s o b f e = rw e refl

-- An assignment takes no element away.
get_elem?-set_elem :
    {A : Type 0} (xs : List A) (i j : ℕ) (a x : A)
    → get_elem? xs j ≡ some x
    → (y : A) × (get_elem? (set_elem xs i a) j ≡ some y)
unfolding set_elem
get_elem?-set_elem [] i j a x h = (x, h)
get_elem?-set_elem (w ∷ xs) zero zero a x h = (a, refl)
get_elem?-set_elem (w ∷ xs) zero (suc j) a x h = (x, h)
get_elem?-set_elem (w ∷ xs) (suc i) zero a x h = (w, refl)
get_elem?-set_elem (w ∷ xs) (suc i) (suc j) a x h = get_elem?-set_elem xs i j a x h

index-change :
    {A : Type 0} (xs : List A) (i j : ℕ) (a x : A)
    → index xs j ≡ some x
    → (y : A) × (index (change xs i a) j ≡ some y)
unfolding index change
index-change xs zero zero a x h = get_elem?-set_elem xs (2 ^ 16 - 1) (2 ^ 16 - 1) a x h
index-change xs zero (suc j) a x h = get_elem?-set_elem xs (2 ^ 16 - 1) j a x h
index-change xs (suc i) zero a x h = get_elem?-set_elem xs i (2 ^ 16 - 1) a x h
index-change xs (suc i) (suc j) a x h = get_elem?-set_elem xs i j a x h

-- A class that both arrays of a session have.
abbrev pub HasClass : Session → ℕ → Type 0
HasClass s id =
    ((state : RateClassState) × (index s.rate_limit_states id ≡ some state))
    × ((original : RateClassState) × (index s.rate_limit_states_original id ≡ some original))

-- The warning after an increment that does not bring it above 1000.
abbrev pub warning_after : ℕ → ℤ → ℕ
warning_after w incr =
    let new = pos w +ℤ incr in if ltb_ℤ new (pos 0) then 0 else pos_part new % 2 ^ 16

-- A call for such a class comes to a send of the warning, with the classes kept.
abbrev pub Sends : Session → ℕ → Outcome (Bool × ℕ) → Type 0
Sends s w o =
    (s' : Session) × (o ≡ send_warning s')
    × (s'.warning ≡ w)
    × (s'.warning_ch ≡ s.warning_ch)
    × ((id : ℕ) → HasClass s id → HasClass s' id)

scale_rate_limit-Sends :
    (s : Session) (w : ℕ) (incr : ℤ) (id : ℕ)
    → HasClass s id
    → Sends s w (scale_rate_limit (record s { warning = w }) incr id)
unfolding scale_rate_limit
scale_rate_limit-Sends s w incr id ((state, e), (original, e')) = (
  record s {
    warning = w;
    rate_limit_states = change s.rate_limit_states id (scale_state incr state original);
  },
  or_panic-some _ _ state _ e ∙ or_panic-some _ _ original _ e',
  refl,
  refl,
  λ j. λ ((other, k), originals).
      (index-change s.rate_limit_states id j (scale_state incr state original) other k, originals),
)

scale_warning_and_rate_limit-Sends :
    (s : Session) (incr : ℤ) (id : ℕ)
    → HasClass s id
    → ltb_ℤ (pos 1000) (pos s.warning +ℤ incr) ≡ false
    → Sends s (warning_after s.warning incr) (scale_warning_and_rate_limit s incr id)
unfolding scale_warning_and_rate_limit
scale_warning_and_rate_limit-Sends s incr id h low =
    elim (Bool-cases (ltb_ℤ (pos s.warning +ℤ incr) (pos 0))) [
      | inl under ↦ rw under (scale_rate_limit-Sends s 0 incr id h)
      | inr over ↦ rw (over, low) (scale_rate_limit-Sends s _ incr id h)
    ]

send_warning-empty :
    (s : Session) (w : ℕ)
    → s.warning ≡ w
    → s.warning_ch ≡ []
    → send_warning s ≡ returns (true, w) (record s { warning_ch = w ∷ [] })
unfolding send_warning
send_warning-empty s w e h = rw (e, h) refl

send_warning-full : (s : Session) (w : ℕ) → s.warning_ch ≡ w ∷ [] → send_warning s ≡ blocks s
unfolding send_warning
send_warning-full s w h = rw h refl

-- Two calls, for classes that the session has, neither of which brings the warning above 1000, with an empty
-- channel at first. The first returns and leaves its warning in the channel. Unless that is taken, the second
-- blocks for good with the session's mutex held, and has then changed the warning already, of which nobody is
-- told; once the first warning is taken, the second call returns.
pub scale_warning_and_rate_limit-blocks :
    (s : Session) (incr incr' : ℤ) (id id' : ℕ)
    → s.warning_ch ≡ []
    → HasClass s id
    → HasClass s id'
    → ltb_ℤ (pos 1000) (pos s.warning +ℤ incr) ≡ false
    → ltb_ℤ (pos 1000) (pos (warning_after s.warning incr) +ℤ incr') ≡ false
    → (s1 : Session) × (scale_warning_and_rate_limit s incr id
        ≡ returns (true, warning_after s.warning incr) s1)
      × (s1.warning_ch ≡ warning_after s.warning incr ∷ [])
      × ((s2 : Session) × (scale_warning_and_rate_limit s1 incr' id' ≡ blocks s2)
          × (s2.warning ≡ warning_after s1.warning incr')
          × (s2.warning_ch ≡ s1.warning_ch))
      × ((s3 : Session) × (scale_warning_and_rate_limit (receive_warning s1).1 incr' id'
            ≡ returns (true, warning_after s1.warning incr') s3)
          × (s3.warning_ch ≡ warning_after s1.warning incr' ∷ []))
unfolding receive_warning
scale_warning_and_rate_limit-blocks s incr incr' id id' empty has has' low low' =
    let (a, sent, w, ch, keeps) = scale_warning_and_rate_limit-Sends s incr id has low in
    let s1 = record a { warning_ch = warning_after s.warning incr ∷ [] } in
    let low1 : ltb_ℤ (pos 1000) (pos a.warning +ℤ incr') ≡ false = rw w low' in
    let (b, sent', w', ch', keeps') =
      scale_warning_and_rate_limit-Sends s1 incr' id' (keeps id' has') low1 in
    let (c, sent'', w'', ch'', keeps'') =
      scale_warning_and_rate_limit-Sends (record s1 { warning_ch = [] }) incr' id' (keeps id' has')
        low1 in
    (
      s1,
      sent ∙ send_warning-empty a _ w (ch ∙ empty),
      refl,
      (b, sent' ∙ send_warning-full b _ ch', w', ch'),
      (
        record c { warning_ch = warning_after a.warning incr' ∷ [] },
        sent'' ∙ send_warning-empty c _ w'' ch'',
        refl,
      ),
    )
