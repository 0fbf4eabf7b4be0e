-- ===== src/State/Session/Valid/Levels.antt =====
-- Scaling and looking up rate classes element by element (state/session.go).
use go_icq.Prelude.{
  ℕ, zero, suc, ◌-◌, ◌≡◌, ◌^◌, refl, sym, ap, Bool, true, false, Option, none, some, List, [], ◌∷◌,
  get_elem?, All, arith,
}
use mathlib.Core.Path.{subst}
use go_icq.Prelude.Int.{ℤ, ◌≤ℤ◌}
use go_icq.Wire.RateLimit.{RateLimitStatus, RateClass, index}
use go_icq.State.Session.{RateClassState}
use go_icq.State.Session.Rates.{clamp, scale_class, fresh_states}
use go_icq.State.Session.Rates.Arrays.{change, set_elem}
use go_icq.State.Session.Observe.{Look, Looks, look, look_all, look_checked, look_if, add_look}
use go_icq.State.Session.Valid.{All2, Between, Sensible, ScaledFrom, StateOf}

pub some-injective {ℓ} : {A : Type ℓ} {a b : A} → some a ≡ some b → a ≡ b
some-injective e = cc

module _ {ℓ} {A B : Type ℓ} (R : A → B → Type 0) where
  partner :
      (xs : List A) (ys : List B) (i : ℕ) (x : A)
      → All2 R xs ys
      → get_elem? xs i ≡ some x
      → (y : B) × (get_elem? ys i ≡ some y) × R x y
  partner [] ys i x h e = absurd cc
  partner (x' ∷ xs) [] i x h e = absurd h
  partner (x' ∷ xs) (y ∷ ys) zero x h e = (y, refl, subst (λ z. R z y) (some-injective e) h.0)
  partner (x' ∷ xs) (y ∷ ys) (suc i) x h e = partner xs ys i x h.1 e

  set_elem-All2 :
      (xs : List A) (ys : List B) (i : ℕ) (x : A) (y : B)
      → All2 R xs ys
      → get_elem? ys i ≡ some y
      → R x y
      → All2 R (set_elem xs i x) ys
  unfolding set_elem
  set_elem-All2 [] ys i x y h e r = h
  set_elem-All2 (x' ∷ xs) [] i x y h e r = absurd h
  set_elem-All2 (x' ∷ xs) (y' ∷ ys) zero x y h e r =
      (subst (λ z. R x z) (sym (some-injective e)) r, h.1)
  set_elem-All2 (x' ∷ xs) (y' ∷ ys) (suc i) x y h e r = (h.0, set_elem-All2 xs ys i x y h.1 e r)

  pub index-All2 :
      (xs : List A) (ys : List B) (id : ℕ) (x : A)
      → All2 R xs ys
      → index xs id ≡ some x
      → (y : B) × (index ys id ≡ some y) × R x y
  unfolding index
  index-All2 xs ys zero x h e = partner xs ys (2 ^ 16 - 1) x h e
  index-All2 xs ys (suc n) x h e = partner xs ys n x h e

  pub change-All2 :
      (xs : List A) (ys : List B) (id : ℕ) (x : A) (y : B)
      → All2 R xs ys
      → index ys id ≡ some y
      → R x y
      → All2 R (change xs id x) ys
  unfolding index change
  change-All2 xs ys zero x y h e r = set_elem-All2 xs ys (2 ^ 16 - 1) x y h e r
  change-All2 xs ys (suc n) x y h e r = set_elem-All2 xs ys n x y h e r

clamp-Between : (n low high : ℤ) → low ≤ℤ high → Between low high (clamp n low high)
unfolding clamp
clamp-Between n low high h = ground arith

pub scale_class-ScaledFrom :
    (incr : ℤ) (original c : RateClass)
    → Sensible original
    → ScaledFrom original c
    → ScaledFrom original (scale_class incr original c)
unfolding scale_class
scale_class-ScaledFrom incr original c h k = record {
  same_id = k.same_id;
  same_window = k.same_window;
  same_disconnect = k.same_disconnect;
  same_max = k.same_max;
  limit_between = clamp-Between _ _ _ h.limit_max;
  clear_between = clamp-Between _ _ _ h.clear_max;
  alert_between = clamp-Between _ _ _ h.alert_max;
}

pub unscaled : (c : RateClass) → Sensible c → ScaledFrom c c
unscaled c h = record {
  same_id = refl;
  same_window = refl;
  same_disconnect = refl;
  same_max = refl;
  limit_between = (omega arith, h.limit_max);
  clear_between = (omega arith, h.clear_max);
  alert_between = (omega arith, h.alert_max);
}

-- New states are not scaled yet.
pub fresh_states-StateOf :
    (now : ℤ) (cs : List RateClass) (lasts : List RateClassState)
    → All Sensible cs
    → All2 StateOf (fresh_states now cs lasts) (fresh_states now cs lasts)
unfolding fresh_states
fresh_states-StateOf now [] lasts h = tt
fresh_states-StateOf now (c ∷ cs) [] h = tt
fresh_states-StateOf now (c ∷ cs) (last ∷ lasts) h =
    ((h.0, unscaled c h.0), fresh_states-StateOf now cs lasts h.1)

-- A look at the rate limits leaves the classes alone.
look_checked-class :
    (params last : RateClassState) (o : Option (RateLimitStatus × ℤ)) (this : Look)
    → look_checked params last o ≡ some this
    → this.state.class ≡ params.class
look_checked-class params last none this h = absurd cc
look_checked-class params last (some (status, level)) this h =
    ap (λ r. r.state.class) (sym (some-injective h))

look_if-class :
    (b : Bool) (params last : RateClassState) (o : Option (RateLimitStatus × ℤ)) (this : Look)
    → look_if b params last o ≡ some this
    → this.state.class ≡ params.class
look_if-class true params last o this h = look_checked-class params last o this h
look_if-class false params last o this h = ap (λ r. r.state.class) (sym (some-injective h))

look-class :
    (now : ℤ) (params last : RateClassState) (this : Look)
    → look now params last ≡ some this
    → this.state.class ≡ params.class
unfolding look
look-class now params last this h = look_if-class params.subscribed params last _ this h

add_look-StateOf :
    (o : Option Look) (params original : RateClassState) (stop rest : Looks)
    (originals : List RateClassState)
    → ((this : Look) → o ≡ some this → this.state.class ≡ params.class)
    → StateOf params original
    → All2 StateOf stop.states (original ∷ originals)
    → All2 StateOf rest.states originals
    → All2 StateOf (add_look o stop rest).states (original ∷ originals)
add_look-StateOf none params original stop rest originals same h hs hr = hs
add_look-StateOf (some this) params original stop rest originals same h hs hr =
    ((h.0, subst (λ c. ScaledFrom original.class c) (sym (same this refl)) h.1), hr)

pub look_all-StateOf :
    (now : ℤ) (states lasts originals : List RateClassState)
    → All2 StateOf states originals
    → All2 StateOf (look_all now states lasts).states originals
unfolding look_all
look_all-StateOf now [] lasts originals h = h
look_all-StateOf now (params ∷ states) [] originals h = h
look_all-StateOf now (params ∷ states) (last ∷ lasts) [] h = absurd h
look_all-StateOf now (params ∷ states) (last ∷ lasts) (original ∷ originals) h =
    add_look-StateOf (look now params last) params original _ (look_all now states lasts) originals
      (look-class now params last) h.0 h (look_all-StateOf now states lasts originals h.1)
