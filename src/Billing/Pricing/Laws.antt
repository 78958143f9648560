-- ===== src/Billing/Pricing/Laws.antt =====
-- The prices: rounded up by less than a cent, monotone, and over-estimated where no tier fits.
use native.Mathlib.Nat.{mul-le-mul_right, mul-le-mul_left}
use Prim.Native.String.{◌++◌ as str_append}
use llmxy.Prelude.{
  ℕ, ◌+◌, ◌*◌, ◌≤◌, ◌<◌, ◌≡◌, ℤ, ◌≤ℤ◌, pos_part, none, some, List, [], ◌∷◌, String, true, false,
  arith, All, All-weaken, Option-cases, ◌⊎◌, inl, inr,
}
use llmxy.Models.{Model, Tier, ImagePricing}
use llmxy.Billing.Pricing.Rounding.{double_exact, IsQuotient, ceil_of_quotient}
use llmxy.Billing.Pricing.{
  ceil_div, fallback_price, calc_cost_cents, tier_fits, first_fitting, max_price,
  match_image_tier_micro, quote_image_cost_cents, out_tokens,
}

abbrev pub micro_of : Model → ℕ → ℕ → ℕ
micro_of m p c = p * m.prompt_rate + c * m.completion_rate

-- For less than 2 ^ 53 micro-cents, let a double be their quotient by ten million, rounded to the
-- nearest. The cost in cents covers the micro-cents used, exceeds them by less than one cent, and is
-- the ceiling of the double.
pub calc_cost_cents_tight :
    (m : Model) (p c num den : ℕ)
    → micro_of m p c < double_exact
    → IsQuotient (micro_of m p c) num den
    → (micro_of m p c ≤ calc_cost_cents (some m) p c * 10_000_000)
      × (calc_cost_cents (some m) p c * 10_000_000 < micro_of m p c + 10_000_000)
      × (num ≤ calc_cost_cents (some m) p c * den)
      × (calc_cost_cents (some m) p c * den < num + den)
unfolding calc_cost_cents ceil_div
calc_cost_cents_tight m p c num den small q =
    let cost = calc_cost_cents (some m) p c in
    let covers : micro_of m p c ≤ cost * 10_000_000 = omega arith in
    let tight : cost * 10_000_000 < micro_of m p c + 10_000_000 = omega arith in
    let (above, below) = ceil_of_quotient (micro_of m p c) cost num den small q covers tight in
    (covers, tight, above, below)

-- Billing two calls apart never costs less than billing their tokens together, and at most one cent
-- more.
pub calc_cost_cents_split :
    (m : Model) (p c p' c' : ℕ)
    → (calc_cost_cents (some m) (p + p') (c + c')
        ≤ calc_cost_cents (some m) p c + calc_cost_cents (some m) p' c')
      × (calc_cost_cents (some m) p c + calc_cost_cents (some m) p' c'
          ≤ calc_cost_cents (some m) (p + p') (c + c') + 1)
unfolding calc_cost_cents ceil_div
calc_cost_cents_split m p c p' c' = omega arith

pos_part_mono : (n k : ℤ) → n ≤ℤ k → pos_part n ≤ pos_part k
pos_part_mono n k h = ground arith

-- More images never cost less, whichever pricing mode the model has.
pub quote_image_cost_cents_mono :
    (m : Model) (size quality : String) (n k : ℤ) (prompt : String)
    → n ≤ℤ k
    → (quote_image_cost_cents m size quality n prompt).0
      ≤ (quote_image_cost_cents m size quality k prompt).0
unfolding quote_image_cost_cents ceil_div
quote_image_cost_cents_mono m size quality n k prompt h =
    let le = pos_part_mono n k h in
    let key = str_append size (str_append "|" quality) in
    let out = out_tokens key m.pricing.output_tokens m.pricing.default_out_tokens in
    let images = mul-le-mul_left out le in
    let tokens = mul-le-mul_right m.completion_rate images in
    let units = mul-le-mul_left (match_image_tier_micro m.pricing size quality) le in
    ground (arith, tokens, units)

max_price_above : (ts : List Tier) → All (λ t. t.price_micro ≤ max_price ts) ts
unfolding max_price
max_price_above [] = tt
max_price_above (t ∷ ts) = (
  omega arith,
  All-weaken (λ u. u.price_micro ≤ max_price ts) (λ u. u.price_micro ≤ max_price (t ∷ ts)) ts
      (λ u h. omega arith) (max_price_above ts),
)

abbrev pub Fits : String → String → Tier → Type 0
Fits size quality t = tier_fits size quality t ≡ true

first_fitting-some :
    (size quality : String) (ts : List Tier) (t : Tier)
    → first_fitting size quality ts ≡ some t
    → Fits size quality t
unfolding first_fitting
first_fitting-some size quality [] t h = cc
first_fitting-some size quality (u ∷ ts) t h = ground (arith, first_fitting-some size quality ts t)

first_fitting-none :
    (size quality : String) (ts : List Tier)
    → first_fitting size quality ts ≡ none
    → All (λ t. tier_fits size quality t ≡ false) ts
unfolding first_fitting
first_fitting-none size quality [] h = tt
first_fitting-none size quality (u ∷ ts) h = ground (arith, first_fitting-none size quality ts)

fallback_price_above : (ts : List Tier) (d : ℕ) → All (λ t. t.price_micro ≤ fallback_price ts d) ts
fallback_price_above [] d = tt
fallback_price_above (t ∷ ts) d = max_price_above (t ∷ ts)

-- The unit price is that of a tier that fits the size and quality, or no tier fits and it is at
-- least the price of every tier.
pub match_image_tier_micro_lem :
    (cfg : ImagePricing) (size quality : String)
    → (All (λ t. tier_fits size quality t ≡ false) cfg.tiers
        × All (λ t. t.price_micro ≤ match_image_tier_micro cfg size quality) cfg.tiers)
      ⊎ ((t : Tier) × Fits size quality t
          × (match_image_tier_micro cfg size quality ≡ t.price_micro))
unfolding match_image_tier_micro
match_image_tier_micro_lem cfg size quality =
    elim (Option-cases (first_fitting size quality cfg.tiers)) [
      | inl e ↦ inl (
        first_fitting-none size quality cfg.tiers e,
        rw (e, match_image_tier_micro) (fallback_price_above cfg.tiers cfg.default_price_micro),
      )
      | inr (t, e) ↦
          inr (t, first_fitting-some size quality cfg.tiers t e, rw (e, match_image_tier_micro))
    ]
