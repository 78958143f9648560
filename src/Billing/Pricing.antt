-- ===== src/Billing/Pricing.antt =====
-- Prices of api/app/services/billing.py: `calc_cost_cents`, `_match_image_tier_micro` and
-- `quote_image_cost_cents`. Rates, token counts and tier prices are non-negative. The source divides
-- floats before `ceil`; the model rounds the exact quotient up.
pub mod Laws
pub mod Rounding
use Prim.Native.String.{◌++◌ as str_append, count}
use llmxy.Prelude.{
  ℕ, ◌+◌, ◌-◌, ◌*◌, ◌/◌, max, ℤ, pos_part, Option, none, some, List, [], ◌∷◌, String, str_eq, Bool,
  true, if◌then◌else◌, or_else, ◌&&◌,
}
use llmxy.Models.{Model, Tier, ImagePricing}

-- `ceil(a / b)`
unfoldable pub ceil_div : ℕ → ℕ → ℕ
ceil_div a b = (a + (b - 1)) / b

unfoldable pub calc_cost_cents : Option Model → ℕ → ℕ → ℕ
calc_cost_cents none prompt_tokens completion_tokens = 0
calc_cost_cents (some model) prompt_tokens completion_tokens =
    let micro = prompt_tokens * model.prompt_rate + completion_tokens * model.completion_rate in
    ceil_div micro 10_000_000

-- `tq is None or str(tq) == quality`
abbrev pub quality_fits : Option String → String → Bool
quality_fits none quality = true
quality_fits (some tq) quality = str_eq tq quality

abbrev pub tier_fits : String → String → Tier → Bool
tier_fits size quality t = str_eq t.size size && quality_fits t.quality quality

-- The loop over the tiers: the first that fits.
unfoldable pub first_fitting : String → String → List Tier → Option Tier
first_fitting size quality [] = none
first_fitting size quality (t ∷ ts) =
    let rest = first_fitting size quality ts in if tier_fits size quality t then some t else rest

-- `max(price for t in tiers)`
unfoldable pub max_price : List Tier → ℕ
max_price [] = 0
max_price (t ∷ ts) = max t.price_micro (max_price ts)

abbrev fallback_price : List Tier → ℕ → ℕ
fallback_price [] default = default
fallback_price (t ∷ ts) default = max_price (t ∷ ts)

unfoldable pub match_image_tier_micro : ImagePricing → String → String → ℕ
match_image_tier_micro cfg size quality = elim (first_fitting size quality cfg.tiers) [
  | some t ↦ t.price_micro
  | none ↦ fallback_price cfg.tiers cfg.default_price_micro
]

-- `out_map.get(key, default)`
unfoldable pub out_tokens : String → List (String × ℕ) → ℕ → ℕ
out_tokens key [] default = default
out_tokens key ((k, v) ∷ rest) default = if str_eq k key then v else out_tokens key rest default

abbrev pub is_token_mode : ImagePricing → Bool
is_token_mode cfg = str_eq (or_else cfg.mode "per_image") "token"

-- `max(1, len(prompt_text) // 4) if prompt_text else 0`
unfoldable pub prompt_tokens_est : String → ℕ
prompt_tokens_est prompt_text = if str_eq prompt_text "" then 0 else max 1 (count prompt_text / 4)

pub data QuoteMeta : Type 0 where
  token : String → String → ℕ → ℕ → QuoteMeta
  per_image : String → String → ℕ → QuoteMeta

unfoldable pub quote_image_cost_cents : Model → String → String → ℤ → String → ℕ × QuoteMeta
quote_image_cost_cents model size quality n' prompt_text =
    let cfg = model.pricing in
    let n = pos_part n' in
    if is_token_mode cfg
    then (let key = str_append size (str_append "|" quality) in
        let out_per = out_tokens key cfg.output_tokens cfg.default_out_tokens in
        let prompt_tokens = prompt_tokens_est prompt_text in
        let micro = prompt_tokens * model.prompt_rate + out_per * n * model.completion_rate in
        (ceil_div micro 10_000_000, QuoteMeta.token size quality out_per prompt_tokens))
    else (let unit = match_image_tier_micro cfg size quality in
        (ceil_div (unit * n) 10_000, QuoteMeta.per_image size quality unit))
