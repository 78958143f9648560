-- ===== src/Samples.antt =====
-- Small tables and rows on which the examples run.
use llmxy.Prelude.{ℕ, pos, none, some, [], ◌∷◌, true, false, ℤ}
use llmxy.Datetime.{Datetime}
use llmxy.Models.{
  User, UserStatus, ApiKey, KeyStatus, QuotaMode, QuotaPeriod, Plan, PlanType, Subscription,
  SubStatus, ImagePricing, Model,
}
use llmxy.Db.{Db}

-- 31 December 2025, noon.
abbrev pub noon : Datetime
noon = record { year = 2025; month = 12; day = 31; micros = 43_200_000_000 }

abbrev pub new_year : Datetime
new_year = record { year = 2026; month = 1; day = 1; micros = 0 }

abbrev pub february : Datetime
february = record { year = 2026; month = 2; day = 1; micros = 0 }

abbrev pub alice : User
alice = record { id = 1; balance_cents = pos 500; status = UserStatus.active }

abbrev pub bob : User
bob = record { id = 2; balance_cents = pos 7; status = UserStatus.active }

abbrev pub key : ApiKey
key = record {
  id = 4;
  user_id = 1;
  key_hash = "h4";
  status = KeyStatus.active;
  quota_cents = pos 1000;
  used_cents = pos 10;
  expires_at = some february;
  quota_mode = QuotaMode.periodic;
  quota_period = some QuotaPeriod.day;
  quota_period_start = some (record noon { day = 20 });
  quota_period_end = some (record noon { day = 21 });
}

abbrev pub monthly : Plan
monthly = record {
  id = 1;
  code = "pro";
  plan_type = PlanType.recurring;
  price_cents = pos 300;
  quota_cents = pos 1000;
  duration_days = pos 30;
  rpm = some (pos 90);
  max_purchases_per_user = none;
  active = true;
}

abbrev pub trial : Plan
trial = record monthly {
  id = 2;
  code = "trial";
  plan_type = PlanType.one_time;
  price_cents = pos 0;
  max_purchases_per_user = some 1;
}

abbrev pub subscription : ℕ → ℕ → Datetime → ℤ → Subscription
subscription id user_id end remaining = record {
  id = id;
  user_id = user_id;
  plan_id = 1;
  start_at = noon;
  current_period_start = noon;
  current_period_end = end;
  status = SubStatus.active;
  remaining_cents = remaining;
  cancel_at_period_end = false;
  canceled_at = none;
  last_renewal_at = none;
  last_renewal_error = none;
}

-- Alice has 30 cents until February and 40 until January; Bob has 9.
abbrev pub late_sub : Subscription
late_sub = subscription 5 1 february (pos 30)

abbrev pub early_sub : Subscription
early_sub = subscription 6 1 new_year (pos 40)

abbrev pub bobs_sub : Subscription
bobs_sub = subscription 7 2 february (pos 9)

abbrev pub db : Db
db = record {
  users = alice ∷ bob ∷ [];
  api_keys = key ∷ [];
  plans = monthly ∷ trial ∷ [];
  subscriptions = late_sub ∷ early_sub ∷ bobs_sub ∷ [];
  orders = [];
  balance_tx = [];
  next_id = 10;
  quota_invalidate_uids = [];
}

abbrev pub pricing : ImagePricing
pricing = record {
  mode = none;
  tiers =
      record { size = "1024x1024"; quality = some "hd"; price_micro = 80_000 }
      ∷ record { size = "512x512"; quality = none; price_micro = 20_000 }
      ∷ [];
  default_price_micro = 40_000;
  output_tokens = [];
  default_out_tokens = 0;
}

abbrev pub gpt : Model
gpt = record {
  id = 1;
  channel_id = 1;
  upstream_model = "gpt-4o";
  kind = "chat";
  upstream_protocol = none;
  prompt_rate = 25_000;
  completion_rate = 100_000;
  pricing = pricing;
  enabled = true;
}
