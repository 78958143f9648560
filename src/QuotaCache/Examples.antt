-- ===== src/QuotaCache/Examples.antt =====
-- The theorems on the quota mirror, applied to a Redis in memory.
use llmxy.Prelude.{ℕ, pos, ◌≡◌, refl, arith, none, some, true, false, ◌≤ℤ◌, inr}
use llmxy.Models.{Subscription}
use llmxy.Table.{get}
use llmxy.Db.{sub_id}
use llmxy.Samples.{noon, db, alice, key}
use llmxy.Billing.Accounts.{has_quota}
use llmxy.Billing.Charge.{charge_user, Charged}
use llmxy.Billing.Charge.Laws.{IsReady}
use llmxy.QuotaCache.Memory.{Memory, empty, memory, memory-Documented}
use llmxy.QuotaCache.Hydrate.{hydrate_user_quota}
use llmxy.QuotaCache.Hydrate.Laws.{hydrate_user_quota-Mirrors}
use llmxy.QuotaCache.Check.{has_quota_fast, check}
use llmxy.QuotaCache.Check.Laws.{Mirrors}
use llmxy.QuotaCache.Check.Fast.{IsAccount, has_quota_fast-has_quota}
use llmxy.QuotaCache.Apply.{apply_charge}
use llmxy.QuotaCache.Apply.Charge.{apply_charge-Mirrors}

small_sub :
    (sid : ℕ) (s : Subscription)
    → get sub_id sid db.subscriptions ≡ some s
    → pos 0 ≤ℤ s.remaining_cents
unfolding get
small_sub sid s h = ground arith

alice-IsAccount : IsAccount db alice key
unfolding get
alice-IsAccount = record {
  keyed = (refl, (refl, (refl, tt)));
  user_row = refl;
  key_row = refl;
  nonneg_balance = omega arith;
  nonneg_subs = small_sub;
}

-- With nothing cached, the check hydrates and answers from the database.
has_quota_fast-has_quota_example :
    (has_quota_fast memory false noon db 1 4 (pos 1000) 20 empty).0
    ≡ has_quota db alice (some key) noon
has_quota_fast-has_quota_example =
    has_quota_fast-has_quota memory memory-Documented db noon alice key 20 empty alice-IsAccount
      (inr (unfold check in refl, refl))

warm : Memory
warm = hydrate_user_quota memory noon db 1 empty

warm-Mirrors : Mirrors memory db noon alice warm
unfolding warm
warm-Mirrors =
    hydrate_user_quota-Mirrors memory memory-Documented db noon alice empty alice-IsAccount.keyed
      alice-IsAccount.user_row refl

alice-IsReady : IsReady db alice alice
unfolding get
alice-IsReady = record {
  users_keyed = (refl, (refl, tt));
  subs_keyed = alice-IsAccount.keyed;
  row_found = refl;
}

apply_charge-Mirrors_example :
    (c : Charged) × (charge_user true noon db alice (some key) (pos 90) none none ≡ some c)
    × Mirrors memory c.db noon c.user
        (apply_charge memory false false 1 (some 4) (pos 90) 20 c.structured warm)
apply_charge-Mirrors_example =
    apply_charge-Mirrors memory memory-Documented true false noon db alice (some key) (pos 90) none
      none (some 4) 20 warm alice-IsReady (omega arith) warm-Mirrors
