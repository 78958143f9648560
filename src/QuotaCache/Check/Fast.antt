-- ===== src/QuotaCache/Check/Fast.antt =====
-- `has_quota_fast` gives the answer of `has_quota`.
use llmxy.Prelude.{ℕ, ℤ, pos, ◌≤ℤ◌, ◌≡◌, refl, ap, ◌∙◌, Option, none, some, false, ◌⊎◌, inl, inr}
use llmxy.Datetime.{Datetime}
use llmxy.Models.{User, ApiKey, Subscription}
use llmxy.Table.{get, IsKeyed}
use llmxy.Db.{Db, sub_id, user_id, key_id}
use llmxy.Billing.Accounts.{Refusal, has_quota}
use llmxy.QuotaCache.Redis.{Redis, Documented, hydr_lock, kused}
use llmxy.QuotaCache.Hydrate.{hydrate_user_quota, hydrate_key_used}
use llmxy.QuotaCache.Hydrate.Laws.{hydrated}
use llmxy.QuotaCache.Check.{miss, check, retry, after_retry, has_quota_fast}
use llmxy.QuotaCache.Check.Laws.{Mirrors, verdict_of, check-has_quota_held}

after_retry-verdict_of : (o : Option Refusal) → after_retry (verdict_of o) ≡ o
after_retry-verdict_of none = refl
after_retry-verdict_of (some e) = refl

-- The rows that a request is decided on: the user's, the key's, and subscriptions that hold no
-- negative amount.
pub record IsAccount (db : Db) (user : User) (key : ApiKey) : Type 0 where
  pub keyed : IsKeyed sub_id db.subscriptions
  pub user_row : get user_id user.id db.users ≡ some user
  pub key_row : get key_id key.id db.api_keys ≡ some key
  pub nonneg_balance : pos 0 ≤ℤ user.balance_cents
  pub nonneg_subs :
      (sid : ℕ) (s : Subscription)
      → get sub_id sid db.subscriptions ≡ some s
      → pos 0 ≤ℤ s.remaining_cents

module _ {R : Type 0} (redis : Redis R) (doc : Documented redis) where
  -- Redis holds what the database holds, or the check misses and no hydration is under way.
  abbrev pub IsServed : Db → Datetime → User → ApiKey → ℕ → R → Type 0
  IsServed db now user key ws r =
      (Mirrors redis db now user r × (redis.get (kused key.id ws) r ≡ some key.used_cents))
      ⊎ ((check redis user.id key.id key.quota_cents ws r ≡ miss)
          × (redis.get (hydr_lock user.id) r ≡ none))

  retry_hit :
      (now : Datetime) (db : Db) (uid kid : ℕ) (quota : ℤ) (ws : ℕ) (r : R) (o : Option Refusal)
      → (retry redis now db uid kid quota ws r (verdict_of o)).0 ≡ o
  unfolding retry
  retry_hit now db uid kid quota ws r none = refl
  retry_hit now db uid kid quota ws r (some e) = refl

  -- Redis behaves as documented and answers, the rows are there and no amount is negative: whether
  -- Redis holds what the database holds, or the check misses with no hydration under way, the fast
  -- check gives the answer of `has_quota` on the database, the reason of a refusal included.
  pub has_quota_fast-has_quota :
      (db : Db) (now : Datetime) (user : User) (key : ApiKey) (ws : ℕ) (r : R)
      → IsAccount db user key
      → IsServed db now user key ws r
      → (has_quota_fast redis false now db user.id key.id key.quota_cents ws r).0
        ≡ has_quota db user (some key) now
  unfolding has_quota_fast
  has_quota_fast-has_quota db now user key ws r a (inl (m, used)) =
      ap (λ v. (retry redis now db user.id key.id key.quota_cents ws r v).0)
        (check-has_quota_held redis db now user r m a.keyed key ws a.nonneg_subs a.nonneg_balance
          used)
      ∙ retry_hit now db user.id key.id key.quota_cents ws r (has_quota db user (some key) now)
  has_quota_fast-has_quota db now user key ws r a (inr (missed, free)) =
      let r' = hydrate_key_used redis db key.id ws (hydrate_user_quota redis now db user.id r) in
      let (m, used) = hydrated redis doc db now user key ws r a.keyed a.user_row a.key_row free in
      rw missed (
        unfold retry in
        (ap after_retry (
            check-has_quota_held redis db now user r' m a.keyed key ws a.nonneg_subs
              a.nonneg_balance used)
          ∙ after_retry-verdict_of (has_quota db user (some key) now)))
