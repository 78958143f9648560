-- ===== src/QuotaCache/Hydrate.antt =====
-- `hydrate_user_quota` and `hydrate_key_used` of api/app/services/quota_cache.py, as far as no
-- command of Redis raises; a failure is logged and ends the function. `now` is the clock's reading.
pub mod Laws
use llmxy.Prelude.{
  ℕ, pos, Option, none, some, List, [], ◌∷◌, Bool, ◌==◌, ◌&&◌, if◌then◌else◌, filter, map, is_some,
}
use llmxy.Datetime.{Datetime, stamp, before}
use llmxy.Models.{User, ApiKey, Subscription, sub_active}
use llmxy.Table
use llmxy.Db.{Db, user_id, key_id}
use llmxy.QuotaCache.Redis.{Redis, Key, wallet, subq, hydr_lock, kused}

-- The WHERE clause of the query, which keeps exhausted subscriptions.
abbrev pub is_current : ℕ → Datetime → Subscription → Bool
is_current uid now s = (s.user_id == uid) && sub_active s.status && before now s.current_period_end

module _ {R : Type 0} (redis : Redis R) where
  -- One SET for each subscription.
  unfoldable pub put_subs : List Subscription → R → R
  put_subs [] r = r
  put_subs (s ∷ ss) r = put_subs ss (redis.put (subq s.id) s.remaining_cents r)

  -- The pipeline; the scores are the ends of the periods.
  unfoldable pub store_quota : User → List Subscription → R → R
  unfolding put_subs
  store_quota user [] r = redis.zdel user.id (redis.put (wallet user.id) user.balance_cents r)
  store_quota user (s ∷ ss) r = put_subs (s ∷ ss) (
      redis.zadd user.id (map (λ (s : Subscription). (s.id, stamp s.current_period_end)) (s ∷ ss))
        (redis.zdel user.id (redis.put (wallet user.id) user.balance_cents r)))

  unfoldable pub hydrate_found : Datetime → Db → Option User → R → R
  unfolding store_quota
  hydrate_found now db none r = r
  hydrate_found now db (some user) r =
      store_quota user (filter (is_current user.id now) db.subscriptions) r

  -- SET NX of the lock: another hydration is under way if the key is there.
  unfoldable pub hydrate_user_quota : Datetime → Db → ℕ → R → R
  unfolding hydrate_found
  hydrate_user_quota now db uid r =
      if is_some (redis.get (hydr_lock uid) r)
      then r
      else hydrate_found now db (Table.get user_id uid db.users)
          (redis.put (hydr_lock uid) (pos 1) r)

  unfoldable pub store_used : ℕ → ℕ → Option ApiKey → R → R
  store_used kid ws none r = r
  store_used kid ws (some key) r = redis.put (kused kid ws) key.used_cents r

  unfoldable pub hydrate_key_used : Db → ℕ → ℕ → R → R
  unfolding store_used
  hydrate_key_used db kid ws r = store_used kid ws (Table.get key_id kid db.api_keys) r
