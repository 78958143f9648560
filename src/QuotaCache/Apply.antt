-- ===== src/QuotaCache/Apply.antt =====
-- The writes of api/app/services/quota_cache.py that mirror what was committed. `raised` says that a
-- command raised; a pipeline that raised is taken to have had no effect, which Redis grants where the
-- connection failed before EXEC, and not where one command of it failed.
pub mod Amounts
pub mod Charge
use llmxy.Prelude.{
  ℕ, ℤ, pos, ◌-ℤ◌, ◌+ℤ◌, leb_ℤ, Option, none, some, List, [], ◌∷◌, Bool, true, false, if◌then◌else◌,
  is_some,
}
use llmxy.Datetime.{Datetime, stamp}
use llmxy.Models.{Source, sub, wallet, Breakdown}
use llmxy.QuotaCache.Redis
use llmxy.QuotaCache.Redis.{Redis, Key, subq, hydr_lock, kused}

abbrev pub key_for : ℕ → Source → Key
key_for uid (sub sid) = subq sid
key_for uid wallet = Redis.wallet uid

module _ {R : Type 0} (redis : Redis R) where
  unfoldable pub delete_subs : List ℕ → R → R
  delete_subs [] r = r
  delete_subs (sid ∷ sids) r = delete_subs sids (redis.delete (subq sid) r)

  unfoldable pub invalidate_user_quota : Bool → ℕ → R → R
  unfolding delete_subs
  invalidate_user_quota true uid r = r
  invalidate_user_quota false uid r =
      delete_subs (redis.zrange uid r) (redis.zdel uid (redis.delete (Redis.wallet uid) r))

  -- The Lua script: a missing key is left missing.
  unfoldable pub decr_if_exists : Key → ℤ → R → R
  decr_if_exists k amount r =
      if is_some (redis.get k r) then redis.incr_by k (pos 0 -ℤ amount) r else r

  unfoldable pub decr_all : ℕ → Breakdown → R → R
  unfolding decr_if_exists
  decr_all uid [] r = r
  decr_all uid ((source, amount) ∷ bd) r =
      decr_all uid bd
        (if leb_ℤ amount (pos 0) then r else decr_if_exists (key_for uid source) amount r)

  unfoldable pub count_key : Option ℕ → ℤ → ℕ → R → R
  count_key none cost ws r = r
  count_key (some kid) cost ws r = redis.incr_by (kused kid ws) cost r

  -- `invalid` says that a command of the invalidation raised too.
  unfoldable pub apply_charge : (raised invalid : Bool) → ℕ → Option ℕ → ℤ → ℕ → Breakdown → R → R
  unfolding invalidate_user_quota decr_all count_key
  apply_charge raised invalid uid kid cost ws bd r =
      if leb_ℤ cost (pos 0)
      then r
      else if raised
      then invalidate_user_quota invalid uid r
      else count_key kid cost ws (decr_all uid bd r)

  unfoldable pub apply_topup : (raised invalid : Bool) → ℕ → ℤ → R → R
  unfolding invalidate_user_quota
  apply_topup raised invalid uid amount r =
      if leb_ℤ amount (pos 0)
      then r
      else if raised
      then invalidate_user_quota invalid uid r
      else redis.incr_by (Redis.wallet uid) amount r

  unfoldable pub apply_grant : (raised invalid : Bool) → ℕ → ℕ → ℤ → Datetime → R → R
  unfolding invalidate_user_quota
  apply_grant raised invalid uid sid remaining end_at r =
      if raised
      then invalidate_user_quota invalid uid r
      else redis.put (subq sid) remaining (redis.zadd uid ((sid, stamp end_at) ∷ []) r)

  unfoldable pub apply_renew : (raised invalid : Bool) → ℕ → ℕ → ℤ → Datetime → R → R
  unfolding apply_grant
  apply_renew raised invalid uid sid remaining end_at r =
      apply_grant raised invalid uid sid remaining end_at r

  unfoldable pub apply_sub_expire : Bool → ℕ → ℕ → R → R
  apply_sub_expire true uid sid r = r
  apply_sub_expire false uid sid r = redis.delete (subq sid) (redis.zrem uid sid r)

  unfoldable pub apply_window_roll : Bool → ℕ → ℕ → R → R
  apply_window_roll true kid ws r = r
  apply_window_roll false kid ws r = redis.delete (kused kid ws) r
