-- ===== src/QuotaCache/Check.antt =====
-- `_check` and `has_quota_fast` of api/app/services/quota_cache.py. The sorted set of a user that
-- has none reads as empty.
pub mod Laws
pub mod Fast
use llmxy.Prelude.{
  ℕ, ℤ, pos, ltb_ℤ, leb_ℤ, Option, none, some, List, [], ◌∷◌, Bool, true, false, if◌then◌else◌,
}
use llmxy.Datetime.{Datetime}
use llmxy.Db.{Db}
use llmxy.Billing.Accounts.{Refusal, key_exceeded, no_funds}
use llmxy.QuotaCache.Redis.{Redis, Key, wallet, subq, kused}
use llmxy.QuotaCache.Hydrate.{hydrate_user_quota, hydrate_key_used}

pub data Verdict : Type 0 where
  allowed miss : Verdict
  refused : Refusal → Verdict

-- The end of `_check`; a negative amount is a drifted one and counts as a miss.
abbrev pub wallet_verdict : Option ℤ → Verdict
wallet_verdict none = miss
wallet_verdict (some v) =
    if ltb_ℤ v (pos 0) then miss else if ltb_ℤ (pos 0) v then allowed else refused no_funds

-- What one subscription's amount decides, `rest` where it decides nothing.
abbrev pub sub_verdict : Option ℤ → Verdict → Verdict
sub_verdict none rest = miss
sub_verdict (some v) rest =
    if ltb_ℤ v (pos 0) then miss else if ltb_ℤ (pos 0) v then allowed else rest

-- A second miss is let through.
abbrev pub after_retry : Verdict → Option Refusal
after_retry allowed = none
after_retry miss = none
after_retry (refused e) = some e

module _ {R : Type 0} (redis : Redis R) where
  unfoldable pub check_subs : R → List ℕ → Verdict → Verdict
  check_subs r [] rest = rest
  check_subs r (sid ∷ sids) rest = sub_verdict (redis.get (subq sid) r) (check_subs r sids rest)

  unfoldable pub check_funds : ℕ → R → Verdict
  unfolding check_subs
  check_funds uid r = check_subs r (redis.zrange uid r) (wallet_verdict (redis.get (wallet uid) r))

  unfoldable pub check_key : ℤ → Option ℤ → Verdict → Verdict
  check_key quota none rest = if ltb_ℤ (pos 0) quota then miss else rest
  check_key quota (some used) rest =
      if ltb_ℤ (pos 0) quota
      then (if leb_ℤ quota used then refused key_exceeded else rest)
      else rest

  unfoldable pub check : ℕ → ℕ → ℤ → ℕ → R → Verdict
  unfolding check_key check_funds
  check uid kid quota ws r = check_key quota (redis.get (kused kid ws) r) (check_funds uid r)

  unfoldable pub retry : Datetime → Db → ℕ → ℕ → ℤ → ℕ → R → Verdict → Option Refusal × R
  retry now db uid kid quota ws r allowed = (none, r)
  retry now db uid kid quota ws r (refused e) = (some e, r)
  retry now db uid kid quota ws r miss =
      let r' = hydrate_key_used redis db kid ws (hydrate_user_quota redis now db uid r) in
      (after_retry (check uid kid quota ws r'), r')

  -- The answer, `none` for `(True, "")`; where a command raises, the request is let through.
  unfoldable pub has_quota_fast : Bool → Datetime → Db → ℕ → ℕ → ℤ → ℕ → R → Option Refusal × R
  unfolding retry
  has_quota_fast true now db uid kid quota ws r = (none, r)
  has_quota_fast false now db uid kid quota ws r =
      retry now db uid kid quota ws r (check uid kid quota ws r)
