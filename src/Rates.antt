-- ===== src/Rates.antt =====
-- Rate limits: api/app/services/quota.py. `fallback` is `settings.DEFAULT_RATE_LIMIT_RPM`.
pub mod Laws
mod Examples
use llmxy.Prelude.{
  ℕ, ◌+◌, ℤ, pos, leb_ℤ, ltb_ℤ, leb, ◌≡◌, Option, none, some, List, [], ◌∷◌, Bool, true, false,
  ◌==◌, if◌then◌else◌,
}
use llmxy.Datetime.{Datetime, stamp}
use llmxy.Models.{Plan, Subscription}
use llmxy.Table
use llmxy.Db.{Db, plan_id}
use llmxy.QuotaCache.Hydrate.{is_current}

-- INCR and EXPIRE on the counter `rl:u:{user_id}`.
pub record Counters (R : Type 0) : Type 0 where
  pub incr : ℕ → R → ℕ × R
  pub expire : ℕ → R → R

-- What the commands are documented to do until the minute of the counter is over.
pub record Counts {R : Type 0} (c : Counters R) (count : ℕ → R → ℕ) : Type 0 where
  pub incr_reply : (u : ℕ) (r : R) → (c.incr u r).0 ≡ count u r + 1
  pub count-incr :
      (u v : ℕ) (r : R) → count v (c.incr u r).1 ≡ (if u == v then count v r + 1 else count v r)
  pub count-expire : (u v : ℕ) (r : R) → count v (c.expire u r) ≡ count v r

-- `per_min if per_min and per_min > 0 else settings.DEFAULT_RATE_LIMIT_RPM`
abbrev pub limit_of : ℤ → Option ℤ → ℤ
limit_of fallback none = fallback
limit_of fallback (some n) = if ltb_ℤ (pos 0) n then n else fallback

module _ {R : Type 0} (c : Counters R) where
  unfoldable pub rate_limit : ℤ → ℕ → Option ℤ → R → Bool × R
  rate_limit fallback uid per_min r =
      let (n, r') = c.incr uid r in
      (leb_ℤ (pos n) (limit_of fallback per_min), (if n == 1 then c.expire uid r' else r'))

-- One row of the join, the plan's limit with the end of the subscription's period.
abbrev pub join_row :
    Option Plan → Bool → Subscription → List (Datetime × Option ℤ) → List (Datetime × Option ℤ)
join_row none current s rest = rest
join_row (some plan) true s rest = (s.current_period_end, plan.rpm) ∷ rest
join_row (some plan) false s rest = rest

unfoldable pub joined : Datetime → ℕ → List Plan → List Subscription → List (Datetime × Option ℤ)
joined now uid plans [] = []
joined now uid plans (s ∷ ss) =
    join_row (Table.get plan_id s.plan_id plans) (is_current uid now s) s (joined now uid plans ss)

abbrev pub later_row : Datetime × Option ℤ → Option (Datetime × Option ℤ) → Datetime × Option ℤ
later_row row none = row
later_row row (some other) = if leb (stamp other.0) (stamp row.0) then row else other

-- ORDER BY current_period_end DESC LIMIT 1
unfoldable pub latest : List (Datetime × Option ℤ) → Option (Datetime × Option ℤ)
latest [] = none
latest (row ∷ rows) = some (later_row row (latest rows))

abbrev pub rpm_of : ℤ → Option (Datetime × Option ℤ) → ℤ
rpm_of fallback none = fallback
rpm_of fallback (some (end, rpm)) = limit_of fallback rpm

unfoldable pub user_rpm : ℤ → Datetime → Db → ℕ → ℤ
unfolding joined latest
user_rpm fallback now db uid = rpm_of fallback (latest (joined now uid db.plans db.subscriptions))
