-- ===== src/Billing/Period.antt =====
-- `next_period_end` and `initial_period_end` of api/app/services/billing.py.
pub mod Laws
use llmxy.Prelude.{ℕ, ◌+◌, ℤ, pos, negsuc, leb_ℤ, pos_part, ltb, max_ℤ, if◌then◌else◌}
use llmxy.Datetime.{Datetime, add_days}
use llmxy.Models.{Plan, plan_one_time}

-- The first day of the next calendar month at 00:00 UTC.
unfoldable pub next_period_end : Datetime → Datetime
next_period_end now =
    let month = now.month + 1 in
    if ltb 12 month
    then record { year = now.year + 1; month = 1; day = 1; micros = 0 }
    else record { year = now.year; month = month; day = 1; micros = 0 }

-- `max(1, int(plan.duration_days or 30))`
unfoldable pub lifetime_days : ℤ → ℕ
lifetime_days (pos n) = if ltb 0 n then n else 30
lifetime_days (negsuc n) = 1

unfoldable pub initial_period_end : Plan → Datetime → Datetime
unfolding lifetime_days
initial_period_end plan now =
    if plan_one_time plan.plan_type
    then add_days (lifetime_days plan.duration_days) now
    else next_period_end now
