-- ===== src/Billing/Period/Laws.antt =====
-- A billing period ends at the first month boundary after its start, and always in the future.
use llmxy.Prelude.{◌+◌, ◌≤◌, ◌<◌, ◌≡◌, arith, ℤ, pos, negsuc}
use llmxy.Datetime.{Datetime, stamp, IsDate}
use llmxy.Datetime.Laws.{days_in_month_bounds, add_days-IsDate, stamp-add_days}
use llmxy.Models.{Plan}
use llmxy.Billing.Period.{next_period_end, lifetime_days, initial_period_end}

-- A date at the start of a month, 00:00 UTC.
pub record IsMonthStart (d : Datetime) : Type 0 where
  pub date : IsDate d
  pub first : d.day ≡ 1
  pub midnight : d.micros ≡ 0

pub next_period_end-IsMonthStart :
    (now : Datetime) → IsDate now → IsMonthStart (next_period_end now)
unfolding next_period_end
next_period_end-IsMonthStart now v =
    ground
      (arith, days_in_month_bounds now.year (now.month + 1), days_in_month_bounds (now.year + 1) 1)

pub stamp-next_period_end : (now : Datetime) → IsDate now → stamp now < stamp (next_period_end now)
unfolding next_period_end
stamp-next_period_end now v = ground (arith, days_in_month_bounds now.year now.month)

next_period_end_le :
    (now t : Datetime)
    → IsDate now
    → IsMonthStart t
    → stamp now < stamp t
    → stamp (next_period_end now) ≤ stamp t
unfolding next_period_end
next_period_end_le now t v m h = ground (arith, days_in_month_bounds now.year now.month)

-- For a valid date the period end is a month start, it lies strictly after the date, and no other
-- month start after the date comes before it.
pub next_period_end_least :
    (now : Datetime)
    → IsDate now
    → IsMonthStart (next_period_end now)
      × (stamp now < stamp (next_period_end now))
      × ((t : Datetime)
          → IsMonthStart t
          → stamp now < stamp t
          → stamp (next_period_end now) ≤ stamp t)
next_period_end_least now v = (
  next_period_end-IsMonthStart now v,
  stamp-next_period_end now v,
  λ t m h. next_period_end_le now t v m h,
)

pub lifetime_days_pos : (n : ℤ) → 1 ≤ lifetime_days n
unfolding lifetime_days
lifetime_days_pos (pos n) = ground arith
lifetime_days_pos (negsuc n) = ground arith

-- For a valid date the first period of a plan of either type ends strictly after it, at a valid
-- date.
pub initial_period_end_future :
    (plan : Plan) (now : Datetime)
    → IsDate now
    → IsDate (initial_period_end plan now) × (stamp now < stamp (initial_period_end plan now))
unfolding initial_period_end
initial_period_end_future plan now v = ground (
  arith,
  add_days-IsDate (lifetime_days plan.duration_days) now v,
  stamp-add_days (lifetime_days plan.duration_days) now v,
  lifetime_days_pos plan.duration_days,
  next_period_end-IsMonthStart now v,
  stamp-next_period_end now v,
)
