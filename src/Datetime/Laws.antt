-- ===== src/Datetime/Laws.antt =====
-- The calendar of `Datetime`: a later day has a later stamp, and dates stay valid.
use llmxy.Prelude.{ℕ, zero, suc, ◌+◌, ◌≤◌, ◌<◌, ◌≡◌, refl, arith}
use llmxy.Datetime.{Datetime, stamp, IsDate, days_in_month, next_day, add_days}

pub days_in_month_bounds : (y m : ℕ) → (28 ≤ days_in_month y m) × (days_in_month y m ≤ 31)
unfolding days_in_month
days_in_month_bounds y m = ground arith

pub next_day-IsDate : (d : Datetime) → IsDate d → IsDate (next_day d)
unfolding next_day
next_day-IsDate d v =
    ground (arith, days_in_month_bounds d.year (d.month + 1), days_in_month_bounds (d.year + 1) 1)

pub stamp-next_day : (d : Datetime) → IsDate d → stamp d < stamp (next_day d)
unfolding next_day
stamp-next_day d v = ground (arith, days_in_month_bounds d.year d.month)

pub add_days-IsDate : (n : ℕ) (d : Datetime) → IsDate d → IsDate (add_days n d)
unfolding add_days
add_days-IsDate zero d v = v
add_days-IsDate (suc n) d v = add_days-IsDate n (next_day d) (next_day-IsDate d v)

pub stamp-add_days : (n : ℕ) (d : Datetime) → IsDate d → stamp d + n ≤ stamp (add_days n d)
unfolding add_days
stamp-add_days zero d v = omega arith
stamp-add_days (suc n) d v =
    omega (arith, stamp-next_day d v, stamp-add_days n (next_day d) (next_day-IsDate d v))

-- 29 February 2024 is the day before 1 March; 2024-03-01 00:00 UTC is 1709251200.
leap_day :
    next_day (record { year = 2024; month = 2; day = 29; micros = 5 })
    ≡ record { year = 2024; month = 3; day = 1; micros = 5 }
unfolding next_day days_in_month
leap_day = refl
