-- ===== src/Datetime.antt =====
-- UTC instants, as the program uses Python's `datetime`: the calendar fields, the order, and a shift
-- by whole days (`timedelta(days=n)`).
pub mod Laws
use llmxy.Prelude.{
  ℕ, zero, suc, ◌+◌, ◌-◌, ◌*◌, ◌/◌, ◌%◌, ◌≤◌, ◌<◌, Bool, ◌&&◌, ◌||◌, not, ltb, leb, ◌==◌,
  if◌then◌else◌,
}

-- `micros` counts the microseconds since midnight.
pub record Datetime : Type 0 where
  pub year : ℕ
  pub month : ℕ
  pub day : ℕ
  pub micros : ℕ

abbrev pub day_micros : ℕ
day_micros = 86_400_000_000

-- A number in the order of the instants: the fields compare from the left.
abbrev pub stamp : Datetime → ℕ
stamp d = ((d.year * 13 + d.month) * 32 + d.day) * day_micros + d.micros

-- `a < b` and `a <= b` on datetimes
abbrev pub before : Datetime → Datetime → Bool
before a b = ltb (stamp a) (stamp b)

abbrev pub not_after : Datetime → Datetime → Bool
not_after a b = leb (stamp a) (stamp b)

unfoldable pub is_leap : ℕ → Bool
is_leap y = (y % 4 == 0) && (not (y % 100 == 0) || (y % 400 == 0))

-- Thirty days and one more in every other month, the count starting again in August.
unfoldable pub days_in_month : ℕ → ℕ → ℕ
unfolding is_leap
days_in_month y m = if m == 2 then (if is_leap y then 29 else 28) else 30 + (m + m / 8) % 2

-- The fields of a datetime that Python accepts.
pub record IsDate (d : Datetime) : Type 0 where
  pub month_pos : 1 ≤ d.month
  pub month_le : d.month ≤ 12
  pub day_pos : 1 ≤ d.day
  pub day_le : d.day ≤ days_in_month d.year d.month
  pub micros_lt : d.micros < day_micros

unfoldable pub next_day : Datetime → Datetime
next_day d =
    if ltb d.day (days_in_month d.year d.month)
    then record d { day = d.day + 1 }
    else if ltb d.month 12
    then record d { month = d.month + 1; day = 1 }
    else record d { year = d.year + 1; month = 1; day = 1 }

-- `d + timedelta(days=n)`
unfoldable pub add_days : ℕ → Datetime → Datetime
add_days zero d = d
add_days (suc n) d = add_days n (next_day d)
