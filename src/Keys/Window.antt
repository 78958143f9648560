-- ===== src/Keys/Window.antt =====
-- The windows of periodic API keys: `next_quota_window`, `init_periodic_window` and the loop that
-- rolls a window forward in api/app/services/api_key.py.
pub mod Laws
use llmxy.Prelude.{ℕ, zero, suc, ◌-◌, true, false}
use llmxy.Datetime.{Datetime, stamp, add_days, not_after}
use llmxy.Models.{QuotaPeriod}
use llmxy.Billing.Period.{next_period_end}

unfoldable pub next_quota_window : Datetime → QuotaPeriod → Datetime
next_quota_window start QuotaPeriod.day = add_days 1 start
next_quota_window start QuotaPeriod.week = add_days 7 start
next_quota_window start QuotaPeriod.month = next_period_end start

pub record Window : Type 0 where
  pub start : Datetime
  pub end : Datetime

unfoldable pub init_periodic_window : Datetime → QuotaPeriod → Window
unfolding next_quota_window
init_periodic_window now period = record { start = now; end = next_quota_window now period }

-- `while new_end <= now`, on fuel.
unfoldable pub fast_forward : ℕ → Datetime → QuotaPeriod → Window → Window
fast_forward zero now period w = w
fast_forward (suc fuel) now period w = elim (not_after w.end now) [
  | true ↦
      fast_forward fuel now period (record { start = w.end; end = next_quota_window w.end period })
  | false ↦ w
]

-- The window after `end`, rolled forward until it ends after `now`. Each step moves the end by at
-- least one microsecond, so the distance to `now` is enough fuel.
unfoldable pub roll_window : Datetime → QuotaPeriod → Datetime → Window
unfolding fast_forward
roll_window now period end =
    let first : Window = record { start = end; end = next_quota_window end period } in
    fast_forward (suc (stamp now) - stamp first.end) now period first
