-- ===== src/Keys/Window/Laws.antt =====
-- A window ends after it starts, and the one that the loop stops at contains the clock.
use llmxy.Prelude.{ℕ, zero, suc, ◌+◌, ◌≤◌, ◌<◌, ◌≡◌, refl, arith, true, false, Bool-cases, inl, inr}
use llmxy.Datetime.{Datetime, stamp, IsDate, not_after}
use llmxy.Datetime.Laws.{add_days-IsDate, stamp-add_days}
use llmxy.Models.{QuotaPeriod}
use llmxy.Billing.Period.Laws.{next_period_end-IsMonthStart, stamp-next_period_end}
use llmxy.Keys.Window.{next_quota_window, Window, init_periodic_window, fast_forward, roll_window}

pub next_quota_window-IsDate :
    (start : Datetime) (p : QuotaPeriod) → IsDate start → IsDate (next_quota_window start p)
unfolding next_quota_window
next_quota_window-IsDate start QuotaPeriod.day v = add_days-IsDate 1 start v
next_quota_window-IsDate start QuotaPeriod.week v = add_days-IsDate 7 start v
next_quota_window-IsDate start QuotaPeriod.month v = (next_period_end-IsMonthStart start v).date

pub stamp-next_quota_window :
    (start : Datetime) (p : QuotaPeriod)
    → IsDate start
    → stamp start < stamp (next_quota_window start p)
unfolding next_quota_window
stamp-next_quota_window start QuotaPeriod.day v = omega (arith, stamp-add_days 1 start v)
stamp-next_quota_window start QuotaPeriod.week v = omega (arith, stamp-add_days 7 start v)
stamp-next_quota_window start QuotaPeriod.month v = stamp-next_period_end start v

-- A window of the period: a valid start, and the end that belongs to it.
pub record IsWindow (p : QuotaPeriod) (w : Window) : Type 0 where
  pub date : IsDate w.start
  pub ends : w.end ≡ next_quota_window w.start p

-- The window is one of the period, it has begun, and it has not ended.
pub record Contains (now : Datetime) (p : QuotaPeriod) (w : Window) : Type 0 where
  pub window : IsWindow p w
  pub begun : stamp w.start ≤ stamp now
  pub unfinished : stamp now < stamp w.end

fast_forward_stop :
    (n : ℕ) (now : Datetime) (p : QuotaPeriod) (w : Window)
    → not_after w.end now ≡ false
    → fast_forward (suc n) now p w ≡ w
unfolding fast_forward
fast_forward_stop n now p w h = ground arith

abbrev following : QuotaPeriod → Window → Window
following p w = record { start = w.end; end = next_quota_window w.end p }

fast_forward_go :
    (n : ℕ) (now : Datetime) (p : QuotaPeriod) (w : Window)
    → not_after w.end now ≡ true
    → fast_forward (suc n) now p w ≡ fast_forward n now p (following p w)
unfolding fast_forward
fast_forward_go n now p w h = ground arith

end-IsDate : (p : QuotaPeriod) (w : Window) → IsWindow p w → IsDate w.end
end-IsDate p w i = rw i.ends (next_quota_window-IsDate w.start p i.date)

following-IsWindow : (p : QuotaPeriod) (w : Window) → IsWindow p w → IsWindow p (following p w)
following-IsWindow p w i = record { date = end-IsDate p w i; ends = refl }

-- With fuel for the distance from the window's end to the clock, the loop ends at the window that
-- contains the clock.
fast_forward-Contains :
    (n : ℕ) (now : Datetime) (p : QuotaPeriod) (w : Window)
    → IsWindow p w
    → stamp w.start ≤ stamp now
    → stamp now < stamp w.end + n
    → Contains now p (fast_forward n now p w)
unfolding fast_forward
fast_forward-Contains zero now p w i b h = record {
  window = i;
  begun = b;
  unfinished = omega arith;
}
fast_forward-Contains (suc n) now p w i b h = elim (Bool-cases (not_after w.end now)) [
  | inl over ↦
      let later = stamp-next_quota_window w.end p (end-IsDate p w i) in
      rw (fast_forward_go n now p w over) (
        fast_forward-Contains n now p (following p w) (following-IsWindow p w i)
          (ground (arith, over)) (ground (arith, later)))
  | inr under ↦
      rw (fast_forward_stop n now p w under)
        (record { window = i; begun = b; unfinished = ground (arith, under) })
]

-- From a valid window end that has passed, rolling a window forward always stops, at a window of the
-- key's period that has begun and has not ended.
pub roll_window-Contains :
    (now : Datetime) (p : QuotaPeriod) (end : Datetime)
    → IsDate end
    → stamp end ≤ stamp now
    → Contains now p (roll_window now p end)
unfolding roll_window
roll_window-Contains now p end v h =
    fast_forward-Contains _ now p _ (record { date = v; ends = refl }) h (ground arith)

-- At a valid date a fresh window contains the clock.
pub init_periodic_window-Contains :
    (now : Datetime) (p : QuotaPeriod) → IsDate now → Contains now p (init_periodic_window now p)
unfolding init_periodic_window
init_periodic_window-Contains now p v = record {
  window = record { date = v; ends = refl };
  begun = omega arith;
  unfinished = stamp-next_quota_window now p v;
}
