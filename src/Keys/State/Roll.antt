-- ===== src/Keys/State/Roll.antt =====
-- The window of a periodic key that passed `enforce_key_state`, and a second check of it.
use llmxy.Prelude.{
  ◌≤◌, ◌<◌, ◌≡◌, refl, sym, ◌∙◌, arith, pos, none, some, false, if◌then◌else◌, Bool-cases,
  Option-cases, inl, inr,
}
use llmxy.Datetime.{Datetime, stamp, IsDate, not_after}
use llmxy.Models.{ApiKey, KeyStatus, QuotaMode, QuotaPeriod}
use llmxy.Db.{Db}
use llmxy.Keys.Window.{Window, roll_window}
use llmxy.Keys.Window.Laws.{Contains, roll_window-Contains}
use llmxy.Keys.State.{
  is_expired, window_over, start_window, passed, unauthorized, enforce_key_state,
}
use llmxy.Keys.State.Laws.{IsRow, written, enforce-expired, enforce-unchanged, enforce-rolled}

-- An active key of the period whose window ends at `end`.
pub record IsPeriodic (key : ApiKey) (p : QuotaPeriod) (end : Datetime) : Type 0 where
  pub active : key.status ≡ KeyStatus.active
  pub mode : key.quota_mode ≡ QuotaMode.periodic
  pub period : key.quota_period ≡ some p
  pub end_at : key.quota_period_end ≡ some end
  pub date : IsDate end

window_over_periodic :
    (now : Datetime) (key : ApiKey) (p : QuotaPeriod) (end : Datetime)
    → IsPeriodic key p end
    → window_over now key ≡ (if not_after end now then some (p, end) else none)
unfolding window_over
window_over_periodic now key p end h = rw (h.period, h.end_at, h.active, h.mode) refl

-- What the key holds after the check: the old window if it runs on, and otherwise the one that
-- contains the clock, with nothing used.
pub record Rolled (now : Datetime) (db : Db) (key : ApiKey) (p : QuotaPeriod) (end : Datetime)
    (db' : Db) (key' : ApiKey) : Type 0 where
  pub kept : stamp now < stamp end → (db' ≡ db) × (key' ≡ key)
  pub rolled :
      stamp end ≤ stamp now
      → (w : Window) × Contains now p w
        × (key'.quota_period_start ≡ some w.start)
        × (key'.quota_period_end ≡ some w.end)
        × (key'.used_cents ≡ pos 0)

-- An active periodic key with a valid window end that has not expired, held as its row is: the check
-- passes; a window that runs on is left alone, and one that is over is replaced by the window of the
-- key's period that contains the clock, with `used_cents` 0.
pub enforce_key_state_periodic :
    (now : Datetime) (db : Db) (key : ApiKey) (p : QuotaPeriod) (end : Datetime)
    → IsRow db key
    → is_expired now key ≡ false
    → IsPeriodic key p end
    → (db' : Db) × (key' : ApiKey) × (enforce_key_state now db key ≡ some (passed db' key'))
      × Rolled now db key p end db' key'
enforce_key_state_periodic now db key p end h x i =
    let over = window_over_periodic now key p end i in
    elim (Bool-cases (not_after end now)) [
      | inl late ↦
          let roll = start_window (roll_window now p end) in
          let inside = roll_window-Contains now p end i.date (ground (arith, late)) in
          (
            written roll db key,
            roll key,
            enforce-rolled now db key p end h x (rw late at over),
            record {
              kept = λ l. ground (arith, late);
              rolled = λ l. (roll_window now p end, inside, refl, refl, refl);
            },
          )
      | inr early ↦ (
        db,
        key,
        enforce-unchanged now db key x (rw early at over),
        record { kept = λ l. (refl, refl); rolled = λ l. ground (arith, early) },
      )
    ]

fresh-window_over :
    (now : Datetime) (key : ApiKey) (p : QuotaPeriod) (w : Window)
    → Contains now p w
    → window_over now (start_window w key) ≡ none
unfolding window_over
fresh-window_over now key p w c = elim (Option-cases key.quota_period) [
  | inl n ↦ rw n refl
  | inr (q, e) ↦ rw e (ground (arith, c.unfinished))
]

window_over-end :
    (now : Datetime) (key : ApiKey) (p : QuotaPeriod) (end : Datetime)
    → window_over now key ≡ some (p, end)
    → (key.quota_period_end ≡ some end) × (stamp end ≤ stamp now)
unfolding window_over
window_over-end now key p end h = ground arith

rolled_alive :
    (now : Datetime) (key : ApiKey) (w : Window)
    → is_expired now key ≡ false
    → is_expired now (start_window w key) ≡ false
unfolding is_expired
rolled_alive now key w h = h

clash : {a b : Db} {k k' : ApiKey} → some (unauthorized a k) ≡ some (passed b k') → ⊥
clash h = cc

passed_inj :
    {a b : Db} {k k' : ApiKey} → some (passed a k) ≡ some (passed b k') → (a ≡ b) × (k ≡ k')
passed_inj h = (cc, cc)

-- If the object is the key's row and the window's end, if there is one, is a valid date, a key that
-- passed the check passes it again at the same instant with nothing more written.
pub enforce_key_state_idem :
    (now : Datetime) (db : Db) (key : ApiKey) (db' : Db) (key' : ApiKey)
    → IsRow db key
    → ((end : Datetime) → key.quota_period_end ≡ some end → IsDate end)
    → enforce_key_state now db key ≡ some (passed db' key')
    → enforce_key_state now db' key' ≡ some (passed db' key')
enforce_key_state_idem now db key db' key' h dates e = elim (Bool-cases (is_expired now key)) [
  | inl x ↦ absurd (clash (sym (enforce-expired now db key h x) ∙ e))
  | inr x ↦ elim (Option-cases (window_over now key)) [
    | inl o ↦
        let (same_db, same_key) = passed_inj (sym (enforce-unchanged now db key x o) ∙ e) in
        rw (← same_db, ← same_key) (enforce-unchanged now db key x o)
    | inr ((p, end), o) ↦
        let roll = start_window (roll_window now p end) in
        let (at_end, late) = window_over-end now key p end o in
        let (same_db, same_key) = passed_inj (sym (enforce-rolled now db key p end h x o) ∙ e) in
        let inside = roll_window-Contains now p end (dates end at_end) late in
        rw (← same_db, ← same_key)
          (enforce-unchanged now (written roll db key) (roll key) (rolled_alive now key _ x)
            (fresh-window_over now key p (roll_window now p end) inside))
  ]
]
