-- ===== src/Keys/Examples.antt =====
-- The key checks on the sample key, whose daily window ended on 21 December at noon.
use llmxy.Keys.Sweep.{scan_once}
use llmxy.Keys.Sweep.Laws.{scan_once-get_apikey_snapshot}
use llmxy.Snapshots.{KeyCache, snapshot_from_row, find_by_hash, get_apikey_snapshot}
use llmxy.QuotaCache.Memory.{memory, empty}
use llmxy.Keys.Cached.{fresh, enforce_key_state_cached, row_over}
use llmxy.Keys.Cached.Laws.{
  outcome, enforce_key_state_cached-enforce_key_state, enforce_key_state_cached_stale,
}
use llmxy.Prelude.{ℕ, [], ◌⊎◌, ◌≡◌, refl, arith, some, false, some_inj}
use llmxy.Datetime.{Datetime, IsDate, days_in_month, add_days, next_day}
use llmxy.Models.{ApiKey, QuotaPeriod}
use llmxy.Table.{get, update}
use llmxy.Db.{Db}
use llmxy.Samples.{noon, new_year, db, key}
use llmxy.Keys.Window.{next_quota_window, roll_window}
use llmxy.Keys.Window.Laws.{Contains, roll_window-Contains}
use llmxy.Keys.State.{expire, is_expired, window_over, start_window, passed, enforce_key_state}
use llmxy.Keys.State.Laws.{
  IsRow, Refuses, Passes, Changed, written, enforce-rolled, enforce_key_state_lem,
}
use llmxy.Keys.State.Roll.{IsPeriodic, Rolled, enforce_key_state_periodic, enforce_key_state_idem}

abbrev cache : KeyCache
cache = record { entries = []; maxsize = 10_000; ttl = 30 }

abbrev last_end : Datetime
last_end = record noon { day = 21 }

last_end-IsDate : IsDate last_end
unfolding days_in_month
last_end-IsDate = omega arith

new_year-IsDate : IsDate new_year
unfolding days_in_month
new_year-IsDate = omega arith

key-IsRow : IsRow db key
unfolding get
key-IsRow = refl

key-alive : is_expired new_year key ≡ false
unfolding is_expired
key-alive = refl

key-IsPeriodic : IsPeriodic key QuotaPeriod.day last_end
key-IsPeriodic = record {
  active = refl;
  mode = refl;
  period = refl;
  end_at = refl;
  date = last_end-IsDate;
}

abbrev rolled_key : ApiKey
rolled_key = start_window (roll_window new_year QuotaPeriod.day last_end) key

abbrev rolled_db : Db
rolled_db = written (start_window (roll_window new_year QuotaPeriod.day last_end)) db key

roll_window-Contains_example :
    Contains new_year QuotaPeriod.day (roll_window new_year QuotaPeriod.day last_end)
roll_window-Contains_example =
    roll_window-Contains new_year QuotaPeriod.day last_end last_end-IsDate (omega arith)

enforce_key_state_lem_example :
    (db' : Db) × (key' : ApiKey) × (Refuses new_year db key db' key'
      ⊎ Passes new_year db key db' key')
    × Changed db key db' key'
enforce_key_state_lem_example = enforce_key_state_lem new_year db key key-IsRow

enforce_key_state_periodic_example :
    (db' : Db) × (key' : ApiKey) × (enforce_key_state new_year db key ≡ some (passed db' key'))
    × Rolled new_year db key QuotaPeriod.day last_end db' key'
enforce_key_state_periodic_example =
    enforce_key_state_periodic new_year db key QuotaPeriod.day last_end key-IsRow key-alive
      key-IsPeriodic

last_end-only : (end : Datetime) → key.quota_period_end ≡ some end → IsDate end
last_end-only end e = rw (← some_inj e) last_end-IsDate

key_passes : enforce_key_state new_year db key ≡ some (passed rolled_db rolled_key)
unfolding window_over
key_passes = enforce-rolled new_year db key QuotaPeriod.day last_end key-IsRow key-alive refl

enforce_key_state_idem_example :
    enforce_key_state new_year rolled_db rolled_key ≡ some (passed rolled_db rolled_key)
enforce_key_state_idem_example =
    enforce_key_state_idem new_year db key rolled_db rolled_key key-IsRow last_end-only key_passes

-- The window that the sample key rolls into: from noon to noon around the first of January.
roll_window-new_year :
    roll_window new_year QuotaPeriod.day last_end
    ≡ record { start = noon; end = record new_year { micros = 43_200_000_000 } }
unfolding roll_window next_quota_window add_days next_day days_in_month
roll_window-new_year = refl

abbrev at_noon : Datetime → ℕ
at_noon d = d.day

enforce_key_state_cached-enforce_key_state_example :
    let check =
      enforce_key_state_cached memory at_noon false 100 new_year db
        (snapshot_from_row key)
        cache
        empty in
    outcome (enforce_key_state new_year db key) ≡ some (check.db, check.answer)
enforce_key_state_cached-enforce_key_state_example =
    enforce_key_state_cached-enforce_key_state memory at_noon false 100 new_year db key cache empty
      key-IsRow

-- A snapshot from before the window was rolled.
enforce_key_state_cached_stale_example :
    let check =
      enforce_key_state_cached memory at_noon false 100 new_year rolled_db
        (snapshot_from_row key)
        cache
        empty in
    (check.db ≡ rolled_db)
    × ((check.answer ≡ fresh (snapshot_from_row key))
        ⊎ (check.answer ≡ fresh (snapshot_from_row rolled_key)))
unfolding update
enforce_key_state_cached_stale_example =
    enforce_key_state_cached_stale memory at_noon false 100 new_year rolled_db
      (snapshot_from_row key) rolled_key cache empty (unfold get snapshot_from_row in refl)
      (unfold is_expired in refl) (unfold row_over in rw roll_window-new_year refl)

-- In March the sample key has expired.
abbrev march : Datetime
march = record new_year { month = 3 }

scan_once-get_apikey_snapshot_example :
    let after = scan_once march db cache in
    (get_apikey_snapshot 100 after.0 "h4" after.1).0 ≡ some (snapshot_from_row (expire key))
scan_once-get_apikey_snapshot_example =
    scan_once-get_apikey_snapshot 100 march db cache "h4" key (unfold find_by_hash in refl)
      (unfold is_expired in refl)
