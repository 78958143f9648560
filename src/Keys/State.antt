-- ===== src/Keys/State.antt =====
-- `enforce_key_state` of api/app/services/api_key.py: the check that runs on a key before a request.
-- `commit` writes the changed attributes to the key's row and `refresh` reads the row again; either
-- raises if the row is gone.
pub mod Laws
pub mod Roll
use llmxy.Prelude.{ℤ, pos, Option, none, some, Bool, true, false, if◌then◌else◌, ◌&&◌, ◌>>=◌}
use llmxy.Datetime.{Datetime, not_after}
use llmxy.Models.{ApiKey, KeyStatus, key_active, mode_periodic, QuotaPeriod}
use llmxy.Table
use llmxy.Db.{Db, key_id}
use llmxy.Keys.Window.{Window, roll_window}

-- `t is not None and t <= now`
abbrev pub has_passed : Option Datetime → Datetime → Bool
has_passed none now = false
has_passed (some t) now = not_after t now

unfoldable pub is_expired : Datetime → ApiKey → Bool
is_expired now key = key_active key.status && has_passed key.expires_at now

-- The period and the end of the window, if the key is active and periodic and the window is over.
unfoldable pub window_over : Datetime → ApiKey → Option (QuotaPeriod × Datetime)
window_over now key = do
  period ← key.quota_period
  end ← key.quota_period_end
  let due = key_active key.status && mode_periodic key.quota_mode && not_after end now
  (if due then some (period, end) else none)

abbrev pub expire : ApiKey → ApiKey
expire key = record key { status = KeyStatus.expired }

abbrev pub start_window : Window → ApiKey → ApiKey
start_window w key = record key {
  quota_period_start = some w.start;
  quota_period_end = some w.end;
  used_cents = pos 0;
}

-- A commit of a change to the key's row, and the row read again.
unfoldable pub commit_key : (ApiKey → ApiKey) → Db → ApiKey → Option (Db × ApiKey)
commit_key change db key = do
  row ← Table.get key_id key.id db.api_keys
  some (record db { api_keys = Table.update key_id key.id change db.api_keys }, change row)

-- The request goes on with the key, or the 401 "api key expired" is raised after the commit.
pub data Enforced : Type 0 where
  passed unauthorized : Db → ApiKey → Enforced

unfoldable pub enforce_window :
    Datetime → Db → ApiKey → Option (QuotaPeriod × Datetime) → Option Enforced
unfolding commit_key
enforce_window now db key none = some (passed db key)
enforce_window now db key (some (period, end)) = do
  (db', key') ← commit_key (start_window (roll_window now period end)) db key
  some (passed db' key')

unfoldable pub enforce_key_state : Datetime → Db → ApiKey → Option Enforced
unfolding is_expired window_over enforce_window commit_key
enforce_key_state now db key =
    if is_expired now key
    then (do (db', key') ← commit_key expire db key; some (unauthorized db' key'))
    else enforce_window now db key (window_over now key)
