-- ===== src/Keys/Cached.antt =====
-- `enforce_key_state_cached` of api/app/services/api_key.py: the check on the hot path, which starts
-- from a snapshot and reads the key's row only if the snapshot calls for a change. `raised` says that
-- Redis raised, `timestamp` is `datetime.timestamp` in whole seconds.
pub mod Laws
use llmxy.Prelude.{
  ℕ, Option, none, some, Bool, true, false, if◌then◌else◌, ◌&&◌, not, ◌>>=◌, is_some,
}
use llmxy.Datetime.{Datetime, not_after}
use llmxy.Models.{ApiKey, KeyStatus, key_active, mode_periodic, QuotaPeriod}
use llmxy.Table
use llmxy.Db.{Db, key_id}
use llmxy.Keys.Window.{roll_window}
use llmxy.Keys.State.{has_passed, is_expired, expire, start_window}
use llmxy.Snapshots.{
  ApiKeySnapshot, KeyCache, snapshot_from_row, update_apikey_snapshot, invalidate_apikey, epoch_of,
}
use llmxy.QuotaCache.Redis.{Redis}
use llmxy.QuotaCache.Apply.{apply_window_roll}

-- The details of the two 401 answers.
pub data Detail : Type 0 where
  key_not_found key_expired : Detail

pub data Answer : Type 0 where
  fresh : ApiKeySnapshot → Answer
  rejected : Detail → Answer

pub record CachedCheck (R : Type 0) : Type 0 where
  pub db : Db
  pub cache : KeyCache
  pub quota : R
  pub answer : Answer

unfoldable pub needs_expire : Datetime → ApiKeySnapshot → Bool
needs_expire now snap = key_active snap.status && has_passed snap.expires_at now

unfoldable pub needs_roll : Datetime → ApiKeySnapshot → Bool
needs_roll now snap =
    key_active snap.status
    && mode_periodic snap.quota_mode
    && is_some snap.quota_period
    && has_passed snap.quota_period_end now

-- The row's period and window end, if it is periodic and its window is over.
unfoldable pub row_over : Datetime → ApiKey → Option (QuotaPeriod × Datetime)
row_over now row = do
  period ← row.quota_period
  end ← row.quota_period_end
  (if mode_periodic row.quota_mode && not_after end now then some (period, end) else none)

-- The two writes to the snapshot cache.
abbrev pub republish : ℕ → ApiKey → KeyCache → KeyCache
republish ticks row c = invalidate_apikey row.key_hash (update_apikey_snapshot ticks row c)

abbrev pub write_row : (ApiKey → ApiKey) → ApiKey → Db → Db
write_row change row db = record db { api_keys = Table.update key_id row.id change db.api_keys }

module _ {R : Type 0} (redis : Redis R) (timestamp : Datetime → ℕ) (raised : Bool) where
  -- The part after the expiry.
  unfoldable pub roll_row :
      ℕ
      → Datetime
      → Db
      → ApiKeySnapshot
      → KeyCache
      → R
      → ApiKey
      → Option (QuotaPeriod × Datetime)
      → CachedCheck R
  roll_row ticks now db snap c r row none = record {
    db = db;
    cache = republish ticks row c;
    quota = r;
    answer = fresh (snapshot_from_row row);
  }
  roll_row ticks now db snap c r row (some (period, end)) =
      let roll = start_window (roll_window now period end) in
      record {
        db = write_row roll row db;
        cache = republish ticks (roll row) c;
        quota =
            apply_window_roll redis raised snap.id (epoch_of timestamp row.quota_period_start) r;
        answer = fresh (snapshot_from_row (roll row));
      }

  unfoldable pub check_row :
      ℕ → Datetime → Db → ApiKeySnapshot → KeyCache → R → Option ApiKey → CachedCheck R
  unfolding roll_row
  check_row ticks now db snap c r none = record {
    db = db;
    cache = invalidate_apikey snap.key_hash c;
    quota = r;
    answer = rejected key_not_found;
  }
  check_row ticks now db snap c r (some row) =
      if needs_expire now snap && is_expired now row
      then record {
        db = write_row expire row db;
        cache = republish ticks (expire row) c;
        quota = r;
        answer = rejected key_expired;
      }
      else roll_row ticks now db snap c r row
          (if needs_roll now snap then row_over now row else none)

  unfoldable pub enforce_key_state_cached :
      ℕ → Datetime → Db → ApiKeySnapshot → KeyCache → R → CachedCheck R
  unfolding check_row
  enforce_key_state_cached ticks now db snap c r =
      if not (needs_expire now snap) && not (needs_roll now snap)
      then record { db = db; cache = c; quota = r; answer = fresh snap }
      else check_row ticks now db snap c r (Table.get key_id snap.id db.api_keys)
