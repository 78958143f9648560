-- ===== src/Snapshots.antt =====
-- The snapshot caches of api/app/services/api_key_cache.py, one per process. `ticks` is the monotonic
-- clock that the caches read and `now` the calendar's; an entry `none` is the marker for a row that
-- does not exist. The message that the publisher sends to other processes makes each of them call
-- the same eviction.
pub mod Laws
mod Examples
use llmxy.Prelude.{
  ℕ, ℤ, Option, none, some, List, [], ◌∷◌, Bool, true, false, if◌then◌else◌, String, str_eq, ◌==◌,
}
use llmxy.Datetime.{Datetime}
use llmxy.Models.{ApiKey, User, UserStatus, KeyStatus, QuotaMode, QuotaPeriod, mode_periodic}
use llmxy.Table
use llmxy.Db.{Db, user_id}
use llmxy.TtlCache
use llmxy.TtlCache.{Cache}
use llmxy.Rates.{user_rpm}

pub record ApiKeySnapshot : Type 0 where
  pub id : ℕ
  pub user_id : ℕ
  pub key_hash : String
  pub status : KeyStatus
  pub quota_cents : ℤ
  pub quota_mode : QuotaMode
  pub quota_period : Option QuotaPeriod
  pub quota_period_start : Option Datetime
  pub quota_period_end : Option Datetime
  pub expires_at : Option Datetime

pub record UserSnapshot : Type 0 where
  pub id : ℕ
  pub status : UserStatus
  pub plan_rpm : ℤ

unfoldable pub snapshot_from_row : ApiKey → ApiKeySnapshot
snapshot_from_row row = record {
  id = row.id;
  user_id = row.user_id;
  key_hash = row.key_hash;
  status = row.status;
  quota_cents = row.quota_cents;
  quota_mode = row.quota_mode;
  quota_period = row.quota_period;
  quota_period_start = row.quota_period_start;
  quota_period_end = row.quota_period_end;
  expires_at = row.expires_at;
}

abbrev pub KeyCache : Type 0
KeyCache = Cache String (Option ApiKeySnapshot)

abbrev pub UserCache : Type 0
UserCache = Cache ℕ (Option UserSnapshot)

-- WHERE key_hash = ...
unfoldable pub find_by_hash : String → List ApiKey → Option ApiKey
find_by_hash h [] = none
find_by_hash h (k ∷ ks) = if str_eq k.key_hash h then some k else find_by_hash h ks

-- The snapshot that a row gives, or the marker.
abbrev pub snapshot_of : Option ApiKey → Option ApiKeySnapshot
snapshot_of none = none
snapshot_of (some row) = some (snapshot_from_row row)

-- What `get_apikey_snapshot` does with the cache's answer.
unfoldable pub load_apikey :
    ℕ → Db → String → Option (Option ApiKeySnapshot) × KeyCache → Option ApiKeySnapshot × KeyCache
load_apikey ticks db h (some cached, c) = (cached, c)
load_apikey ticks db h (none, c) =
    let answer = snapshot_of (find_by_hash h db.api_keys) in
    (answer, TtlCache.set str_eq ticks h answer c)

unfoldable pub get_apikey_snapshot : ℕ → Db → String → KeyCache → Option ApiKeySnapshot × KeyCache
unfolding load_apikey
get_apikey_snapshot ticks db h c = load_apikey ticks db h (TtlCache.get str_eq ticks h c)

abbrev pub epoch_of : (Datetime → ℕ) → Option Datetime → ℕ
epoch_of timestamp none = 0
epoch_of timestamp (some start) = timestamp start

abbrev pub same_id : ℕ → ℕ → Bool
same_id a b = a == b

unfoldable pub user_snapshot : ℤ → Datetime → Db → Option User → Option UserSnapshot
user_snapshot fallback now db none = none
user_snapshot fallback now db (some user) =
    some
      (record { id = user.id; status = user.status; plan_rpm = user_rpm fallback now db user.id })

unfoldable pub load_user :
    ℤ
    → ℕ
    → Datetime
    → Db
    → ℕ
    → Option (Option UserSnapshot) × UserCache
    → Option UserSnapshot × UserCache
unfolding user_snapshot
load_user fallback ticks now db uid (some cached, c) = (cached, c)
load_user fallback ticks now db uid (none, c) =
    let answer = user_snapshot fallback now db (Table.get user_id uid db.users) in
    (answer, TtlCache.set same_id ticks uid answer c)

unfoldable pub get_user_snapshot :
    ℤ → ℕ → Datetime → Db → ℕ → UserCache → Option UserSnapshot × UserCache
unfolding load_user
get_user_snapshot fallback ticks now db uid c =
    load_user fallback ticks now db uid (TtlCache.get same_id ticks uid c)

-- `_local_evict_apikey`, which `invalidate_apikey` runs in this process
unfoldable pub invalidate_apikey : String → KeyCache → KeyCache
invalidate_apikey h c = TtlCache.pop str_eq h c

unfoldable pub invalidate_user : ℕ → UserCache → UserCache
invalidate_user uid c = TtlCache.pop same_id uid c

unfoldable pub update_apikey_snapshot : ℕ → ApiKey → KeyCache → KeyCache
update_apikey_snapshot ticks row c =
    TtlCache.set str_eq ticks row.key_hash (some (snapshot_from_row row)) c

-- `window_start_epoch_for` of api/app/services/quota_cache.py; `timestamp` is `datetime.timestamp`
-- in whole seconds.
unfoldable pub window_start_epoch_for : (Datetime → ℕ) → ApiKeySnapshot → ℕ
window_start_epoch_for timestamp snap =
    if mode_periodic snap.quota_mode then epoch_of timestamp snap.quota_period_start else 0
