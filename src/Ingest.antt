-- ===== src/Ingest.antt =====
-- `_ingest_entry` of api/app/services/envoy/als_server.py, which bills and logs a chat request when
-- Envoy reports it. `now` is the clock's reading in the call; `raised` and `invalid` say that Redis
-- raised while the charge was mirrored and while the mirror was dropped, `rejected` that the database
-- refused the rows at the commit, as it does when a log names a model or a key that is gone. Log lines of the process, latencies
-- and a failure to write the log of a failed transaction are left out.
pub mod Laws
mod Examples
use Prim.Native.String.{◌++◌ as str_append}
use llmxy.Prelude.{
  ℕ, ◌+◌, ℤ, pos, Option, none, some, List, [], ◌∷◌, ◌++◌, Bool, true, false, ◌&&◌, ltb, leb,
  if◌then◌else◌, String, str_eq, or_else,
}
use mathlib.Core.Option as Option
use llmxy.Datetime.{Datetime}
use llmxy.Models.{User, ApiKey, Model, Breakdown, RefId, text, mode_periodic}
use llmxy.Table
use llmxy.Db.{Db, user_id, key_id}
use llmxy.Billing.Pricing.{calc_cost_cents}
use llmxy.Billing.Charge.{Charged, charge_user}
use llmxy.Billing.Refund.{is_nil}
use llmxy.Snapshots.{epoch_of}
use llmxy.QuotaCache.Redis.{Redis}
use llmxy.QuotaCache.Apply.{apply_charge}

-- What is read from the headers and the metadata of an entry: an id that is missing is none, and one
-- of a model that is no number is `some none`; counts that are missing are 0.
pub record Entry : Type 0 where
  pub billed_sync : Bool
  pub request_id : String
  pub user_id : Option ℕ
  pub api_key_id : Option ℕ
  pub model_id : Option (Option ℕ)
  pub user_facing_model : Option String
  pub cls_model_id : Option ℕ
  pub cls_prompt_tokens : ℕ
  pub cls_status : Option String
  pub response_code : ℕ
  pub prompt_tokens : ℕ
  pub completion_tokens : ℕ

pub data LogKind : Type 0 where
  relay classifier : LogKind

pub record UsageLog : Type 0 where
  pub user_id : ℕ
  pub api_key_id : Option ℕ
  pub model_id : Option ℕ
  pub prompt_tokens : ℕ
  pub completion_tokens : ℕ
  pub cost_cents : ℕ
  pub status : String
  pub request_id : String
  pub kind : LogKind

pub record Ingested (R : Type 0) : Type 0 where
  pub db : Db
  pub logs : List UsageLog
  pub quota : R

abbrev pub model_key : Model → ℕ
model_key m = m.id

-- `db.get` for an id that may be missing
abbrev pub find_model : List Model → Option ℕ → Option Model
find_model models none = none
find_model models (some id) = Table.get model_key id models

abbrev pub find_key : Db → Option ℕ → Option ApiKey
find_key db none = none
find_key db (some id) = Table.get key_id id db.api_keys

abbrev pub is_ok : Entry → Bool
is_ok e = leb 200 e.response_code && ltb e.response_code 300

abbrev pub status_of : Entry → String
status_of e = if is_ok e then "ok" else "error"

abbrev pub is_image : Option Model → Bool
is_image none = false
is_image (some m) = str_eq m.kind "image"

-- The relay is billed if it succeeded, the classifier whenever it did.
unfoldable pub billable_relay : List Model → Entry → Option ℕ → ℕ
billable_relay models e mid =
    if is_ok e
    then calc_cost_cents (find_model models mid) e.prompt_tokens e.completion_tokens
    else 0

unfoldable pub cls_cost : List Model → Entry → ℕ
cls_cost models e =
    if str_eq (or_else e.cls_status "") "ok"
    then calc_cost_cents (find_model models e.cls_model_id) e.cls_prompt_tokens 0
    else 0

unfoldable pub charge_note : Entry → ℕ → ℕ → String
charge_note e cls cost =
    let name = or_else e.user_facing_model "" in
    if ltb 0 cls && ltb 0 cost
    then str_append name " [relay+classifier]"
    else if ltb 0 cls
    then str_append name " [classifier]"
    else name

unfoldable pub relay_log : Entry → ℕ → Option ℕ → ℕ → String → UsageLog
relay_log e uid mid cost status = record {
  user_id = uid;
  api_key_id = e.api_key_id;
  model_id = mid;
  prompt_tokens = e.prompt_tokens;
  completion_tokens = e.completion_tokens;
  cost_cents = cost;
  status = status;
  request_id = e.request_id;
  kind = relay;
}

-- The classifier's log, if there was a classifier.
unfoldable pub cls_logs : Entry → ℕ → Option ℕ → Option String → ℕ → List UsageLog
cls_logs e uid none status cost = []
cls_logs e uid (some id) none cost = []
cls_logs e uid (some id) (some status) cost =
    if str_eq status ""
    then []
    else record {
      user_id = uid;
      api_key_id = e.api_key_id;
      model_id = some id;
      prompt_tokens = e.cls_prompt_tokens;
      completion_tokens = 0;
      cost_cents = cost;
      status = status;
      request_id = e.request_id;
      kind = classifier;
    }
      ∷ []

-- The start of the key's window, 0 without a key or a window.
abbrev pub window_of : (Datetime → ℕ) → Option ApiKey → ℕ
window_of timestamp none = 0
window_of timestamp (some key) =
    if mode_periodic key.quota_mode then epoch_of timestamp key.quota_period_start else 0

-- What the transaction charged: the database, the deductions and the window of the key.
pub record Paid : Type 0 where
  pub db : Db
  pub structured : Breakdown
  pub window_start_epoch : ℕ

-- A user without a row is not charged. `none` is an exception, with which the transaction ends.
unfoldable pub charge_total :
    Bool → (Datetime → ℕ) → Datetime → Db → Entry → Option User → ℕ → String → Option Paid
charge_total mirrors timestamp now db e none total note =
    some (record { db = db; structured = []; window_start_epoch = 0 })
charge_total mirrors timestamp now db e (some user) total note =
    if ltb 0 total
    then Option.map
        (λ (c : Charged). record {
          db = c.db;
          structured = c.structured;
          window_start_epoch = window_of timestamp c.api_key;
        })
        (charge_user mirrors now db user (find_key db e.api_key_id) (pos total)
          (some (text e.request_id)) (some note))
    else some (record { db = db; structured = []; window_start_epoch = 0 })

module _ {R : Type 0} (redis : Redis R) (timestamp : Datetime → ℕ)
    (raised invalid rejected : Bool) where
  -- After the commit, the deductions are mirrored.
  unfoldable pub mirror : ℕ → Option ℕ → ℕ → Paid → R → R
  mirror uid kid total p r =
      if is_nil p.structured
      then r
      else apply_charge redis raised invalid uid kid (pos total) p.window_start_epoch p.structured r

  -- The commit raises if the database rejects the rows.
  unfoldable pub commit : Option Paid → Option Paid
  commit paid = if rejected then none else paid

  -- The commit with its logs, or after an exception a log of its own and no charge.
  unfoldable pub finish_tx : Db → Entry → ℕ → Option ℕ → ℕ → ℕ → R → Option Paid → Ingested R
  unfolding mirror relay_log cls_logs
  finish_tx db e uid mid cost cls r none = record {
    db = db;
    logs = relay_log e uid mid 0 "error" ∷ [];
    quota = r;
  }
  finish_tx db e uid mid cost cls r (some p) = record {
    db = p.db;
    logs = relay_log e uid mid cost (status_of e) ∷ cls_logs e uid e.cls_model_id e.cls_status cls;
    quota = mirror uid e.api_key_id (cost + cls) p r;
  }

  unfoldable pub bill : Bool → Datetime → List Model → Db → Entry → ℕ → Option ℕ → R → Ingested R
  unfolding billable_relay cls_cost charge_note charge_total commit finish_tx
  bill mirrors now models db e uid mid r =
      if is_image (find_model models mid)
      then record { db = db; logs = []; quota = r }
      else (let cost = billable_relay models e mid in
          let cls = cls_cost models e in
          finish_tx db e uid mid cost cls r (
            commit (
              charge_total mirrors timestamp now db e (Table.get user_id uid db.users) (cost + cls)
                (charge_note e cls cost))))

  unfoldable pub route_entry :
      Bool → Datetime → List Model → Db → Entry → Option ℕ → Option (Option ℕ) → R → Ingested R
  unfolding bill
  route_entry mirrors now models db e none mid r = record { db = db; logs = []; quota = r }
  route_entry mirrors now models db e (some uid) none r = record { db = db; logs = []; quota = r }
  route_entry mirrors now models db e (some uid) (some mid) r =
      bill mirrors now models db e uid mid r

  unfoldable pub ingest_entry : Bool → Datetime → List Model → Db → Entry → R → Ingested R
  unfolding route_entry
  ingest_entry mirrors now models db e r =
      if e.billed_sync
      then record { db = db; logs = []; quota = r }
      else route_entry mirrors now models db e e.user_id e.model_id r
