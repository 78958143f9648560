-- ===== src/ImageRelay.antt =====
-- `execute_image_relay` of api/app/services/image_relay.py: a hold for the estimated cost, the call of
-- the upstream, and the reconciliation with the actual cost, along the chain of candidates. The answers
-- of the upstreams are an argument. `now` is the clock's
-- reading in the call, and `none` is an exception of the database or of the reading of a usage.
pub mod Ready
pub mod Moves
pub mod Laws
mod Examples
use Prim.Native.String.{◌++◌ as str_append}
use llmxy.Prelude.{
  ℕ, suc, ◌/◌, ◌*◌, ℤ, pos, negsuc, ◌+ℤ◌, ◌-ℤ◌, ltb_ℤ, max_ℤ, ltb, Option, none, some, List, [],
  ◌∷◌, Bool, true, false, ◌==◌, ◌&&◌, if◌then◌else◌, ◌>>=◌, String, is_some,
}
use mathlib.Core.Option as Option
use llmxy.Datetime.{Datetime}
use llmxy.Models.{User, ApiKey, Model, Channel, Breakdown, RefId, text}
use llmxy.Db.{Db, key_id, mark_uid}
use llmxy.Providers.{
  TextOps, resolve_upstream_protocol, channel_connector, get_image_adapter,
  connector_supports_protocol,
}
use llmxy.Billing.Pricing.{ceil_div, QuoteMeta, quote_image_cost_cents}
use llmxy.Billing.Accounts.{available_cents}
use llmxy.Billing.Charge.{Charged, charge_user}
use llmxy.Billing.Refund.{Refunded, refund_to_sources}

pub data LogStatus : Type 0 where
  ok timeout error : LogStatus

-- The columns of `UsageLog` that the function computes.
pub record UsageLog : Type 0 where
  pub user_id : ℕ
  pub api_key_id : Option ℕ
  pub model_id : ℕ
  pub user_facing_model : String
  pub upstream_model : String
  pub cost_cents : ℤ
  pub image_count : ℕ
  pub status : LogStatus
  pub request_id : String

-- The arguments of the call; `n` is `payload["n"]` as an integer, if it is one.
pub record Request : Type 0 where
  pub size : String
  pub quality : String
  pub n : Option ℤ
  pub prompt_text : String
  pub request_id : String
  pub user_facing_model : String

-- `max(1, n)`, and 1 for a missing or invalid number
unfoldable pub requested_n : Option ℤ → ℤ
requested_n none = pos 1
requested_n (some n) = max_ℤ (pos 1) n

-- `usage` of a body: no dictionary, counts on which `int()` raises, or the integers that it gives.
pub data Usage : Type 0 where
  unreported unreadable : Usage
  counts : ℤ → ℤ → Usage

-- What an upstream answers, with the number of images in `data`.
pub record Reply (B : Type 0) : Type 0 where
  pub status_code : ℕ
  pub images : ℕ
  pub usage : Usage
  pub body : B

pub data Message : Type 0 where
  no_upstream : Message
  no_adapter : String → Message
  unsupported : String → String → Message

pub data Body (B : Type 0) : Type 0 where
  message : Message → Body B
  upstream_body : B → Body B

-- The result of the look-ups before a call.
pub data Support : Type 0 where
  ready : Support
  lacking : Message → Support

unfoldable pub support_of : TextOps → Model → Channel → Support
support_of str model channel =
    let protocol = resolve_upstream_protocol str model channel in
    let connector = channel_connector str channel in
    if get_image_adapter str connector
    then (if connector_supports_protocol str (some connector) (some protocol)
        then ready
        else lacking (unsupported connector protocol))
    else lacking (no_adapter connector)

-- The errors that are raised, 502 and 402.
pub data RelayError : Type 0 where
  no_candidates insufficient_balance : RelayError

-- The rows that the session holds.
pub record State : Type 0 where
  pub db : Db
  pub user : User
  pub api_key : Option ApiKey

-- An answer with the log that was added, or an error raised in the state of the session.
pub data Outcome (B : Type 0) : Type 0 where
  answered : Db → UsageLog → ℕ → Body B → Outcome B
  raised : RelayError → Db → Outcome B

pub data Step (B : Type 0) : Type 0 where
  skipped : Message → Step B
  stopped : Step B
  won : State → UsageLog → Reply B → Step B
  failed : State → Reply B → Step B

abbrev pub failure_status : ℕ → LogStatus
failure_status status = if status == 504 then timeout else error

abbrev pub note_text : Request → String → Option String
note_text req tag = some (str_append req.user_facing_model tag)

abbrev pub ref_of : Request → Option RefId
ref_of req = some (text req.request_id)

abbrev pub key_of : Option ApiKey → Option ℕ
key_of none = none
key_of (some key) = some key.id

abbrev pub charged_state : Charged → State
charged_state c = record { db = c.db; user = c.user; api_key = c.api_key }

abbrev pub refunded_state : Refunded → State
refunded_state r = record { db = r.db; user = r.user; api_key = r.api_key }

abbrev pub is_success : {B : Type 0} → Reply B → Bool
is_success reply = (reply.status_code == 200) && ltb 0 reply.images

abbrev pub is_token : QuoteMeta → Bool
is_token (QuoteMeta.token s q o p) = true
is_token (QuoteMeta.per_image s q u) = false

abbrev pub times : ℤ → ℕ → ℤ
times (pos n) k = pos (n * k)
times (negsuc n) k = pos 0 -ℤ pos (suc n * k)

-- `ceil(micro / 10_000_000)`
abbrev pub ceil_cents : ℤ → ℤ
ceil_cents (pos n) = pos (ceil_div n 10_000_000)
ceil_cents (negsuc n) = pos 0 -ℤ pos (suc n / 10_000_000)

unfoldable pub usage_cost : Model → ℤ → Usage → Option ℤ
unfolding ceil_div
usage_cost model by_images unreported = some by_images
usage_cost model by_images unreadable = none
usage_cost model by_images (counts in_tok out_tok) =
    some (ceil_cents (times in_tok model.prompt_rate +ℤ times out_tok model.completion_rate))

-- The cost of what was delivered: by tokens where the price is one of tokens and the upstream
-- reported them, and otherwise the price of the images.
unfoldable pub actual_cost : {B : Type 0} → Request → Model → QuoteMeta → Reply B → Option ℤ
unfolding usage_cost
actual_cost req model details reply =
    let by_images =
      pos
        (quote_image_cost_cents model req.size req.quality (pos reply.images) req.prompt_text).0 in
    if is_token details then usage_cost model by_images reply.usage else some by_images

module _ (mirrors : Bool) (now : Datetime) (req : Request) where
  unfoldable pub charge : State → ℤ → String → Option Charged
  charge st cost tag =
      charge_user mirrors now st.db st.user st.api_key cost (ref_of req) (note_text req tag)

  unfoldable pub refund : State → Breakdown → ℤ → Option State
  refund st breakdown amount = Option.map refunded_state (
      refund_to_sources mirrors now st.db st.user st.api_key breakdown amount (ref_of req)
        (note_text req " [image-refund]"))

  -- Refund what was held in excess, or charge what is missing.
  unfoldable pub reconcile : State → Breakdown → ℕ → ℤ → Option State
  unfolding charge refund
  reconcile st breakdown estimate actual =
      if ltb_ℤ actual (pos estimate)
      then refund st breakdown (pos estimate -ℤ actual)
      else if ltb_ℤ (pos estimate) actual
      then Option.map charged_state (charge st (actual -ℤ pos estimate) " [image-adjust]")
      else some st

  abbrev pub log_of : State → Model → ℤ → ℕ → LogStatus → UsageLog
  log_of st model cost images status = record {
    user_id = st.user.id;
    api_key_id = key_of st.api_key;
    model_id = model.id;
    user_facing_model = req.user_facing_model;
    upstream_model = model.upstream_model;
    cost_cents = cost;
    image_count = images;
    status = status;
    request_id = req.request_id;
  }

  abbrev pub mark : State → Db
  mark st = record st.db { quota_invalidate_uids = mark_uid st.user.id st.db.quota_invalidate_uids }

  -- A failed call gives the hold back.
  unfoldable pub release : State → Breakdown → ℕ → Option State
  unfolding refund
  release st breakdown estimate =
      if ltb 0 estimate then refund st breakdown (pos estimate) else some st

  module _ {B : Type 0} where
    unfoldable pub after_call :
        Model → ℕ → QuoteMeta → Reply B → State → Breakdown → Option (Step B)
    unfolding reconcile release actual_cost
    after_call model estimate details reply st breakdown =
        if is_success reply
        then (do
          actual ← actual_cost req model details reply
          Option.map (λ st'. won st' (log_of st' model actual reply.images ok) reply)
              (reconcile st breakdown estimate actual))
        else Option.map (λ st'. failed st' reply) (release st breakdown estimate)

    unfoldable pub hold_and_call : State → Model → Reply B → Option (Step B)
    unfolding charge after_call
    hold_and_call st model reply =
        let (estimate, details) =
          quote_image_cost_cents model req.size req.quality (requested_n req.n) req.prompt_text in
        if ltb 0 estimate && ltb_ℤ (available_cents st.db st.user now) (pos estimate)
        then some stopped
        else do
          held ← charge st (pos estimate) " [image-hold]"
          after_call model estimate details reply (charged_state held) held.structured

    unfoldable pub attempt : State → Model → Support → Reply B → Option (Step B)
    unfolding hold_and_call
    attempt st model ready reply = hold_and_call st model reply
    attempt st model (lacking m) reply = some (skipped m)

    module _ (str : TextOps) (images : Model → Channel → Reply B) where
      -- After a candidate: `go_on` runs the rest of the chain.
      unfoldable pub follow :
          State → (State → ℕ → Body B → Option (Outcome B)) → Option (Step B) → Option (Outcome B)
      follow st go_on none = none
      follow st go_on (some (skipped m)) = go_on st 502 (message m)
      follow st go_on (some stopped) = some (raised insufficient_balance st.db)
      follow st go_on (some (won st' log reply)) =
          some (answered (mark st') log reply.status_code (upstream_body reply.body))
      follow st go_on (some (failed st' reply)) =
          go_on st' reply.status_code (upstream_body reply.body)

      -- `first` is the model that a log of failure names, `status` and `body` are the last answer.
      unfoldable pub relay :
          Model → List (Model × Channel) → State → ℕ → Body B → Option (Outcome B)
      unfolding attempt follow
      relay first [] st status body =
          some (answered (mark st) (log_of st first (pos 0) 0 (failure_status status)) status body)
      relay first ((model, channel) ∷ rest) st status body =
          follow st (λ st' status' body'. relay first rest st' status' body')
            (attempt st model (support_of str model channel) (images model channel))

      unfoldable pub execute_image_relay : State → List (Model × Channel) → Option (Outcome B)
      unfolding relay
      execute_image_relay st [] = some (raised no_candidates st.db)
      execute_image_relay st ((model, channel) ∷ rest) =
          relay model ((model, channel) ∷ rest) st 502 (message no_upstream)
