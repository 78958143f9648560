-- ===== src/Models.antt =====
-- The rows of api/app/models/__init__.py that the modelled services read and write: the enumerations
-- and the tables, with the columns that no modelled code reads (names, emails, timestamps of
-- creation) left out.
mod Enums
pub use Enums.{
  UserStatus, KeyStatus, QuotaMode, QuotaPeriod, OrderStatus, PaymentChannel, BalanceTxType,
  PlanType, SubStatus, RouteStrategy, key_active, sub_active, user_active, mode_periodic,
  plan_one_time, order_paid,
}
use llmxy.Prelude.{ℕ, ℤ, Option, List, String, Bool}
use llmxy.Datetime.{Datetime}

pub record User : Type 0 where
  pub id : ℕ
  pub balance_cents : ℤ
  pub status : UserStatus

pub record ApiKey : Type 0 where
  pub id : ℕ
  pub user_id : ℕ
  pub key_hash : String
  pub status : KeyStatus
  pub quota_cents : ℤ
  pub used_cents : ℤ
  pub expires_at : Option Datetime
  pub quota_mode : QuotaMode
  pub quota_period : Option QuotaPeriod
  pub quota_period_start : Option Datetime
  pub quota_period_end : Option Datetime

pub record Plan : Type 0 where
  pub id : ℕ
  pub code : String
  pub plan_type : PlanType
  pub price_cents : ℤ
  pub quota_cents : ℤ
  pub duration_days : ℤ
  -- `rate_limit_jsonb["rpm"]`, where the column is a dict and the value an int
  pub rpm : Option ℤ
  pub max_purchases_per_user : Option ℕ
  pub active : Bool

-- `last_renewal_error`
pub data RenewalError : Type 0 where
  plan_deleted user_inactive : RenewalError
  insufficient_balance : ℤ → ℤ → RenewalError

pub record Subscription : Type 0 where
  pub id : ℕ
  pub user_id : ℕ
  pub plan_id : ℕ
  pub start_at : Datetime
  pub current_period_start : Datetime
  pub current_period_end : Datetime
  pub status : SubStatus
  pub remaining_cents : ℤ
  pub cancel_at_period_end : Bool
  pub canceled_at : Option Datetime
  pub last_renewal_at : Option Datetime
  pub last_renewal_error : Option RenewalError

pub record Order : Type 0 where
  pub id : ℕ
  pub user_id : ℕ
  pub plan_id : Option ℕ
  pub amount_cents : ℤ
  pub channel : PaymentChannel
  pub status : OrderStatus
  pub provider_order_id : Option String
  pub paid_at : Option Datetime

-- The source of a deduction: `("sub", sub_id, amount)` or `("wallet", 0, amount)`.
pub data Source : Type 0 where
  sub : ℕ → Source
  wallet : Source

abbrev pub Breakdown : Type 0
Breakdown = List (Source × ℤ)

-- `ref_id`: a text, `str(n)` or `f"sub#{n}"`.
pub data RefId : Type 0 where
  text : String → RefId
  number sub_tag : ℕ → RefId

-- The formatted texts that the services put into `note`.
pub data NoteText : Type 0 where
  plain : Option String → NoteText
  plan_grant : String → ℕ → NoteText
  plan_renewal plan_wallet : String → NoteText
  plan_refund : ℕ → Option String → NoteText
  order_topup : ℕ → String → NoteText
  mock_topup : String → NoteText

-- The text of `note`: what the caller gave and the sources that were appended to it in brackets.
pub record TxNote : Type 0 where
  pub text : NoteText
  pub sources : Breakdown

pub record BalanceTx : Type 0 where
  pub user_id : ℕ
  pub type : BalanceTxType
  pub amount_cents : ℤ
  pub balance_after : ℤ
  pub ref_id : Option RefId
  pub note : TxNote

-- One entry of `pricing_jsonb["tiers"]`.
pub record Tier : Type 0 where
  pub size : String
  pub quality : Option String
  pub price_micro : ℕ

-- `pricing_jsonb`; a missing number is 0 and a missing list is empty, as the code reads them.
pub record ImagePricing : Type 0 where
  pub mode : Option String
  pub tiers : List Tier
  pub default_price_micro : ℕ
  pub output_tokens : List (String × ℕ)
  pub default_out_tokens : ℕ

pub record Channel : Type 0 where
  pub id : ℕ
  pub provider_type : String
  pub connector_type : String
  pub base_url : String
  pub enabled : Bool

-- Rates are micro-cents per 1K tokens.
pub record Model : Type 0 where
  pub id : ℕ
  pub channel_id : ℕ
  pub upstream_model : String
  pub kind : String
  pub upstream_protocol : Option String
  pub prompt_rate : ℕ
  pub completion_rate : ℕ
  pub pricing : ImagePricing
  pub enabled : Bool
