-- ===== src/Models/Enums.antt =====
-- The enumerations of api/app/models/__init__.py, with the tests that the services make on them.
use llmxy.Prelude.{Bool, true, false}

pub data UserStatus : Type 0 where
  active disabled : UserStatus

pub data KeyStatus : Type 0 where
  active disabled expired : KeyStatus

pub data QuotaMode : Type 0 where
  until_depleted periodic : QuotaMode

pub data QuotaPeriod : Type 0 where
  day week month : QuotaPeriod

pub data OrderStatus : Type 0 where
  pending paid canceled refunded : OrderStatus

pub data PaymentChannel : Type 0 where
  alipay wechat stripe manual : PaymentChannel

pub data RouteStrategy : Type 0 where
  weighted round_robin smart : RouteStrategy

pub data BalanceTxType : Type 0 where
  topup consume refund grant : BalanceTxType

pub data PlanType : Type 0 where
  recurring one_time : PlanType

-- The texts that `Subscription.status` takes.
pub data SubStatus : Type 0 where
  active past_due canceled expired : SubStatus

abbrev pub user_active : UserStatus → Bool
user_active UserStatus.active = true
user_active UserStatus.disabled = false

abbrev pub key_active : KeyStatus → Bool
key_active KeyStatus.active = true
key_active KeyStatus.disabled = false
key_active KeyStatus.expired = false

abbrev pub sub_active : SubStatus → Bool
sub_active SubStatus.active = true
sub_active SubStatus.past_due = false
sub_active SubStatus.canceled = false
sub_active SubStatus.expired = false

abbrev pub mode_periodic : QuotaMode → Bool
mode_periodic QuotaMode.until_depleted = false
mode_periodic QuotaMode.periodic = true

abbrev pub plan_one_time : PlanType → Bool
plan_one_time PlanType.recurring = false
plan_one_time PlanType.one_time = true

abbrev pub order_paid : OrderStatus → Bool
order_paid OrderStatus.pending = false
order_paid OrderStatus.paid = true
order_paid OrderStatus.canceled = false
order_paid OrderStatus.refunded = false
