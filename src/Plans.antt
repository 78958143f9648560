-- ===== src/Plans.antt =====
-- `subscribe_with_balance` of api/app/api/v1/plans.py: a plan is bought with the wallet. `now` is the
-- clock's reading in the call, `wallet_ref` the text `wallet-{user.id}`; `none` is an exception.
pub mod Purchase
pub mod Laws
mod Examples
use llmxy.Prelude.{
  ℕ, ◌+◌, ℤ, pos, ◌-ℤ◌, ltb_ℤ, leb, Option, none, some, List, [], ◌∷◌, ◌++◌, Bool, true, false,
  ◌==◌, ◌&&◌, if◌then◌else◌, ◌>>=◌, String, filter, length, or_else,
}
use llmxy.Datetime.{Datetime, before}
use llmxy.Models.{
  User, Plan, Subscription, Order, OrderStatus, PaymentChannel, BalanceTx, BalanceTxType, NoteText,
  plan_wallet, number, sub_active, plan_one_time,
}
use llmxy.Table
use llmxy.Db.{Db, plan_id, update_balance, add_tx}
use llmxy.Billing.Grant.{grant_subscription}

-- The answers 404, 409, 409 and 402 with their details.
pub data SubscribeError : Type 0 where
  plan_not_found : SubscribeError
  already_subscribed : ℕ → Datetime → SubscribeError
  purchase_limit_reached : ℕ → ℕ → SubscribeError
  insufficient_balance : (balance price shortfall : ℤ) → ℕ → SubscribeError

pub record Receipt : Type 0 where
  pub order_id : ℕ
  pub subscription_id : ℕ
  pub balance_cents : ℤ

pub data Outcome : Type 0 where
  refused : SubscribeError → Outcome
  bought : Db → Receipt → Outcome

abbrev pub is_of : ℕ → ℕ → Subscription → Bool
is_of uid pid s = (s.user_id == uid) && (s.plan_id == pid)

abbrev pub is_live : Datetime → ℕ → ℕ → Subscription → Bool
is_live now uid pid s = is_of uid pid s && sub_active s.status && before now s.current_period_end

unfoldable pub first : List Subscription → Option Subscription
first [] = none
first (s ∷ ss) = some s

-- `select(func.count(Subscription.id))` over all rows of the user and the plan
unfoldable pub purchases : ℕ → ℕ → List Subscription → ℕ
purchases uid pid ss = length (filter (is_of uid pid) ss)

unfoldable pub limit_error : Plan → ℕ → Option ℕ → Option SubscribeError
limit_error plan used none = none
limit_error plan used (some limit) =
    if plan_one_time plan.plan_type && leb limit used
    then some (purchase_limit_reached used limit)
    else none

unfoldable pub balance_error : User → Plan → Option SubscribeError
balance_error user plan =
    if ltb_ℤ (pos 0) plan.price_cents && ltb_ℤ user.balance_cents plan.price_cents
    then some (
        insufficient_balance user.balance_cents plan.price_cents
          (plan.price_cents -ℤ user.balance_cents) plan.id)
    else none

unfoldable pub existing_error : Option Subscription → Option SubscribeError
existing_error none = none
existing_error (some s) = some (already_subscribed s.id s.current_period_end)

-- The first of the errors.
abbrev pub or_error : Option SubscribeError → Option SubscribeError → Option SubscribeError
or_error none later = later
or_error (some e) later = some e

unfoldable pub refusal : Datetime → Db → User → Plan → Option SubscribeError
unfolding first purchases limit_error balance_error existing_error
refusal now db user plan =
    or_error (existing_error (first (filter (is_live now user.id plan.id) db.subscriptions))) (
      or_error
        (limit_error plan (purchases user.id plan.id db.subscriptions) plan.max_purchases_per_user)
        (balance_error user plan))

unfoldable pub add_order : Datetime → Db → User → Plan → String → Db
add_order now db user plan wallet_ref =
    let order : Order = record {
      id = db.next_id;
      user_id = user.id;
      plan_id = some plan.id;
      amount_cents = plan.price_cents;
      channel = PaymentChannel.manual;
      status = OrderStatus.paid;
      provider_order_id = some wallet_ref;
      paid_at = some now;
    } in
    record db { orders = db.orders ++ order ∷ []; next_id = db.next_id + 1 }

abbrev pub plan_tx : User → Plan → ℕ → ℤ → BalanceTx
plan_tx user plan order_id new_balance = record {
  user_id = user.id;
  type = BalanceTxType.consume;
  amount_cents = pos 0 -ℤ plan.price_cents;
  balance_after = new_balance;
  ref_id = some (number order_id);
  note = record { text = plan_wallet plan.code; sources = [] };
}

-- The wallet pays, if there is a price; the session's user gets the new balance.
unfoldable pub pay_plan : Db → User → Plan → ℕ → Option (Db × User)
unfolding update_balance
pay_plan db user plan order_id =
    if ltb_ℤ (pos 0) plan.price_cents
    then (do
      (new_balance, users') ← update_balance user.id (λ b. b -ℤ plan.price_cents) db.users
      some (
        add_tx (plan_tx user plan order_id new_balance) (record db { users = users' }),
        record user { balance_cents = new_balance },
      ))
    else some (db, user)

-- The grant and the answer.
unfoldable pub grant_plan : Datetime → Plan → ℕ → Db × User → Outcome
grant_plan now plan order_id (db, user) =
    let (db', sub) = grant_subscription now db user plan (some (number order_id)) in
    bought db'
      (record { order_id = order_id; subscription_id = sub.id; balance_cents = user.balance_cents })

unfoldable pub buy : Datetime → Db → User → Plan → String → Option SubscribeError → Option Outcome
unfolding add_order pay_plan grant_plan
buy now db user plan wallet_ref (some e) = some (refused e)
buy now db user plan wallet_ref none = do
  paid ← pay_plan (add_order now db user plan wallet_ref) user plan db.next_id
  some (grant_plan now plan db.next_id paid)

unfoldable pub subscribe_plan : Datetime → Db → User → String → Option Plan → Option Outcome
unfolding refusal buy
subscribe_plan now db user wallet_ref none = some (refused plan_not_found)
subscribe_plan now db user wallet_ref (some plan) =
    if plan.active
    then buy now db user plan wallet_ref (refusal now db user plan)
    else some (refused plan_not_found)

unfoldable pub subscribe_with_balance : Datetime → Db → ℕ → User → String → Option Outcome
unfolding subscribe_plan
subscribe_with_balance now db pid user wallet_ref =
    subscribe_plan now db user wallet_ref (Table.get plan_id pid db.plans)
