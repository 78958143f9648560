-- ===== src/Orders.antt =====
-- The payment callbacks of api/app/api/v1/orders.py. The provider's verdict on the callback and the
-- ids that it carries are arguments; an unknown channel and an invalid signature are both answered
-- with 400. `now` is the clock's reading in the call.
pub mod Laws
mod Examples
use llmxy.Prelude.{ℕ, Option, none, some, Bool, String, true, false, if◌then◌else◌, ◌>>=◌, ◌==◌}
use llmxy.Datetime.{Datetime}
use llmxy.Models.{
  User, Plan, Order, OrderStatus, order_paid, RefId, NoteText, order_topup, mock_topup, number,
}
use llmxy.Table
use llmxy.Db.{Db, user_id, plan_id, order_id}
use llmxy.Billing.Grant.{topup_wallet, grant_subscription}

abbrev pub mark_paid : Datetime → Option String → Order → Order
mark_paid now provider_order_id order = record order {
  status = OrderStatus.paid;
  paid_at = some now;
  provider_order_id = provider_order_id;
}

-- The plan that the order names, if it names one and the plan is still there.
unfoldable pub ordered_plan : Db → Option ℕ → Option Plan
ordered_plan db none = none
ordered_plan db (some id) = if id == 0 then none else Table.get plan_id id db.plans

-- What was paid for: a subscription to the plan, or the amount on the wallet.
unfoldable pub deliver : Datetime → Db → User → Order → NoteText → Option Plan → Option Db
deliver now db user order text (some plan) =
    some ((grant_subscription now db user plan (some (number order.id))).0)
deliver now db user order text none = do
  (db', user') ← topup_wallet db user order.amount_cents (some (number order.id)) text
  some db'

-- The order is marked, and what it paid for is delivered; without a row for the user both branches
-- raise.
unfoldable pub settle_order : Datetime → Db → Order → Option String → NoteText → Option Db
unfolding ordered_plan deliver
settle_order now db order provider_order_id text = do
  user ← Table.get user_id order.user_id db.users
  let marked = record db {
    orders = Table.update order_id order.id (mark_paid now provider_order_id) db.orders;
  }
  deliver now marked user order text (ordered_plan db order.plan_id)

pub data Response : Type 0 where
  ok already_paid bad_request not_found : Response

unfoldable pub callback_order :
    Datetime → Db → Option String → NoteText → Option Order → Option (Db × Response)
unfolding settle_order
callback_order now db provider_order_id text none = some (db, not_found)
callback_order now db provider_order_id text (some order) =
    if order_paid order.status
    then some (db, already_paid)
    else (do db' ← settle_order now db order provider_order_id text; some (db', ok))

unfoldable pub payment_callback :
    Datetime → Db → Bool → ℕ → Option String → String → Option (Db × Response)
unfolding callback_order
payment_callback now db verified id provider_order_id channel =
    if verified
    then callback_order now db provider_order_id (order_topup id channel)
        (Table.get order_id id db.orders)
    else some (db, bad_request)

-- `known` says whether there is a provider for the channel, `mock_id` is the text
-- `mock-{channel}-{order.id}`.
unfoldable pub mock_pay : Datetime → Db → Bool → ℕ → String → String → Option (Db × Response)
unfolding callback_order
mock_pay now db known id mock_id channel =
    if known
    then callback_order now db (some mock_id) (mock_topup channel) (Table.get order_id id db.orders)
    else some (db, bad_request)
