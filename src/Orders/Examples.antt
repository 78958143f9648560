-- ===== src/Orders/Examples.antt =====
-- Callbacks for Alice's pending order of 250 cents.
use llmxy.Prelude.{pos, ◌+ℤ◌, ◌≡◌, refl, none, some, [], ◌∷◌, true}
use llmxy.Models.{Order, OrderStatus, PaymentChannel, order_topup, number}
use llmxy.Table.{get, update, IsKeyed}
use llmxy.Db.{Db, user_id, order_id, update_balance}
use llmxy.Db.Sums.{total, balance_of}
use llmxy.Samples.{noon, new_year, alice, bob, db}
use llmxy.Billing.Grant.{topup_wallet, book_topup}
use llmxy.Orders.{
  ok, already_paid, mark_paid, ordered_plan, deliver, settle_order, callback_order,
  payment_callback,
}
use llmxy.Orders.Laws.{payment_callback-once, payment_callback-topup}

abbrev pending : Order
pending = record {
  id = 8;
  user_id = 1;
  plan_id = none;
  amount_cents = pos 250;
  channel = PaymentChannel.stripe;
  status = OrderStatus.pending;
  provider_order_id = none;
  paid_at = none;
}

abbrev shop : Db
shop = record db { orders = pending ∷ [] }

users-IsKeyed : IsKeyed user_id shop.users
unfolding get
users-IsKeyed = (refl, (refl, tt))

alice_found : get user_id 1 shop.users ≡ some alice
unfolding get
alice_found = refl

pending_found : get order_id 8 shop.orders ≡ some pending
unfolding get
pending_found = refl

payment_callback-topup_example :
    (db' : Db) × (payment_callback noon shop true 8 (some "pi_1") "stripe" ≡ some (db', ok))
    × (total balance_of db'.users ≡ total balance_of shop.users +ℤ pos 250)
    × (get order_id 8 db'.orders ≡ some (mark_paid noon (some "pi_1") pending))
    × (db'.subscriptions ≡ shop.subscriptions)
payment_callback-topup_example =
    payment_callback-topup noon shop pending alice (some "pi_1") "stripe" pending_found refl refl
      users-IsKeyed alice_found

abbrev paid_shop : Db
paid_shop =
    (book_topup (record shop { orders = mark_paid noon (some "pi_1") pending ∷ [] }) alice (pos 250)
      (some (number 8)) (order_topup 8 "stripe")
      (pos 750, record alice { balance_cents = pos 750 } ∷ bob ∷ [])).0

paid_once : payment_callback noon shop true 8 (some "pi_1") "stripe" ≡ some (paid_shop, ok)
unfolding payment_callback callback_order settle_order deliver ordered_plan topup_wallet
    update_balance book_topup get update ◌+ℤ◌
paid_once = refl

payment_callback-once_example :
    payment_callback new_year paid_shop true 8 (some "pi_2") "alipay"
    ≡ some (paid_shop, already_paid)
payment_callback-once_example =
    payment_callback-once noon new_year shop paid_shop true 8 (some "pi_1") (some "pi_2") "stripe"
      "alipay" paid_once
