-- ===== src/Orders/Laws.antt =====
-- A paid order is delivered once.
use mathlib.Core.Path.{subst}
use llmxy.Prelude.{
  ℕ, ℤ, ◌+ℤ◌, ◌≡◌, refl, sym, ap, ◌∙◌, arith, Option, none, some, Bool, true, false, String,
  >>=-eq-some, some_inj, Option-cases, Bool-cases, inl, inr,
}
use llmxy.Datetime.{Datetime}
use llmxy.Models.{User, Plan, Order, order_paid, NoteText, RefId, order_topup, number}
use llmxy.Table.{get, update, IsKeyed}
use llmxy.Table.Laws.{get-update, get-key}
use llmxy.Db.{Db, user_id, order_id, update_balance}
use llmxy.Db.Sums.{total, balance_of}
use llmxy.Billing.Grant.Laws.{topup_wallet_lem}
use llmxy.Billing.Grant.{topup_wallet, book_topup, grant_subscription}
use llmxy.Orders.{
  mark_paid, ordered_plan, deliver, settle_order, Response, ok, already_paid, not_found,
  bad_request, callback_order, payment_callback,
}

topup_wallet-orders :
    (db : Db) (user : User) (amount : ℤ) (r : Option RefId) (text : NoteText) (out : Db × User)
    → topup_wallet db user amount r text ≡ some out
    → out.0.orders ≡ db.orders
unfolding topup_wallet book_topup
topup_wallet-orders db user amount r text out h =
    let (paid, e, h1) = >>=-eq-some (update_balance user.id (λ b. b +ℤ amount) db.users) _ h in
    ap (λ (o : Db × User). o.0.orders) (sym (some_inj h1))

deliver-orders :
    (now : Datetime) (db : Db) (user : User) (order : Order) (text : NoteText) (p : Option Plan)
    (db' : Db)
    → deliver now db user order text p ≡ some db'
    → db'.orders ≡ db.orders
unfolding deliver grant_subscription
deliver-orders now db user order text (some plan) db' h = ap (λ d. d.orders) (sym (some_inj h))
deliver-orders now db user order text none db' h =
    let (out, e, h1) =
      >>=-eq-some (topup_wallet db user order.amount_cents (some (number order.id)) text) _ h in
    ap (λ d. d.orders) (sym (some_inj h1))
    ∙ topup_wallet-orders db user order.amount_cents (some (number order.id)) text out e

settle_order-paid :
    (now : Datetime) (db db' : Db) (order : Order) (provider_order_id : Option String)
    (text : NoteText)
    → get order_id order.id db.orders ≡ some order
    → settle_order now db order provider_order_id text ≡ some db'
    → get order_id order.id db'.orders ≡ some (mark_paid now provider_order_id order)
unfolding settle_order
settle_order-paid now db db' order pid text g h =
    let (user, has, h1) = >>=-eq-some (get user_id order.user_id db.users) _ h in
    rw (deliver-orders now _ user order text (ordered_plan db order.plan_id) db' h1) (
      ground
        (arith, get-update order_id order.id order.id (mark_paid now pid) db.orders (λ r. refl)))

callback_order-paid :
    (now : Datetime) (db db' : Db) (id : ℕ) (pid : Option String) (text : NoteText)
    → callback_order now db pid text (get order_id id db.orders) ≡ some (db', ok)
    → (order : Order) × (get order_id id db'.orders ≡ some order) × (order_paid order.status ≡ true)
unfolding callback_order
callback_order-paid now db db' id pid text h = elim (Option-cases (get order_id id db.orders)) [
  | inl gone ↦ absurd (ok_not_found (rw gone at h))
  | inr (order, found) ↦
      let h1 = rw found at h in
      elim (Bool-cases (order_paid order.status)) [
        | inl paid ↦ absurd (ok_already (rw paid at h1))
        | inr unpaid ↦
            let (after, e, h2) =
              >>=-eq-some (settle_order now db order pid text) _ (rw unpaid at h1) in
            let same_db : after ≡ db' = ap (λ (r : Db × Response). r.0) (some_inj h2) in
            let key : order.id ≡ id = get-key order_id id db.orders order found in
            let own =
              settle_order-paid now db after order pid text
                (subst (λ k. get order_id k db.orders ≡ some order) (sym key) found) e in
            (
              mark_paid now pid order,
              subst (λ k. get order_id k db'.orders ≡ some (mark_paid now pid order)) key
                  (subst (λ d. get order_id order.id d.orders ≡ some (mark_paid now pid order))
                    same_db own),
              refl,
            )
      ]
]
  where
    ok_not_found : ◌≡◌ {A = Option (Db × Response)} (some (db, not_found)) (some (db', ok)) → ⊥
    ok_not_found v = cc

    ok_already : ◌≡◌ {A = Option (Db × Response)} (some (db, already_paid)) (some (db', ok)) → ⊥
    ok_already v = cc

-- After a callback that delivered an order, another verified callback for it, at any later time and
-- from any channel, changes nothing and reports that the order is already paid.
pub payment_callback-once :
    (now later : Datetime) (db db' : Db) (verified : Bool) (id : ℕ)
    (provider_order_id other_id : Option String) (channel other : String)
    → payment_callback now db verified id provider_order_id channel ≡ some (db', ok)
    → payment_callback later db' true id other_id other ≡ some (db', already_paid)
payment_callback-once now later db db' verified id pid other_id channel other h =
    elim (Bool-cases verified) [
      | inl signed ↦
          let (order, found, paid) =
            callback_order-paid now db db' id pid (order_topup id channel)
              (unfold payment_callback in rw signed at h) in
          unfold payment_callback in rw found (unfold callback_order in rw paid refl)
      | inr forged ↦ absurd (clash (unfold payment_callback in rw forged at h))
    ]
  where
    clash : ◌≡◌ {A = Option (Db × Response)} (some (db, bad_request)) (some (db', ok)) → ⊥
    clash v = cc

-- The first verified callback for an order without a plan, whose user has a row in a table with
-- distinct ids: it returns, the balances together grow by exactly the order's amount, the order is
-- marked as paid, and no subscription changes.
pub payment_callback-topup :
    (now : Datetime) (db : Db) (order : Order) (row : User) (pid : Option String) (channel : String)
    → get order_id order.id db.orders ≡ some order
    → order_paid order.status ≡ false
    → order.plan_id ≡ none
    → IsKeyed user_id db.users
    → get user_id order.user_id db.users ≡ some row
    → (db' : Db) × (payment_callback now db true order.id pid channel ≡ some (db', ok))
      × (total balance_of db'.users ≡ total balance_of db.users +ℤ order.amount_cents)
      × (get order_id order.id db'.orders ≡ some (mark_paid now pid order))
      × (db'.subscriptions ≡ db.subscriptions)
payment_callback-topup now db order row pid channel found unpaid planless keyed has =
    let text = order_topup order.id channel in
    let marked = record db { orders = update order_id order.id (mark_paid now pid) db.orders } in
    let same : row.id ≡ order.user_id = get-key user_id order.user_id db.users row has in
    let (out, returns, topped) =
      topup_wallet_lem marked row row order.amount_cents (some (number order.id)) text keyed
        (subst (λ k. get user_id k db.users ≡ some row) (sym same) has) in
    let settles : settle_order now db order pid text ≡ some out.0 =
      unfold settle_order deliver ordered_plan in rw (has, planless, returns) refl in
    (
      out.0,
      unfold payment_callback callback_order in rw (found, unpaid, settles) refl,
      topped.gained,
      settle_order-paid now db out.0 order pid text found settles,
      topped.subscriptions,
    )
