-- ===== src/Subscriptions/Laws.antt =====
-- An immediate cancellation ends the subscription and pays its refund once.
use mathlib.Core.Option
use llmxy.Prelude.{
  ℕ, ℤ, pos, ◌+ℤ◌, ◌≤ℤ◌, leb_ℤ, ◌≡◌, refl, sym, ap, ◌∙◌, arith, int_laws, pos_part, neg_part,
  Option, none, some, Bool, true, false, Bool-cases, inl, inr, +ℤ_zero, eq_of_parts, negsuc,
}
use llmxy.Datetime.{Datetime}
use llmxy.Models.{User, Plan, Subscription}
use llmxy.Table.{get, update, IsKeyed}
use llmxy.Table.Laws.{get-update_self}
use llmxy.Db.{Db, user_id, plan_id, sub_id, update_balance, add_tx}
use llmxy.Db.Sums.{total, total-update, balance_of}
use llmxy.Billing.Renew.{write_sub}
use llmxy.Subscriptions.{
  is_live, owned_sub, share_of, prorated_refund, terminate, pay_refund, refund_tx, immediate,
  conflict, cancel_live, guarded, cancel_subscription,
}

abbrev credit : ℤ → User → User
credit amount u = record u { balance_cents = u.balance_cents +ℤ amount }

-- The credit of a refund that is not negative, in a database where the user has a row.
pay_refund_lem :
    (db : Db) (user row : User) (sub : Subscription) (plan : Option Plan) (refund : ℤ)
    → IsKeyed user_id db.users
    → get user_id user.id db.users ≡ some row
    → pos 0 ≤ℤ refund
    → (db' : Db) × (pay_refund db user sub plan refund ≡ some db')
      × (total balance_of db'.users ≡ total balance_of db.users +ℤ refund)
      × (db'.subscriptions ≡ db.subscriptions)
unfolding pay_refund update_balance
pay_refund_lem db user row sub plan refund u g h = elim (Bool-cases (leb_ℤ refund (pos 0))) [
  | inl stop ↦ (db, rw stop refl, nothing refund _ h stop, refl)
  | inr more ↦ (
    add_tx (refund_tx user sub plan refund (row.balance_cents +ℤ refund))
        (record db { users = update user_id user.id (credit refund) db.users }),
    rw (more, g) refl,
    moved _ _ _ _ (total-update user_id balance_of (credit refund) user.id db.users row u g),
    refl,
  )
]
  where
    nothing : (r t : ℤ) → pos 0 ≤ℤ r → leb_ℤ r (pos 0) ≡ true → t ≡ t +ℤ r
    nothing r t h stop =
        let zero : r ≡ pos 0 = eq_of_parts r (pos 0) (ground (arith, stop)) in
        rw zero (sym (+ℤ_zero t))

    moved : (all left b t : ℤ) → left +ℤ b ≡ all +ℤ (b +ℤ t) → left ≡ all +ℤ t
    moved all left b t e = omega (int_laws, ap pos_part e, ap neg_part e)

share_of-nonneg : (price quota remaining : ℤ) → pos 0 ≤ℤ share_of price quota remaining
unfolding share_of
share_of-nonneg (pos price) (pos quota) remaining = ground arith
share_of-nonneg (pos price) (negsuc quota) remaining = omega arith
share_of-nonneg (negsuc price) quota remaining = omega arith

prorated_refund-nonneg :
    (plan : Option Plan) (sub : Subscription) → pos 0 ≤ℤ prorated_refund plan sub
unfolding prorated_refund
prorated_refund-nonneg none sub = omega arith
prorated_refund-nonneg (some plan) sub =
    share_of-nonneg plan.price_cents plan.quota_cents sub.remaining_cents

abbrev pub refund_of : Db → Subscription → ℤ
refund_of db sub = prorated_refund (get plan_id sub.plan_id db.plans) sub

owned :
    (db : Db) (user : User) (id : ℕ) (sub : Subscription)
    → get sub_id id db.subscriptions ≡ some sub
    → sub.user_id ≡ user.id
    → owned_sub db user id ≡ some sub
unfolding owned_sub
owned db user id sub g o = rw g (ground (arith, o))

-- A user cancels at once a subscription of their own that has not ended, in a database with distinct
-- user ids and a row for the user: the call returns, the balances together grow by exactly the
-- prorated refund, the row is closed, and any later cancellation of it is refused with nothing
-- changed.
pub cancel_subscription-once :
    (now : Datetime) (db : Db) (user row : User) (sub : Subscription)
    → get sub_id sub.id db.subscriptions ≡ some sub
    → sub.user_id ≡ user.id
    → is_live sub.status ≡ true
    → IsKeyed user_id db.users
    → get user_id user.id db.users ≡ some row
    → (db' : Db) × (cancel_subscription now db user sub.id false
        ≡ some (db', immediate (refund_of db sub)))
      × (total balance_of db'.users ≡ total balance_of db.users +ℤ refund_of db sub)
      × (get sub_id sub.id db'.subscriptions ≡ some (terminate now sub))
      × ((later : Datetime) (at_period_end : Bool)
          → cancel_subscription later db' user sub.id at_period_end ≡ some (db', conflict))
cancel_subscription-once now db user row sub g o live keyed has =
    let plan = get plan_id sub.plan_id db.plans in
    let (db', paid, gained, kept) =
      pay_refund_lem (write_sub (terminate now sub) db) user row sub plan (refund_of db sub) keyed
        has (prorated_refund-nonneg plan sub) in
    let closed : get sub_id sub.id db'.subscriptions ≡ some (terminate now sub) = rw kept (
      get-update_self sub_id sub.id (λ r. terminate now sub) db.subscriptions (λ r e. refl)
      ∙ ap (Option.map (λ r. terminate now sub)) g) in
    (
      db',
      unfold cancel_subscription in
          rw (owned db user sub.id sub g o) (unfold guarded cancel_live in rw (live, paid) refl),
      gained,
      closed,
      λ later at_period_end.
          unfold cancel_subscription in
          rw (owned db' user sub.id (terminate now sub) closed o) (unfold guarded in refl),
    )
