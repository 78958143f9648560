-- ===== src/Billing/Renew/Laws.antt =====
-- What a renewal does to the wallet, the period and the status.
use mathlib.Core.Path.{subst}
use llmxy.Prelude.{
  ap, sym, ◌<◌, ℤ, pos, ◌-ℤ◌, ◌≤ℤ◌, max_ℤ, ltb_ℤ, none, some, Option, Bool, true, false, ◌≡◌, ◌≢◌,
  refl, arith, Bool-cases, inl, inr, ◌⊎◌, -ℤ_zero,
}
use llmxy.Datetime.{Datetime, stamp, IsDate}
use llmxy.Models.{
  User, Plan, Subscription, sub_active, user_active, plan_one_time, RenewalError, SubStatus,
  insufficient_balance, user_inactive, plan_deleted,
}
use llmxy.Table.{get, update}
use llmxy.Table.Laws.{get-update, get-key}
use llmxy.Db.{mark_uid, add_tx, Db, user_id, plan_id, sub_id, update_balance}
use llmxy.Billing.Period.{next_period_end}
use llmxy.Billing.Period.Laws.{next_period_end-IsMonthStart, stamp-next_period_end, IsMonthStart}
use llmxy.Billing.Renew.{
  past_due_sub, refused_sub, canceled_sub, ended_sub, ends, renewal_tx, canceled_at_end,
  one_time_expired, Reason, renewed, failed, Renewal, next_period, pay_renewal, charge_renewal,
  renew_for_user, renew_by_plan, renew_subscription,
}

-- A renewal goes through only with these: the plan, an active user and a wallet that covers the
-- price.
pub record Renews (now : Datetime) (db : Db) (sub : Subscription) (r : Renewal) : Type 0 where
  pub plan : Plan
  pub user : User
  pub plan_found : get plan_id sub.plan_id db.plans ≡ some plan
  pub user_found : get user_id sub.user_id db.users ≡ some user
  pub not_canceled : sub.cancel_at_period_end ≡ false
  pub recurring : plan_one_time plan.plan_type ≡ false
  pub user_is_active : user_active user.status ≡ true
  pub covered : plan.price_cents ≤ℤ user.balance_cents
  pub paid :
      get user_id sub.user_id r.db.users
      ≡ some (record user { balance_cents = user.balance_cents -ℤ max_ℤ (pos 0) plan.price_cents })
  pub advanced : r.sub ≡ next_period now plan sub
  pub refilled : r.sub.remaining_cents ≡ plan.quota_cents
  pub starts : r.sub.current_period_start ≡ sub.current_period_end
  pub ends_next : r.sub.current_period_end ≡ next_period_end sub.current_period_end
  pub serves : r.sub.status ≡ SubStatus.active
  pub same_row : (r.sub.id ≡ sub.id) × (r.sub.user_id ≡ sub.user_id) × (r.sub.plan_id ≡ sub.plan_id)
  pub written : r.db.subscriptions ≡ update sub_id sub.id (λ _. r.sub) db.subscriptions
  pub succeeds : (r.success ≡ true) × (r.reason ≡ renewed)

-- It stops without touching a wallet or the ledger, and the subscription no longer serves.
pub record Stops (db : Db) (sub : Subscription) (r : Renewal) : Type 0 where
  pub users_same : r.db.users ≡ db.users
  pub tx_same : r.db.balance_tx ≡ db.balance_tx
  pub not_serving : sub_active r.sub.status ≡ false
  pub not_renewed : r.reason ≢ renewed
  pub period_same : r.sub.current_period_end ≡ sub.current_period_end
  pub written : r.db.subscriptions ≡ update sub_id sub.id (λ _. r.sub) db.subscriptions

abbrev Ended : Datetime → Db → Subscription → Option Renewal → Type 0
Ended now db sub o = (r : Renewal) × (o ≡ some r) × (Renews now db sub r ⊎ Stops db sub r)

abbrev pay : Plan → User → User
pay plan u = record u { balance_cents = u.balance_cents -ℤ plan.price_cents }

max_zero : (p : ℤ) → ltb_ℤ (pos 0) p ≡ false → max_ℤ (pos 0) p ≡ pos 0
max_zero p h = ground arith

pay_renewal_lem :
    (db : Db) (user : User) (plan : Plan) (sub : Subscription)
    → get user_id user.id db.users ≡ some user
    → (db' : Db) × (pay_renewal db user plan sub ≡ some db')
      × (get user_id user.id db'.users
          ≡ some (record user {
            balance_cents = user.balance_cents -ℤ max_ℤ (pos 0) plan.price_cents;
          }))
      × (db'.subscriptions ≡ db.subscriptions)
unfolding pay_renewal update_balance
pay_renewal_lem db user plan sub g = elim (Bool-cases (ltb_ℤ (pos 0) plan.price_cents)) [
  | inl some_price ↦ (
    add_tx (renewal_tx user plan sub (user.balance_cents -ℤ plan.price_cents))
        (record db { users = update user_id user.id (pay plan) db.users }),
    ground arith,
    ground (arith, get-update user_id user.id user.id (pay plan) db.users (λ r. refl)),
    refl,
  )
  | inr free ↦
      (db, ground arith, rw (max_zero plan.price_cents free, -ℤ_zero user.balance_cents) g, refl)
]

failed-ne : (e : RenewalError) → failed e ≢ renewed
failed-ne e h = cc

ne_canceled : canceled_at_end ≢ renewed
ne_canceled h = cc

ne_once : one_time_expired ≢ renewed
ne_once h = cc

module _ (now : Datetime) (db : Db) (sub : Subscription) where
  Stops-ends :
      (sub' : Subscription) (success : Bool) (reason : Reason)
      → sub_active sub'.status ≡ false
      → reason ≢ renewed
      → sub'.current_period_end ≡ sub.current_period_end
      → sub'.id ≡ sub.id
      → Stops db sub (ends db sub' success reason)
  Stops-ends sub' success reason idle ne same own = record {
    users_same = refl;
    tx_same = refl;
    not_serving = idle;
    not_renewed = ne;
    period_same = same;
    written = ap (λ k. update sub_id k (λ _. sub') db.subscriptions) own;
  }

  charge_renewal-Ended :
      (plan : Plan) (user : User)
      → get plan_id sub.plan_id db.plans ≡ some plan
      → get user_id sub.user_id db.users ≡ some user
      → sub.cancel_at_period_end ≡ false
      → plan_one_time plan.plan_type ≡ false
      → user_active user.status ≡ true
      → Ended now db sub (charge_renewal now db user plan sub)
  unfolding charge_renewal
  charge_renewal-Ended plan user gp gu live monthly act =
      let id : user.id ≡ sub.user_id = get-key user_id sub.user_id db.users user gu in
      let (db', pays, balance, kept) =
        pay_renewal_lem db user plan sub
          (subst (λ k. get user_id k db.users ≡ some user) (sym id) gu) in
      elim (Bool-cases (ltb_ℤ user.balance_cents plan.price_cents)) [
        | inl short ↦
            let error : RenewalError = insufficient_balance user.balance_cents plan.price_cents in
            (
              ends db (past_due_sub user plan sub) false (failed error),
              ground arith,
              inr (
                  Stops-ends (past_due_sub user plan sub) false (failed error) refl
                    (failed-ne error) refl refl),
            )
        | inr enough ↦ (
          ends
              (record db' {
                quota_invalidate_uids = mark_uid sub.user_id db'.quota_invalidate_uids;
              })
              (next_period now plan sub) true renewed,
          ground (arith, pays),
          inl (record {
            plan = plan;
            user = user;
            plan_found = gp;
            user_found = gu;
            not_canceled = live;
            recurring = monthly;
            user_is_active = act;
            covered = ground arith;
            paid =
                subst
                  (λ k.
                    get user_id k db'.users
                    ≡ some (record user {
                      balance_cents = user.balance_cents -ℤ max_ℤ (pos 0) plan.price_cents;
                    }))
                  id balance;
            advanced = refl;
            refilled = unfold next_period in refl;
            starts = unfold next_period in refl;
            ends_next = unfold next_period in refl;
            serves = unfold next_period in refl;
            same_row = unfold next_period in (refl, refl, refl);
            written = ap (update sub_id sub.id (λ _. next_period now plan sub)) kept;
            succeeds = (refl, refl);
          }),
        )
      ]

  renew_for_user-Ended :
      (plan : Plan) (found : Option User)
      → get plan_id sub.plan_id db.plans ≡ some plan
      → get user_id sub.user_id db.users ≡ found
      → sub.cancel_at_period_end ≡ false
      → plan_one_time plan.plan_type ≡ false
      → Ended now db sub (renew_for_user now db found plan sub)
  unfolding renew_for_user
  renew_for_user-Ended plan none gp gu live monthly = (
    ends db (refused_sub user_inactive sub) false (failed user_inactive),
    ground arith,
    inr (
        Stops-ends (refused_sub user_inactive sub) false (failed user_inactive) refl
          (failed-ne user_inactive) refl refl),
  )
  renew_for_user-Ended plan (some user) gp gu live monthly =
      elim (Bool-cases (user_active user.status)) [
        | inl act ↦
            let (r, e, how) = charge_renewal-Ended plan user gp gu live monthly act in
            (r, ground (arith, e), how)
        | inr gone ↦ (
          ends db (refused_sub user_inactive sub) false (failed user_inactive),
          ground arith,
          inr (
              Stops-ends (refused_sub user_inactive sub) false (failed user_inactive) refl
                (failed-ne user_inactive) refl refl),
        )
      ]

  renew_by_plan-Ended :
      (found : Option Plan)
      → get plan_id sub.plan_id db.plans ≡ found
      → Ended now db sub (renew_by_plan now db found sub)
  unfolding renew_by_plan
  renew_by_plan-Ended none gp = (
    ends db (refused_sub plan_deleted sub) false (failed plan_deleted),
    refl,
    inr (
        Stops-ends (refused_sub plan_deleted sub) false (failed plan_deleted) refl
          (failed-ne plan_deleted) refl refl),
  )
  renew_by_plan-Ended (some plan) gp = elim (Bool-cases sub.cancel_at_period_end) [
    | inl canceled ↦ (
      ends db (canceled_sub now sub) true canceled_at_end,
      ground arith,
      inr (
          Stops-ends (canceled_sub now sub) true canceled_at_end refl (λ e. ne_canceled e) refl
            refl),
    )
    | inr live ↦ elim (Bool-cases (plan_one_time plan.plan_type)) [
      | inl once ↦ (
        ends db (ended_sub sub) true one_time_expired,
        ground arith,
        inr (Stops-ends (ended_sub sub) true one_time_expired refl (λ e. ne_once e) refl refl),
      )
      | inr monthly ↦
          let (r, e, how) =
            renew_for_user-Ended plan (get user_id sub.user_id db.users) gp refl live monthly in
          (r, ground (arith, e), how)
    ]
  ]

-- A renewal always returns. Either it goes through: the plan exists and recurs, the subscription was
-- not to be canceled, the user is active and the balance covers the price, the wallet pays the price
-- if it is positive, and the subscription is active, holds the plan's whole quota, and has a period
-- that begins where the old one ended. Or it stops: no wallet and no ledger entry changes, the period's
-- end stays, and the subscription serves no more. Either way its row is written as it is returned.
pub renew_subscription_lem :
    (now : Datetime) (db : Db) (sub : Subscription)
    → (r : Renewal) × (renew_subscription now db sub ≡ some r)
      × (Renews now db sub r ⊎ Stops db sub r)
unfolding renew_subscription
renew_subscription_lem now db sub =
    renew_by_plan-Ended now db sub (get plan_id sub.plan_id db.plans) refl

-- The new period of a renewal begins where the old one ended, and ends later, at the start of a
-- month.
pub next_period_advances :
    (now : Datetime) (plan : Plan) (sub : Subscription)
    → IsDate sub.current_period_end
    → ((next_period now plan sub).current_period_start ≡ sub.current_period_end)
      × (stamp sub.current_period_end < stamp (next_period now plan sub).current_period_end)
      × IsMonthStart (next_period now plan sub).current_period_end
unfolding next_period
next_period_advances now plan sub v = (
  refl,
  stamp-next_period_end sub.current_period_end v,
  next_period_end-IsMonthStart sub.current_period_end v,
)
