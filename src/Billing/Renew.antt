-- ===== src/Billing/Renew.antt =====
-- `renew_subscription` of api/app/services/billing.py. The subscription's attributes are written to
-- its row by the flush that the caller's commit makes.
pub mod Laws
pub mod Scan
use llmxy.Prelude.{
  ℕ, ℤ, pos, ◌+ℤ◌, ◌-ℤ◌, ltb_ℤ, Option, none, some, List, [], ◌∷◌, Bool, true, false, if◌then◌else◌,
  ◌>>=◌, or_else, not,
}
use llmxy.Datetime.{Datetime}
use llmxy.Models.{
  User, Plan, Subscription, SubStatus, BalanceTx, BalanceTxType, RefId, NoteText, RenewalError,
  user_active, plan_one_time, sub_tag, plan_renewal, plan_deleted, user_inactive,
  insufficient_balance,
}
use llmxy.Table
use llmxy.Db.{Db, user_id, plan_id, sub_id, update_balance, add_tx, mark_uid}
use llmxy.Billing.Period.{next_period_end}

-- The reason that is returned beside the success flag.
pub data Reason : Type 0 where
  canceled_at_end one_time_expired renewed : Reason
  failed : RenewalError → Reason

pub record Renewal : Type 0 where
  pub db : Db
  pub sub : Subscription
  pub success : Bool
  pub reason : Reason

-- The flush of the changed attributes.
abbrev pub write_sub : Subscription → Db → Db
write_sub sub db = record db {
  subscriptions = Table.update sub_id sub.id (λ _. sub) db.subscriptions;
}

abbrev pub ends : Db → Subscription → Bool → Reason → Renewal
ends db sub success reason = record {
  db = write_sub sub db;
  sub = sub;
  success = success;
  reason = reason;
}

-- The next period, with the quota refilled.
unfoldable pub next_period : Datetime → Plan → Subscription → Subscription
next_period now plan sub = record sub {
  current_period_start = sub.current_period_end;
  current_period_end = next_period_end sub.current_period_end;
  remaining_cents = plan.quota_cents;
  status = SubStatus.active;
  last_renewal_at = some now;
  last_renewal_error = none;
}

abbrev pub renewal_tx : User → Plan → Subscription → ℤ → BalanceTx
renewal_tx user plan sub new_balance = record {
  user_id = user.id;
  type = BalanceTxType.consume;
  amount_cents = pos 0 -ℤ plan.price_cents;
  balance_after = new_balance;
  ref_id = some (sub_tag sub.id);
  note = record { text = plan_renewal plan.code; sources = [] };
}

-- The wallet pays the price, if there is one.
unfoldable pub pay_renewal : Db → User → Plan → Subscription → Option Db
unfolding update_balance
pay_renewal db user plan sub =
    if ltb_ℤ (pos 0) plan.price_cents
    then (do
      (new_balance, users') ← update_balance user.id (λ b. b -ℤ plan.price_cents) db.users
      some (add_tx (renewal_tx user plan sub new_balance) (record db { users = users' })))
    else some db

-- The subscription as each of the other ways leaves it.
abbrev pub past_due_sub : User → Plan → Subscription → Subscription
past_due_sub user plan sub = record sub {
  status = SubStatus.past_due;
  remaining_cents = pos 0;
  last_renewal_error = some (insufficient_balance user.balance_cents plan.price_cents);
}

abbrev pub refused_sub : RenewalError → Subscription → Subscription
refused_sub error sub = record sub { status = SubStatus.expired; last_renewal_error = some error }

abbrev pub canceled_sub : Datetime → Subscription → Subscription
canceled_sub now sub = record sub {
  status = SubStatus.expired;
  canceled_at = some (or_else sub.canceled_at now);
  remaining_cents = pos 0;
}

abbrev pub ended_sub : Subscription → Subscription
ended_sub sub = record sub {
  status = SubStatus.expired;
  remaining_cents = pos 0;
  last_renewal_error = none;
}

unfoldable pub charge_renewal : Datetime → Db → User → Plan → Subscription → Option Renewal
unfolding pay_renewal next_period
charge_renewal now db user plan sub =
    if ltb_ℤ user.balance_cents plan.price_cents
    then some (
        ends db (past_due_sub user plan sub) false
          (failed (insufficient_balance user.balance_cents plan.price_cents)))
    else do
      db' ← pay_renewal db user plan sub
      let db'' = record db' {
        quota_invalidate_uids = mark_uid sub.user_id db'.quota_invalidate_uids;
      }
      some (ends db'' (next_period now plan sub) true renewed)

unfoldable pub renew_for_user : Datetime → Db → Option User → Plan → Subscription → Option Renewal
unfolding charge_renewal
renew_for_user now db none plan sub =
    some (ends db (refused_sub user_inactive sub) false (failed user_inactive))
renew_for_user now db (some user) plan sub =
    if user_active user.status
    then charge_renewal now db user plan sub
    else some (ends db (refused_sub user_inactive sub) false (failed user_inactive))

unfoldable pub renew_by_plan : Datetime → Db → Option Plan → Subscription → Option Renewal
unfolding renew_for_user
renew_by_plan now db none sub =
    some (ends db (refused_sub plan_deleted sub) false (failed plan_deleted))
renew_by_plan now db (some plan) sub =
    if sub.cancel_at_period_end
    then some (ends db (canceled_sub now sub) true canceled_at_end)
    else if plan_one_time plan.plan_type
    then some (ends db (ended_sub sub) true one_time_expired)
    else renew_for_user now db (Table.get user_id sub.user_id db.users) plan sub

unfoldable pub renew_subscription : Datetime → Db → Subscription → Option Renewal
unfolding renew_by_plan
renew_subscription now db sub = renew_by_plan now db (Table.get plan_id sub.plan_id db.plans) sub
