-- ===== src/Subscriptions.antt =====
-- The endpoints of api/app/api/v1/subscriptions.py on a user's subscription. The commit at their end
-- writes the changed attributes to the row; `none` is an exception.
pub mod Laws
pub mod Proration
mod Examples
use mathlib.Core.Option
use llmxy.Prelude.{
  [], ℕ, suc, ◌+◌, ◌*◌, ◌-◌, ◌/◌, ◌==◌, ℤ, pos, negsuc, ◌+ℤ◌, leb_ℤ, ltb_ℤ, min_ℤ, max_ℤ, Option,
  none, some, List, Bool, true, false, not, ◌&&◌, ◌||◌, if◌then◌else◌, ◌>>=◌, map, String,
}
use llmxy.Datetime.{Datetime, before}
use llmxy.Models.{
  User, Plan, Subscription, SubStatus, sub_active, BalanceTx, BalanceTxType, number, plan_refund,
}
use llmxy.Table
use llmxy.Db.{Db, user_id, plan_id, sub_id, update_balance, add_tx}
use llmxy.Billing.Renew.{Reason, renew_subscription, write_sub}

-- `sub.status in ("active", "past_due")`
abbrev pub is_live : SubStatus → Bool
is_live SubStatus.active = true
is_live SubStatus.past_due = true
is_live SubStatus.canceled = false
is_live SubStatus.expired = false

-- The subscription with the id, if it is the user's.
unfoldable pub owned_sub : Db → User → ℕ → Option Subscription
owned_sub db user id = do
  sub ← Table.get sub_id id db.subscriptions
  (if sub.user_id == user.id then some sub else none)

-- `(price * remaining) // quota` for a positive price and quota; `//` rounds down.
unfoldable pub mul_div : ℕ → ℤ → ℕ → ℤ
mul_div price (pos remaining) quota = pos (price * remaining / quota)
mul_div price (negsuc remaining) quota = negsuc ((price * suc remaining - 1) / quota)

unfoldable pub share_of : ℤ → ℤ → ℤ → ℤ
unfolding mul_div
share_of (pos price) (pos quota) remaining =
    if (price == 0) || (quota == 0)
    then pos 0
    else max_ℤ (pos 0) (min_ℤ (mul_div price remaining quota) (pos price))
share_of price quota remaining = pos 0

-- The part of the price that an immediate cancellation gives back.
unfoldable pub prorated_refund : Option Plan → Subscription → ℤ
unfolding share_of
prorated_refund none sub = pos 0
prorated_refund (some plan) sub = share_of plan.price_cents plan.quota_cents sub.remaining_cents

abbrev pub schedule : Datetime → Subscription → Subscription
schedule now sub = record sub { cancel_at_period_end = true; canceled_at = some now }

abbrev pub terminate : Datetime → Subscription → Subscription
terminate now sub = record sub {
  status = SubStatus.canceled;
  cancel_at_period_end = true;
  canceled_at = some now;
  remaining_cents = pos 0;
  current_period_end = now;
}

abbrev pub refund_tx : User → Subscription → Option Plan → ℤ → ℤ → BalanceTx
refund_tx user sub plan refund new_balance = record {
  user_id = user.id;
  type = BalanceTxType.refund;
  amount_cents = refund;
  balance_after = new_balance;
  ref_id = some (number sub.id);
  note = record {
    text = plan_refund sub.id (Option.map (λ (p : Plan). p.code) plan);
    sources = [];
  };
}

-- The wallet's credit, if there is one.
unfoldable pub pay_refund : Db → User → Subscription → Option Plan → ℤ → Option Db
unfolding update_balance
pay_refund db user sub plan refund = if leb_ℤ refund (pos 0) then some db else (do
  (new_balance, users') ← update_balance user.id (λ b. b +ℤ refund) db.users
  some (add_tx (refund_tx user sub plan refund new_balance) (record db { users = users' })))

pub data Response : Type 0 where
  not_found conflict already_scheduled scheduled not_scheduled resumed still_active : Response
  immediate : ℤ → Response
  renewal : Bool → Reason → Response

unfoldable pub cancel_live : Datetime → Db → User → Bool → Subscription → Option (Db × Response)
unfolding prorated_refund pay_refund
cancel_live now db user true sub =
    if sub.cancel_at_period_end
    then some (db, already_scheduled)
    else some (write_sub (schedule now sub) db, scheduled)
cancel_live now db user false sub =
    let plan = Table.get plan_id sub.plan_id db.plans in
    let refund = prorated_refund plan sub in
    (do
      db' ← pay_refund (write_sub (terminate now sub) db) user sub plan refund
      some (db', immediate refund))

-- 404 for another user's subscription, 409 for one that has ended, and the operation otherwise.
unfoldable pub guarded :
    Db → Option Subscription → (Subscription → Option (Db × Response)) → Option (Db × Response)
guarded db none operation = some (db, not_found)
guarded db (some sub) operation = if is_live sub.status then operation sub else some (db, conflict)

unfoldable pub cancel_subscription : Datetime → Db → User → ℕ → Bool → Option (Db × Response)
unfolding guarded owned_sub
cancel_subscription now db user id at_period_end =
    guarded db (owned_sub db user id) (cancel_live now db user at_period_end)

abbrev pub unschedule : Subscription → Subscription
unschedule sub = record sub { cancel_at_period_end = false; canceled_at = none }

unfoldable pub resume_subscription : Db → User → ℕ → Option (Db × Response)
unfolding guarded owned_sub
resume_subscription db user id = guarded db (owned_sub db user id) (λ sub.
    if sub.cancel_at_period_end
    then some (write_sub (unschedule sub) db, resumed)
    else some (db, not_scheduled))

unfoldable pub renew_now : Datetime → Db → User → ℕ → Option (Db × Response)
unfolding guarded owned_sub
renew_now now db user id = guarded db (owned_sub db user id) (λ sub.
    if sub_active sub.status && before now sub.current_period_end
    then some (db, still_active)
    else (do out ← renew_subscription now db sub; some (out.db, renewal out.success out.reason)))
