-- ===== src/Billing/Grant.antt =====
-- `topup_wallet` and `grant_subscription` of api/app/services/billing.py.
pub mod Laws
use llmxy.Prelude.{ℕ, ◌+◌, ℤ, ◌+ℤ◌, Option, none, some, List, [], ◌∷◌, ◌++◌, false, ◌>>=◌}
use llmxy.Datetime.{Datetime}
use llmxy.Models.{
  User, Plan, Subscription, SubStatus, BalanceTx, BalanceTxType, RefId, NoteText, plan_grant,
}
use llmxy.Db.{Db, update_balance, add_tx, mark_uid}
use llmxy.Billing.Period.{initial_period_end}

-- The `BalanceTx` of a top-up, and the writes after the wallet's UPDATE.
unfoldable pub book_topup : Db → User → ℤ → Option RefId → NoteText → ℤ × List User → Db × User
book_topup db user amount ref_id note_text (new_balance, users') =
    let tx : BalanceTx = record {
      user_id = user.id;
      type = BalanceTxType.topup;
      amount_cents = amount;
      balance_after = new_balance;
      ref_id = ref_id;
      note = record { text = note_text; sources = [] };
    } in
    let db' = record db {
      users = users';
      quota_invalidate_uids = mark_uid user.id db.quota_invalidate_uids;
    } in
    (add_tx tx db', record user { balance_cents = new_balance })

unfoldable pub topup_wallet : Db → User → ℤ → Option RefId → NoteText → Option (Db × User)
unfolding update_balance book_topup
topup_wallet db user amount ref_id note_text = do
  out ← update_balance user.id (λ b. b +ℤ amount) db.users
  some (book_topup db user amount ref_id note_text out)

-- The row of a fresh subscription.
unfoldable pub new_subscription : ℕ → Datetime → User → Plan → Subscription
new_subscription id now user plan = record {
  id = id;
  user_id = user.id;
  plan_id = plan.id;
  start_at = now;
  current_period_start = now;
  current_period_end = initial_period_end plan now;
  status = SubStatus.active;
  remaining_cents = plan.quota_cents;
  cancel_at_period_end = false;
  canceled_at = none;
  last_renewal_at = none;
  last_renewal_error = none;
}

unfoldable pub grant_subscription : Datetime → Db → User → Plan → Option RefId → Db × Subscription
unfolding new_subscription
grant_subscription now db user plan ref_id =
    let sub = new_subscription db.next_id now user plan in
    let tx : BalanceTx = record {
      user_id = user.id;
      type = BalanceTxType.grant;
      amount_cents = plan.quota_cents;
      balance_after = user.balance_cents;
      ref_id = ref_id;
      note = record { text = plan_grant plan.code sub.id; sources = [] };
    } in
    let db' = record db {
      subscriptions = db.subscriptions ++ sub ∷ [];
      next_id = db.next_id + 1;
      quota_invalidate_uids = mark_uid user.id db.quota_invalidate_uids;
    } in
    (add_tx tx db', sub)
