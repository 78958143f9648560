-- ===== src/Billing/Examples.antt =====
-- The billing services on the sample tables.
use mathlib.Core.Option
use llmxy.Prelude.{
  ℕ, ◌≤◌, ◌<◌, ◌+◌, ◌*◌, pos, ◌+ℤ◌, ◌-ℤ◌, ◌≤ℤ◌, min_ℤ, none, some, [], ◌∷◌, ◌++◌, true, false, ◌≡◌,
  ◌≢◌, refl, arith, All, ◌↔◌, ◌⊎◌, Bool, if◌then◌else◌,
}
use llmxy.Samples.{
  noon, new_year, alice, key, monthly, late_sub, early_sub, db, gpt, february, bobs_sub,
}
use llmxy.Datetime.{stamp, IsDate, days_in_month}
use llmxy.Models.{Breakdown, sub, wallet, Subscription, SubStatus}
use llmxy.Table.{get, update, IsKeyed}
use llmxy.Db.{Db, user_id, sub_id, key_id}
use llmxy.Db.Sums.{total, remaining_of, amount_of}
use llmxy.Billing.Period.{next_period_end}
use llmxy.Billing.Period.Laws.{IsMonthStart}
use llmxy.Billing.Pricing.{calc_cost_cents}
use llmxy.Billing.Pricing.Laws.{micro_of, calc_cost_cents_tight}
use llmxy.Billing.Accounts.{active_subscriptions, available_cents, has_quota, key_exhausted}
use llmxy.Billing.Accounts.Gate.{has_quota_iff}
use llmxy.Billing.Renew.Scan.{is_due, scan_once}
use llmxy.Billing.Renew.Scan.Steps.{IsSettled}
use llmxy.Billing.Renew.Scan.Laws.{renewal_scan-Solvent, renewal_scan_lem}
use llmxy.Billing.Charge.{Charged, drain, charge_user, count_used, set_used}
use llmxy.Billing.Charge.Laws.{IsReady, IsCharge, charge_user_lem, cents}
use llmxy.Billing.Charge.Drain.Greedy.{NonNegative}
use llmxy.Billing.Charge.Frame.{EndFirst, charge_user_order, charge_user_frame}
use llmxy.Billing.Charge.KeyCounter.{count_used_lem}
use llmxy.Billing.Refund.{Refunded, refund_to_sources}
use llmxy.Billing.Refund.Laws.{refund_to_sources_lem}
use llmxy.Billing.Refund.Exhausted.{refund_to_sources_exhausted}
use llmxy.Billing.Renew.{Renewal, renew_subscription, next_period}
use llmxy.Billing.Renew.Laws.{Renews, Stops, renew_subscription_lem, next_period_advances}

noon-IsDate : IsDate noon
unfolding days_in_month
noon-IsDate = omega arith

new_year-IsDate : IsDate new_year
unfolding days_in_month
new_year-IsDate = omega arith

db-IsReady : IsReady db alice alice
unfolding get
db-IsReady = record {
  users_keyed = (refl, (refl, tt));
  subs_keyed = (refl, (refl, (refl, tt)));
  row_found = refl;
}

new_year_comes : next_period_end noon ≡ new_year
unfolding next_period_end
new_year_comes = refl

calc_cost_cents_tight_example :
    (micro_of gpt 1000 200 ≤ calc_cost_cents (some gpt) 1000 200 * 10_000_000)
    × (calc_cost_cents (some gpt) 1000 200 * 10_000_000 < micro_of gpt 1000 200 + 10_000_000)
    × (9 ≤ calc_cost_cents (some gpt) 1000 200 * 2)
    × (calc_cost_cents (some gpt) 1000 200 * 2 < 9 + 2)
calc_cost_cents_tight_example = calc_cost_cents_tight gpt 1000 200 9 2 (omega arith) (record {
  positive = omega arith;
  not_above = omega arith;
  not_below = omega arith;
  exact = λ k e. omega (arith, e);
})

charge_user_lem_example :
    (r : Charged) × (charge_user true noon db alice (some key) (pos 90) none none ≡ some r)
    × IsCharge db alice alice noon (pos 90) r
charge_user_lem_example =
    charge_user_lem true noon db alice alice (some key) (pos 90) none none db-IsReady (omega arith)

charge_user_order_example :
    let first = (drain (early_sub ∷ []) (pos 90) db.subscriptions).structured in
    (r : Charged) × (charge_user true noon db alice (some key) (pos 90) none none ≡ some r)
    × ((rest : Breakdown) × (r.structured ≡ first ++ rest))
    × (total amount_of first ≡ min_ℤ (pos 90) (total remaining_of (early_sub ∷ [])))
    × EndFirst (early_sub ∷ []) (late_sub ∷ [])
    × All (λ s. s.user_id ≡ 1) (early_sub ∷ late_sub ∷ [])
    × ((k : ℕ) (s : Subscription)
        → get sub_id k db.subscriptions ≡ some s
        → s.user_id ≡ 1
        → s.status ≡ SubStatus.active
        → stamp noon < stamp s.current_period_end
        → pos 1 ≤ℤ s.remaining_cents
        → get sub_id k (early_sub ∷ late_sub ∷ []) ≡ some s)
unfolding active_subscriptions
charge_user_order_example =
    charge_user_order true noon db alice alice (some key) (pos 90) none none (early_sub ∷ [])
      (late_sub ∷ []) db-IsReady (omega arith) refl

charge_user_frame_example :
    (r : Charged) × (charge_user true noon db alice (some key) (pos 90) none none ≡ some r)
    × (NonNegative db.subscriptions → NonNegative r.db.subscriptions)
    × ((k : ℕ)
        → get sub_id k (active_subscriptions db.subscriptions 1 noon) ≡ none
        → get sub_id k r.db.subscriptions ≡ get sub_id k db.subscriptions)
    × ((k : ℕ) → k ≢ 1 → get user_id k r.db.users ≡ get user_id k db.users)
    × (r.db.orders ≡ db.orders)
    × (r.db.plans ≡ db.plans)
charge_user_frame_example =
    charge_user_frame true noon db alice alice (some key) (pos 90) none none db-IsReady
      (omega arith)

-- The mirrored UPDATE counts a charge of 90 cents as 180.
count_used_lem_example :
    let keys' = (count_used true (pos 90) (some key) (key ∷ [])).1 in
    (get key_id 4 keys' ≡ some (set_used (pos 10 +ℤ (pos 90 +ℤ pos 90)) key))
    × ((k : ℕ) → k ≢ 4 → get key_id k keys' ≡ get key_id k (key ∷ []))
unfolding get
count_used_lem_example = count_used_lem true (pos 90) key (key ∷ []) refl

charged_to :
    Option.map
      (λ (r : Charged). r.structured)
      (charge_user true noon db alice (some key) (pos 90) none none)
    ≡ some ((sub 6, pos 40) ∷ (sub 5, pos 30) ∷ (wallet, pos 20) ∷ [])
unfolding charge_user active_subscriptions get update ◌+ℤ◌ ◌-ℤ◌
charged_to = refl

has_quota_iff_example :
    (has_quota db alice (some key) noon ≡ none)
    ↔ ((key_exhausted (some key) ≡ false) × (pos 1 ≤ℤ available_cents db alice noon))
has_quota_iff_example = has_quota_iff db alice (some key) noon

refund_to_sources_lem_example :
    (r : Refunded) × (refund_to_sources true noon db alice none
        ((sub 6, pos 40) ∷ (wallet, pos 20) ∷ [])
        (pos 50)
        none
        none
      ≡ some r)
    × (r.total_refunded
        ≡ min_ℤ (pos 50) (total amount_of ((sub 6, pos 40) ∷ (wallet, pos 20) ∷ [])))
    × (cents r.db ≡ cents db +ℤ r.total_refunded)
refund_to_sources_lem_example =
    refund_to_sources_lem true noon db alice alice none ((sub 6, pos 40) ∷ (wallet, pos 20) ∷ [])
      (pos 50) none none db-IsReady (omega arith) refl (omega arith)

renew_subscription_lem_example :
    (r : Renewal) × (renew_subscription new_year db early_sub ≡ some r)
    × (Renews new_year db early_sub r ⊎ Stops db early_sub r)
renew_subscription_lem_example = renew_subscription_lem new_year db early_sub

next_period_advances_example :
    ((next_period new_year monthly early_sub).current_period_start ≡ new_year)
    × (stamp new_year < stamp (next_period new_year monthly early_sub).current_period_end)
    × IsMonthStart (next_period new_year monthly early_sub).current_period_end
next_period_advances_example = next_period_advances new_year monthly early_sub new_year-IsDate

abbrev drained_sub : Subscription
drained_sub = record late_sub { remaining_cents = pos 0 }

abbrev drained_db : Db
drained_db = record db { subscriptions = drained_sub ∷ early_sub ∷ [] }

drained_db-IsReady : IsReady drained_db alice alice
unfolding get
drained_db-IsReady = record {
  users_keyed = (refl, (refl, tt));
  subs_keyed = (refl, (refl, tt));
  row_found = refl;
}

drained_sub_found : get sub_id 5 drained_db.subscriptions ≡ some drained_sub
unfolding get
drained_sub_found = refl

refund_to_sources_exhausted_example :
    (r : Refunded) × (refund_to_sources true noon drained_db alice
        (some key)
        ((sub 5, pos 30) ∷ [])
        (pos 12)
        none
        none
      ≡ some r)
    × (r.db.subscriptions ≡ drained_db.subscriptions)
    × (get user_id 1 r.db.users
        ≡ some (record alice { balance_cents = pos 500 +ℤ min_ℤ (pos 30) (pos 12) }))
refund_to_sources_exhausted_example =
    refund_to_sources_exhausted true noon drained_db alice alice (some key) drained_sub (pos 30)
      (pos 12) none none drained_db-IsReady drained_sub_found (omega arith) (omega arith)
      (omega arith)

no_locks : ℕ → Bool
no_locks k = false

-- On the first of February, when Bob's subscription ends.
renewal_scan-Solvent_example :
    IsKeyed user_id (scan_once february no_locks db).users
    × All (λ u. pos 0 ≤ℤ u.balance_cents) (scan_once february no_locks db).users
renewal_scan-Solvent_example =
    renewal_scan-Solvent february no_locks db db-IsReady.users_keyed
      (omega arith, (omega arith, tt))

renewal_scan_lem_example :
    (s' : Subscription) × (get sub_id 7 (scan_once february no_locks db).subscriptions ≡ some s')
    × (if is_due february no_locks bobs_sub then IsSettled bobs_sub s' else (s' ≡ bobs_sub))
renewal_scan_lem_example =
    renewal_scan_lem february no_locks db 7 bobs_sub db-IsReady.subs_keyed (unfold get in refl)
