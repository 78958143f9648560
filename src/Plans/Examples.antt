-- ===== src/Plans/Examples.antt =====
-- Alice buys the monthly plan, and has no second trial.
use llmxy.Prelude.{◌+◌, pos, ◌≤◌, ◌≡◌, refl, some, true, ◌⊎◌, ◌-ℤ◌, [], ◌∷◌}
use llmxy.Models.{Subscription}
use llmxy.Db.{Db, user_id}
use llmxy.Table.{get}
use llmxy.Datetime.{Datetime, before}
use llmxy.Billing.Grant.{grant_subscription}
use llmxy.Billing.Period.{initial_period_end, next_period_end}
use llmxy.Samples.{noon, alice, db, monthly, trial}
use llmxy.Plans.{
  SubscribeError, Receipt, refused, bought, already_subscribed, subscribe_with_balance, purchases,
}
use llmxy.Plans.Purchase.{Buys, subscribe_with_balance_lem}
use llmxy.Plans.Laws.{subscribe_with_balance-once, purchases-limit}

-- Alice has no subscription yet.
abbrev shop : Db
shop = record db {
  subscriptions = [];
  plans = monthly ∷ record trial { max_purchases_per_user = some 1 } ∷ [];
}

abbrev evening : Datetime
evening = record noon { micros = 80_000_000_000 }

alice_there : get user_id 1 shop.users ≡ some alice
unfolding get
alice_there = refl

subscribe_with_balance_lem_example :
    ((e : SubscribeError) × (subscribe_with_balance noon shop 1 alice "wallet-1"
        ≡ some (refused e)))
    ⊎ ((db' : Db) × (r : Receipt) × (subscribe_with_balance noon shop 1 alice "wallet-1"
          ≡ some (bought db' r))
        × Buys noon shop 1 alice db' r)
subscribe_with_balance_lem_example =
    subscribe_with_balance_lem noon shop 1 alice "wallet-1" alice_there

abbrev receipt : Receipt
receipt = record { order_id = 10; subscription_id = 11; balance_cents = pos 200 }

abbrev trial_receipt : Receipt
trial_receipt = record receipt { balance_cents = pos 500 }

bought_monthly :
    (db' : Db) × (subscribe_with_balance noon shop 1 alice "wallet-1" ≡ some (bought db' receipt))
unfolding subscribe_with_balance get grant_subscription ◌-ℤ◌
bought_monthly = (_, refl)

bought_trial :
    (db' : Db) × (subscribe_with_balance noon shop 2 alice "wallet-1"
      ≡ some (bought db' trial_receipt))
unfolding subscribe_with_balance get grant_subscription ◌-ℤ◌
bought_trial = (_, refl)

in_period : before evening (initial_period_end monthly noon) ≡ true
unfolding initial_period_end next_period_end
in_period = refl

subscribe_with_balance-once_example :
    (s : Subscription) × (subscribe_with_balance evening bought_monthly.0 1 alice "wallet-1"
      ≡ some (refused (already_subscribed s.id s.current_period_end)))
subscribe_with_balance-once_example =
    subscribe_with_balance-once noon evening shop bought_monthly.0 1 monthly alice alice "wallet-1"
      receipt alice_there (unfold get in refl) bought_monthly.1 refl in_period

purchases-limit_example :
    (purchases 1 2 bought_trial.0.subscriptions ≡ purchases 1 2 shop.subscriptions + 1)
    × (purchases 1 2 bought_trial.0.subscriptions ≤ 1)
purchases-limit_example =
    purchases-limit noon shop bought_trial.0 2 1 trial alice "wallet-1" trial_receipt alice_there
      (unfold get in refl) refl refl bought_trial.1
