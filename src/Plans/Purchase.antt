-- ===== src/Plans/Purchase.antt =====
-- A purchase: what it takes and gives.
use llmxy.Prelude.{
  ℕ, ℤ, pos, ◌-ℤ◌, ◌≤ℤ◌, ltb_ℤ, max_ℤ, -ℤ_zero, Option, none, some, [], ◌∷◌, ◌++◌, Bool, true,
  false, if◌then◌else◌, ◌≡◌, refl, ap, ◌∙◌, arith, Bool-cases, Option-cases, inl, inr, ◌⊎◌, String,
}
use llmxy.Datetime.{Datetime}
use llmxy.Models.{number, User, Plan}
use llmxy.Table.{get, update}
use llmxy.Table.Laws.{get-update}
use llmxy.Db.{Db, user_id, plan_id, update_balance}
use llmxy.Billing.Grant.{grant_subscription, new_subscription}
use llmxy.Plans.{
  Receipt, SubscribeError, refused, bought, plan_not_found, plan_tx, refusal, balance_error,
  or_error, add_order, pay_plan, grant_plan, buy, subscribe_plan, subscribe_with_balance,
}

-- What a purchase did.
pub record IsPurchase (now : Datetime) (db : Db) (user : User) (plan : Plan) (db' : Db)
    (r : Receipt) : Type 0 where
  -- the wallet pays the price, and is not overdrawn by it
  pub paid :
      get user_id user.id db'.users
      ≡ some (record user { balance_cents = user.balance_cents -ℤ max_ℤ (pos 0) plan.price_cents })
  pub covered : max_ℤ (pos 0) plan.price_cents ≤ℤ max_ℤ (pos 0) user.balance_cents
  -- one subscription is added
  pub granted :
      (id : ℕ) × (db'.subscriptions ≡ db.subscriptions ++ new_subscription id now user plan ∷ [])
  pub plans_same : db'.plans ≡ db.plans
  pub balance : r.balance_cents ≡ user.balance_cents -ℤ max_ℤ (pos 0) plan.price_cents

max_positive : (p : ℤ) → ltb_ℤ (pos 0) p ≡ true → max_ℤ (pos 0) p ≡ p
max_positive p h = ground arith

max_free : (p : ℤ) → ltb_ℤ (pos 0) p ≡ false → max_ℤ (pos 0) p ≡ pos 0
max_free p h = ground arith

balance_error-covered :
    (user : User) (plan : Plan)
    → balance_error user plan ≡ none
    → max_ℤ (pos 0) plan.price_cents ≤ℤ max_ℤ (pos 0) user.balance_cents
unfolding balance_error
balance_error-covered user plan h = ground arith

pub or_error-none : (a b : Option SubscribeError) → or_error a b ≡ none → (a ≡ none) × (b ≡ none)
or_error-none none b h = (refl, h)
or_error-none (some e) b h = cc

abbrev spend : Plan → User → User
spend plan u = record u { balance_cents = u.balance_cents -ℤ plan.price_cents }

abbrev payer : User → Plan → User
payer user plan = record user {
  balance_cents = user.balance_cents -ℤ max_ℤ (pos 0) plan.price_cents;
}

pay_plan_lem :
    (db : Db) (user : User) (plan : Plan) (order_id : ℕ)
    → get user_id user.id db.users ≡ some user
    → (p : Db × User) × (pay_plan db user plan order_id ≡ some p)
      × (get user_id user.id p.0.users ≡ some (payer user plan))
      × (p.1 ≡ payer user plan)
      × (p.0.subscriptions ≡ db.subscriptions)
      × (p.0.plans ≡ db.plans)
unfolding pay_plan update_balance
pay_plan_lem db user plan order_id g = elim (Bool-cases (ltb_ℤ (pos 0) plan.price_cents)) [
  | inl priced ↦
      let paid = get-update user_id user.id user.id (spend plan) db.users (λ r. refl) in
      (
        (
          record db {
            users = update user_id user.id (spend plan) db.users;
            balance_tx =
                db.balance_tx
                ++ plan_tx user plan order_id (user.balance_cents -ℤ plan.price_cents) ∷ [];
          },
          spend plan user,
        ),
        rw (priced, g) refl,
        rw (max_positive plan.price_cents priced) (ground (arith, paid, g)),
        rw (max_positive plan.price_cents priced) refl,
        refl,
        refl,
      )
  | inr free ↦ (
    (db, user),
    rw free refl,
    rw (max_free plan.price_cents free, -ℤ_zero user.balance_cents) g,
    rw (max_free plan.price_cents free, -ℤ_zero user.balance_cents) refl,
    refl,
    refl,
  )
]

new_subscription-id :
    (id : ℕ) (now : Datetime) (u v : User) (plan : Plan)
    → u.id ≡ v.id
    → new_subscription id now u plan ≡ new_subscription id now v plan
unfolding new_subscription
new_subscription-id id now u v plan e = rw e refl

no_error :
    (now : Datetime) (db : Db) (user : User) (plan : Plan)
    → refusal now db user plan ≡ none
    → balance_error user plan ≡ none
unfolding refusal
no_error now db user plan h = (or_error-none _ _ (or_error-none _ _ h).1).1

module _ (now : Datetime) (db : Db) (user : User) (plan : Plan) (wallet_ref : String) where
  buy-IsPurchase :
      get user_id user.id db.users ≡ some user
      → balance_error user plan ≡ none
      → (db' : Db) × (r : Receipt) × (buy now db user plan wallet_ref none ≡ some (bought db' r))
        × IsPurchase now db user plan db' r
  unfolding buy add_order grant_plan grant_subscription
  buy-IsPurchase g c =
      let order = add_order now db user plan wallet_ref in
      let (p, pays, paid, object, same, plans) = pay_plan_lem order user plan db.next_id g in
      let granted = grant_subscription now p.0 p.1 plan (some (number db.next_id)) in
      (
        granted.0,
        record {
          order_id = db.next_id;
          subscription_id = granted.1.id;
          balance_cents = p.1.balance_cents;
        },
        rw pays refl,
        record {
          paid = paid;
          covered = balance_error-covered user plan c;
          granted = (
            p.0.next_id,
            rw same (
                ap (λ x. db.subscriptions ++ x ∷ [])
                  (new_subscription-id p.0.next_id now p.1 user plan
                    (ap (λ (u : User). u.id) object))),
          );
          plans_same = plans;
          balance = ap (λ (u : User). u.balance_cents) object;
        },
      )

-- A purchase of a plan on sale, that nothing refused.
pub record Buys (now : Datetime) (db : Db) (pid : ℕ) (user : User) (db' : Db) (r : Receipt)
    : Type 0 where
  pub plan : Plan
  pub plan_found : get plan_id pid db.plans ≡ some plan
  pub on_sale : plan.active ≡ true
  pub allowed : refusal now db user plan ≡ none
  pub purchase : IsPurchase now db user plan db' r

-- The session holds the user's row: the call returns. It refuses, and changes nothing; or the plan is on
-- sale and nothing refuses it, the wallet pays the price, which its balance covers, and one
-- subscription of the user to the plan is added.
pub subscribe_with_balance_lem :
    (now : Datetime) (db : Db) (pid : ℕ) (user : User) (wallet_ref : String)
    → get user_id user.id db.users ≡ some user
    → ((e : SubscribeError) × (subscribe_with_balance now db pid user wallet_ref
          ≡ some (refused e)))
      ⊎ ((db' : Db) × (r : Receipt) × (subscribe_with_balance now db pid user wallet_ref
            ≡ some (bought db' r))
          × Buys now db pid user db' r)
unfolding subscribe_with_balance subscribe_plan
subscribe_with_balance_lem now db pid user wallet_ref g =
    elim (Option-cases (get plan_id pid db.plans)) [
      | inl gone ↦ inl (plan_not_found, rw gone refl)
      | inr (plan, found) ↦ elim (Bool-cases plan.active) [
        | inr off ↦ inl (plan_not_found, rw found (off_sale plan off))
        | inl on_sale ↦ elim (Option-cases (refusal now db user plan)) [
          | inr (e, error) ↦ inl (e, rw found (on plan on_sale ∙ rw error (unfold buy in refl)))
          | inl allowed ↦
              let (db', r, buys, is) =
                buy-IsPurchase now db user plan wallet_ref g (no_error now db user plan allowed) in
              inr (
                db',
                r,
                rw found (on plan on_sale ∙ rw allowed buys),
                record {
                  plan = plan;
                  plan_found = found;
                  on_sale = on_sale;
                  allowed = allowed;
                  purchase = is;
                },
              )
        ]
      ]
    ]
  where
    off_sale :
        (plan : Plan)
        → plan.active ≡ false
        → subscribe_plan now db user wallet_ref (some plan) ≡ some (refused plan_not_found)
    off_sale plan h =
        ap
          (λ (b : Bool).
            if b
            then buy now db user plan wallet_ref (refusal now db user plan)
            else some (refused plan_not_found))
          h

    on :
        (plan : Plan)
        → plan.active ≡ true
        → subscribe_plan now db user wallet_ref (some plan)
          ≡ buy now db user plan wallet_ref (refusal now db user plan)
    on plan h =
        ap
          (λ (b : Bool).
            if b
            then buy now db user plan wallet_ref (refusal now db user plan)
            else some (refused plan_not_found))
          h
