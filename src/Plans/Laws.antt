-- ===== src/Plans/Laws.antt =====
-- When a purchase is refused, and how often a plan can be bought.
use llmxy.Prelude.{
  ℕ, ◌+◌, ◌≤◌, none, some, List, [], ◌∷◌, ◌++◌, Bool, true, if◌then◌else◌, ◌≡◌, refl, sym, ap, ◌∙◌,
  arith, Bool-cases, inl, inr, String, filter, length, some_inj,
}
use mathlib.Core.Path.{subst}
use llmxy.Billing.Period.{initial_period_end}
use llmxy.Datetime.{Datetime, before}
use llmxy.Models.{User, Plan, Subscription, plan_one_time}
use llmxy.Table.{get}
use llmxy.Db.{Db, user_id, plan_id}
use llmxy.Billing.Grant.{new_subscription}
use llmxy.Plans.{
  Receipt, SubscribeError, refused, bought, already_subscribed, plan_not_found, is_of, is_live,
  first, purchases, refusal, limit_error, balance_error, existing_error, buy, subscribe_plan,
  subscribe_with_balance,
}
use llmxy.Plans.Purchase.{Buys, or_error-none, subscribe_with_balance_lem}

limit_error-under :
    (plan : Plan) (used limit : ℕ)
    → plan_one_time plan.plan_type ≡ true
    → limit_error plan used (some limit) ≡ none
    → used + 1 ≤ limit
unfolding limit_error
limit_error-under plan used limit once h = ground (arith, once)

under_limit :
    (now : Datetime) (db : Db) (user : User) (plan : Plan) (limit : ℕ)
    → plan_one_time plan.plan_type ≡ true
    → plan.max_purchases_per_user ≡ some limit
    → refusal now db user plan ≡ none
    → purchases user.id plan.id db.subscriptions + 1 ≤ limit
unfolding refusal
under_limit now db user plan limit once cap h =
    let used = purchases user.id plan.id db.subscriptions in
    let allowed : limit_error plan used plan.max_purchases_per_user ≡ none =
      (or_error-none _ (balance_error user plan)
        (or_error-none
          (existing_error (first (filter (is_live now user.id plan.id) db.subscriptions))) _
          h).1).0 in
    limit_error-under plan used limit once (rw cap at allowed)

-- A subscription that is live when the list is searched.
first-live :
    (p : Subscription → Bool) (ss : List Subscription) (s : Subscription)
    → p s ≡ true
    → (t : Subscription) × (first (filter p (ss ++ s ∷ [])) ≡ some t)
unfolding first
first-live p [] s h = (s, rw h refl)
first-live p (x ∷ ss) s h = elim (Bool-cases (p x)) [
  | inl passes ↦ (x, rw passes refl)
  | inr fails ↦ let (t, e) = first-live p ss s h in (t, rw fails e)
]

length-filter_last :
    (p : Subscription → Bool) (ss : List Subscription) (s : Subscription)
    → p s ≡ true
    → length (filter p (ss ++ s ∷ [])) ≡ length (filter p ss) + 1
length-filter_last p [] s h = rw h refl
length-filter_last p (x ∷ ss) s h = elim (Bool-cases (p x)) [
  | inl passes ↦ rw passes (omega (arith, length-filter_last p ss s h))
  | inr fails ↦ rw fails (length-filter_last p ss s h)
]

new_subscription-is_of :
    (id : ℕ) (now : Datetime) (user : User) (plan : Plan)
    → is_of user.id plan.id (new_subscription id now user plan) ≡ true
unfolding new_subscription
new_subscription-is_of id now user plan = ground arith

new_subscription-is_live :
    (id : ℕ) (now later : Datetime) (user : User) (plan : Plan)
    → before later (initial_period_end plan now) ≡ true
    → is_live later user.id plan.id (new_subscription id now user plan) ≡ true
unfolding new_subscription
new_subscription-is_live id now later user plan h = ground (arith, h)

bought_inj : {a b : Db} {r s : Receipt} → some (bought a r) ≡ some (bought b s) → (a ≡ b) × (r ≡ s)
bought_inj e = (cc, cc)

-- A purchase went through, so it has its facts.
pub bought-Buys :
    (now : Datetime) (db db' : Db) (pid : ℕ) (user : User) (wallet_ref : String) (r : Receipt)
    → get user_id user.id db.users ≡ some user
    → subscribe_with_balance now db pid user wallet_ref ≡ some (bought db' r)
    → Buys now db pid user db' r
bought-Buys now db db' pid user wallet_ref r g e =
    elim (subscribe_with_balance_lem now db pid user wallet_ref g) [
      | inl (x, error) ↦ absurd (clash (sym error ∙ e))
      | inr (a, s, made, buys) ↦
          let same = bought_inj (sym made ∙ e) in
          subst (λ (p : Db × Receipt). Buys now db pid user p.0 p.1) (both same) buys
    ]
  where
    clash : {x : SubscribeError} → some (refused x) ≡ some (bought db' r) → ⊥
    clash c = cc

    both : {a : Db} {s : Receipt} → (a ≡ db') × (s ≡ r) → ◌≡◌ {A = Db × Receipt} (a, s) (db', r)
    both h = cc

refusal-existing :
    (now : Datetime) (db : Db) (user : User) (plan : Plan) (s : Subscription)
    → first (filter (is_live now user.id plan.id) db.subscriptions) ≡ some s
    → refusal now db user plan ≡ some (already_subscribed s.id s.current_period_end)
unfolding refusal existing_error
refusal-existing now db user plan s h = rw h refl

subscribe_plan-refused :
    (now : Datetime) (db : Db) (user : User) (plan : Plan) (wallet_ref : String)
    (e : SubscribeError)
    → plan.active ≡ true
    → refusal now db user plan ≡ some e
    → subscribe_plan now db user wallet_ref (some plan) ≡ some (refused e)
unfolding subscribe_plan buy
subscribe_plan-refused now db user plan wallet_ref e on_sale h =
    ap
      (λ (b : Bool).
        if b
        then buy now db user plan wallet_ref (refusal now db user plan)
        else some (refused plan_not_found))
      on_sale
    ∙ rw h refl

-- After a purchase the same user cannot buy the plan again until the period of the subscription is
-- over: the answer is that there is a subscription already.
pub subscribe_with_balance-once :
    (now later : Datetime) (db db' : Db) (pid : ℕ) (plan : Plan) (user user' : User)
    (wallet_ref : String) (r : Receipt)
    → get user_id user.id db.users ≡ some user
    → get plan_id pid db.plans ≡ some plan
    → subscribe_with_balance now db pid user wallet_ref ≡ some (bought db' r)
    → user'.id ≡ user.id
    → before later (initial_period_end plan now) ≡ true
    → (s : Subscription) × (subscribe_with_balance later db' pid user' wallet_ref
        ≡ some (refused (already_subscribed s.id s.current_period_end)))
unfolding subscribe_with_balance
subscribe_with_balance-once now later db db' pid plan user user' wallet_ref r g found e same
      in_period =
    let b = bought-Buys now db db' pid user wallet_ref r g e in
    let is : b.plan ≡ plan = some_inj (sym b.plan_found ∙ found) in
    let (id, table) = b.purchase.granted in
    let new = new_subscription id now user b.plan in
    let live : is_live later user.id b.plan.id new ≡ true =
      new_subscription-is_live id now later user b.plan
        (ap (λ p. before later (initial_period_end p now)) is ∙ in_period) in
    let (s, there) = first-live (is_live later user.id b.plan.id) db.subscriptions new live in
    let listed : first (filter (is_live later user'.id b.plan.id) db'.subscriptions) ≡ some s =
      rw (same, table) there in
    (
      s,
      ap (subscribe_plan later db' user' wallet_ref)
            (ap (get plan_id pid) b.purchase.plans_same ∙ b.plan_found)
          ∙ subscribe_plan-refused later db' user' b.plan wallet_ref
              (already_subscribed s.id s.current_period_end) b.on_sale
              (refusal-existing later db' user' b.plan s listed),
    )

-- A plan that is bought once and has a limit per user: a purchase with the wallet goes through only if
-- it gives the user one subscription to the plan more, and not more than the limit, counting those that
-- are expired or canceled.
pub purchases-limit :
    (now : Datetime) (db db' : Db) (pid limit : ℕ) (plan : Plan) (user : User) (wallet_ref : String)
    (r : Receipt)
    → get user_id user.id db.users ≡ some user
    → get plan_id pid db.plans ≡ some plan
    → plan_one_time plan.plan_type ≡ true
    → plan.max_purchases_per_user ≡ some limit
    → subscribe_with_balance now db pid user wallet_ref ≡ some (bought db' r)
    → (purchases user.id plan.id db'.subscriptions ≡ purchases user.id plan.id db.subscriptions + 1)
      × (purchases user.id plan.id db'.subscriptions ≤ limit)
unfolding purchases
purchases-limit now db db' pid limit plan user wallet_ref r g found once cap e =
    let b = bought-Buys now db db' pid user wallet_ref r g e in
    let (id, table) = b.purchase.granted in
    let is : b.plan ≡ plan = some_inj (sym b.plan_found ∙ found) in
    let allowed : refusal now db user plan ≡ none =
      subst (λ p. refusal now db user p ≡ none) is b.allowed in
    let under = under_limit now db user plan limit once cap allowed in
    let new = new_subscription id now user b.plan in
    let own : is_of user.id plan.id new ≡ true =
      subst (λ p. is_of user.id p new ≡ true) (ap plan_id is)
        (new_subscription-is_of id now user b.plan) in
    let grown = length-filter_last (is_of user.id plan.id) db.subscriptions new own in
    (rw table (omega (arith, grown)), rw (table, grown) under)
