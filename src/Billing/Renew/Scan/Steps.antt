-- ===== src/Billing/Renew/Scan/Steps.antt =====
-- The writes of one renewal, as the renewals after it find the tables.
use mathlib.Core.Path.{subst}
use llmxy.Prelude.{
  ℕ, ℤ, pos, ◌-ℤ◌, ◌≤ℤ◌, ltb_ℤ, -ℤ_parts, Option, none, some, List, [], ◌∷◌, Bool, false, ◌≡◌, refl,
  sym, ap, ◌∙◌, arith, Bool-cases, inl, inr, ◌⊎◌, All, ◌==◌, ==_iff, some_inj, if◌then◌else◌,
}
use llmxy.Datetime.{Datetime}
use llmxy.Models.{User, Plan, Subscription, sub_active, user_active, plan_one_time}
use llmxy.Table.{get, update, IsKeyed}
use llmxy.Table.Laws.{update_absent, get-update_self, get-key, update-IsKeyed}
use llmxy.Db.{Db, user_id, plan_id, sub_id, update_balance}
use llmxy.Billing.Period.{next_period_end}
use llmxy.Billing.Renew.{
  Renewal, renew_subscription, renew_by_plan, renew_for_user, charge_renewal, pay_renewal,
  next_period,
}
use llmxy.Billing.Renew.Laws.{Renews, Stops, renew_subscription_lem}
use llmxy.Billing.Renew.Scan.{after_renewal}

if_false : {A : Type 0} (b : Bool) (x y o : A) → b ≡ false → (if b then x else y) ≡ o → y ≡ o
if_false b x y o h e = rw h at e

abbrev pay : ℤ → User → User
pay price u = record u { balance_cents = u.balance_cents -ℤ price }

-- The writes of a renewal to the two tables.
pub record Writes (db : Db) (sub : Subscription) (r : Renewal) : Type 0 where
  pub rows : r.db.subscriptions ≡ update sub_id sub.id (λ _. r.sub) db.subscriptions
  pub same_id : r.sub.id ≡ sub.id
  pub users :
      (r.db.users ≡ db.users)
      ⊎ ((u : User) × (price : ℤ) × (get user_id u.id db.users ≡ some u)
          × (price ≤ℤ u.balance_cents)
          × (r.db.users ≡ update user_id u.id (pay price) db.users))

module _ (now : Datetime) (db : Db) (sub : Subscription) (r : Renewal) where
  Writes-nothing_paid :
      (r' : Renewal)
      → some r' ≡ some r
      → r'.db ≡ record db { subscriptions = update sub_id sub.id (λ _. r'.sub) db.subscriptions }
      → r'.sub.id ≡ sub.id
      → Writes db sub r
  Writes-nothing_paid r' e d i = subst (Writes db sub) (some_inj e) (record {
    rows = ap (λ (x : Db). x.subscriptions) d;
    same_id = i;
    users = inl (ap (λ (x : Db). x.users) d);
  })

  charge_renewal-Writes :
      (user : User) (plan : Plan)
      → get user_id user.id db.users ≡ some user
      → charge_renewal now db user plan sub ≡ some r
      → Writes db sub r
  unfolding charge_renewal pay_renewal update_balance next_period
  charge_renewal-Writes user plan g e =
      elim (Bool-cases (ltb_ℤ user.balance_cents plan.price_cents)) [
        | inl short ↦ Writes-nothing_paid _ (rw short at e) refl refl
        | inr enough ↦ elim (Bool-cases (ltb_ℤ (pos 0) plan.price_cents)) [
          | inl priced ↦ subst (Writes db sub) (some_inj (rw (enough, priced, g) at e)) (record {
            rows = refl;
            same_id = refl;
            users = inr (user, plan.price_cents, g, ground (arith, enough), refl);
          })
          | inr free ↦
              subst (Writes db sub) (some_inj (rw (enough, free) at e))
                (record { rows = refl; same_id = refl; users = inl refl })
        ]
      ]

  renew_for_user-Writes :
      (plan : Plan) (found : Option User)
      → get user_id sub.user_id db.users ≡ found
      → renew_for_user now db found plan sub ≡ some r
      → Writes db sub r
  unfolding renew_for_user
  renew_for_user-Writes plan none g e = Writes-nothing_paid _ e refl refl
  renew_for_user-Writes plan (some user) g e = elim (Bool-cases (user_active user.status)) [
    | inl act ↦
        charge_renewal-Writes user plan
          (subst (λ k. get user_id k db.users ≡ some user)
            (sym (get-key user_id sub.user_id db.users user g)) g)
          (rw act at e)
    | inr gone ↦ Writes-nothing_paid _ (rw gone at e) refl refl
  ]

  renew_by_plan-Writes :
      (found : Option Plan) → renew_by_plan now db found sub ≡ some r → Writes db sub r
  unfolding renew_by_plan
  renew_by_plan-Writes none e = Writes-nothing_paid _ e refl refl
  renew_by_plan-Writes (some plan) e = elim (Bool-cases sub.cancel_at_period_end) [
    | inl canceled ↦ Writes-nothing_paid _ (rw canceled at e) refl refl
    | inr live ↦
        let kept = if_false sub.cancel_at_period_end _ _ (some r) live e in
        elim (Bool-cases (plan_one_time plan.plan_type)) [
          | inl once ↦ Writes-nothing_paid _ (rw once at kept) refl refl
          | inr monthly ↦ renew_for_user-Writes plan _ refl (rw monthly at kept)
        ]
  ]

  renew-Writes : renew_subscription now db sub ≡ some r → Writes db sub r
  unfolding renew_subscription
  renew-Writes e = renew_by_plan-Writes (get plan_id sub.plan_id db.plans) e

-- What a pass makes of a subscription that is due: it serves no more, or the next period has begun.
abbrev pub IsSettled : Subscription → Subscription → Type 0
IsSettled s s' =
    (sub_active s'.status ≡ false) ⊎ (s'.current_period_end ≡ next_period_end s.current_period_end)

after-IsSettled :
    (now : Datetime) (db : Db) (sub : Subscription) (r : Renewal)
    → Renews now db sub r ⊎ Stops db sub r
    → IsSettled sub r.sub
unfolding next_period
after-IsSettled now db sub r (inl h) =
    inr (ap (λ (x : Subscription). x.current_period_end) h.advanced)
after-IsSettled now db sub r (inr h) = inl h.not_serving

-- One renewal, as the next ones find the tables.
pub record Step (now : Datetime) (db : Db) (s : Subscription) (db' : Db) : Type 0 where
  pub renewed_row : Subscription
  pub settled : IsSettled s renewed_row
  pub row :
      get sub_id s.id db.subscriptions ≡ some s
      → get sub_id s.id db'.subscriptions ≡ some renewed_row
  pub others :
      (k : ℕ) → (s.id == k) ≡ false → get sub_id k db'.subscriptions ≡ get sub_id k db.subscriptions
  pub solvent :
      IsKeyed user_id db.users
      → All (λ u. pos 0 ≤ℤ u.balance_cents) db.users
      → IsKeyed user_id db'.users × All (λ u. pos 0 ≤ℤ u.balance_cents) db'.users

update-Solvent :
    (u : User) (price : ℤ) (users : List User)
    → price ≤ℤ u.balance_cents
    → get user_id u.id users ≡ some u
    → IsKeyed user_id users
    → All (λ u. pos 0 ≤ℤ u.balance_cents) users
    → All (λ u. pos 0 ≤ℤ u.balance_cents) (update user_id u.id (pay price) users)
unfolding get update
update-Solvent u price [] le g k n = tt
update-Solvent u price (x ∷ xs) le g k n = elim (Bool-cases (x.id == u.id)) [
  | inl same ↦
      let e : x.id ≡ u.id = (==_iff x.id u.id).0 same in
      let row : x ≡ u = ground arith in
      rw (same, update_absent user_id u.id (pay price) xs (rw (← e) k.0))
        (ground (arith, -ℤ_parts u.balance_cents price), n.1)
  | inr other ↦ rw other (n.0, update-Solvent u price xs le (ground arith) k.1 n.1)
]

get-update_row :
    (k j : ℕ) (x : Subscription) (rs : List Subscription)
    → x.id ≡ j
    → (j == k) ≡ false
    → get sub_id k (update sub_id j (λ _. x) rs) ≡ get sub_id k rs
unfolding get update
get-update_row k j x [] i d = refl
get-update_row k j x (r ∷ rs) i d = ground (arith, get-update_row k j x rs)

pub renewal-Step :
    (now : Datetime) (db : Db) (s : Subscription)
    → Step now db s (after_renewal db (renew_subscription now db s))
renewal-Step now db s =
    let (r, returns, how) = renew_subscription_lem now db s in
    let w = renew-Writes now db s r returns in
    rw returns (record {
      renewed_row = r.sub;
      settled = after-IsSettled now db s r how;
      row = λ g.
          ap (get sub_id s.id) w.rows
          ∙ get-update_self sub_id s.id (λ _. r.sub) db.subscriptions (λ x h. w.same_id)
          ∙ rw g refl;
      others = λ k d.
          ap (get sub_id k) w.rows ∙ get-update_row k s.id r.sub db.subscriptions w.same_id d;
      solvent = λ keyed n. elim w.users [
        | inl same ↦ rw same (keyed, n)
        | inr (u, price, g, le, e) ↦ rw e (
          update-IsKeyed user_id u.id (pay price) db.users (λ x. refl) keyed,
          update-Solvent u price db.users le g keyed n,
        )
      ];
    })
