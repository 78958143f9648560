-- ===== src/Billing/Accounts/Gate.antt =====
-- The quota gates of api/app/services/billing.py agree with the amount that can be spent.
use llmxy.Prelude.{
  ℕ, pos, ◌≤ℤ◌, Option, none, List, [], ◌∷◌, true, false, All, ◌≡◌, refl, arith, ◌↔◌, max_ℤ,
  +ℤ_parts,
}
use llmxy.Datetime.{Datetime}
use llmxy.Models.{User, ApiKey, Subscription}
use llmxy.Db.{Db}
use llmxy.Db.Sums.{total, remaining_of}
use llmxy.Billing.Accounts.{
  is_spendable, active_subscriptions, available_cents, has_quota, key_exhausted, nonempty,
}
use llmxy.Billing.Accounts.Laws.{active-spendable}

-- Spendable rows hold a cent each at least.
pub total-spendable :
    (uid : ℕ) (now : Datetime) (ss : List Subscription)
    → All (λ s. is_spendable uid now s ≡ true) ss
    → (pos 0 ≤ℤ total remaining_of ss) × (nonempty ss ≡ true → pos 1 ≤ℤ total remaining_of ss)
unfolding total
total-spendable uid now [] a = ground arith
total-spendable uid now (s ∷ ss) a =
    ground
      (arith, total-spendable uid now ss a.1, +ℤ_parts s.remaining_cents (total remaining_of ss))

total-empty : (ss : List Subscription) → nonempty ss ≡ false → total remaining_of ss ≡ pos 0
unfolding total
total-empty [] h = refl
total-empty (s ∷ ss) h = cc

-- `has_quota` lets a request through exactly when the key is not exhausted and at least one cent is
-- available.
pub has_quota_iff :
    (db : Db) (user : User) (key : Option ApiKey) (now : Datetime)
    → (has_quota db user key now ≡ none)
      ↔ ((key_exhausted key ≡ false) × (pos 1 ≤ℤ available_cents db user now))
unfolding has_quota available_cents
has_quota_iff db user key now =
    let subs = active_subscriptions db.subscriptions user.id now in
    let sum = total remaining_of subs in
    ground (
      arith,
      total-spendable user.id now subs (active-spendable db.subscriptions user.id now),
      total-empty subs,
      +ℤ_parts sum (max_ℤ (pos 0) user.balance_cents),
    )
