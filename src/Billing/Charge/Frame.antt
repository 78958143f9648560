-- ===== src/Billing/Charge/Frame.antt =====
-- The order in which `charge_user` draws, and what it leaves alone.
use mathlib.Core.List.{append_assoc}
use llmxy.Prelude.{
  ℕ, ℤ, pos, ◌-ℤ◌, ◌≤ℤ◌, min_ℤ, none, some, Option, List, [], ◌∷◌, ◌++◌, Bool, true, ◌<◌, All,
  All-weaken, ◌≡◌, ◌≢◌, refl, arith, >>=-eq-some, some_inj, String,
}
use llmxy.Datetime.{Datetime, stamp}
use llmxy.Models.{RefId, User, ApiKey, Subscription, SubStatus, Breakdown}
use llmxy.Table.{get}
use llmxy.Table.Laws.{get-update}
use llmxy.Db.{Db, user_id, sub_id, update_balance}
use llmxy.Db.Sums.{total, remaining_of, amount_of}
use llmxy.Billing.Accounts.{active_subscriptions, is_spendable}
use llmxy.Billing.Accounts.Laws.{IsSorted, EndsFrom, active_subscriptions_lem}
use llmxy.Billing.Charge.{drain, charge_wallet, settle, Charged, charge_user}
use llmxy.Billing.Charge.Drain.Greedy.{
  drain_paid, drain-NonNegative, drain_frame, drain_append, NonNegative,
}
use llmxy.Billing.Charge.Laws.{IsReady, charge_user_lem, subs-HasCents, subs-StandsIn}

-- A charge that returned came by the deductions and the fall-back on the wallet.
charge_user-settles :
    (mirrors : Bool) (now : Datetime) (db : Db) (user : User) (key : Option ApiKey) (cost : ℤ)
    (ref_id : Option RefId) (text : Option String) (r : Charged)
    → pos 1 ≤ℤ cost
    → charge_user mirrors now db user key cost ref_id text ≡ some r
    → let d = drain (active_subscriptions db.subscriptions user.id now) cost db.subscriptions in
      (out : User × List User × Breakdown) × (charge_wallet d.remaining user db.users ≡ some out)
      × (settle mirrors db user key cost ref_id text d out ≡ r)
charge_user-settles mirrors now db user key cost ref_id text r c e =
    let d = drain (active_subscriptions db.subscriptions user.id now) cost db.subscriptions in
    let (out, w, s) =
      >>=-eq-some (charge_wallet d.remaining user db.users)
        (λ out. some (settle mirrors db user key cost ref_id text d out)) {b = r}
        (unfold charge_user in ground arith) in
    (out, w, some_inj s)

charge_wallet_frame :
    (k : ℕ) (rem : ℤ) (user : User) (users : List User) (out : User × List User × Breakdown)
    → charge_wallet rem user users ≡ some out
    → k ≢ user.id
    → get user_id k out.1 ≡ get user_id k users
unfolding charge_wallet update_balance
charge_wallet_frame k rem user users out e ne = ground (
  arith,
  get-update user_id k user.id (λ u. record u { balance_cents = u.balance_cents -ℤ rem }) users
      (λ r. refl),
)

All-first {ℓ κ} : {A : Type ℓ} (P : A → Type κ) (xs ys : List A) → All P (xs ++ ys) → All P xs
All-first P [] ys h = tt
All-first P (x ∷ xs) ys h = (h.0, All-first P xs ys h.1)

order_of :
    (mirrors : Bool) (now : Datetime) (db : Db) (user : User) (key : Option ApiKey) (cost : ℤ)
    (ref_id : Option RefId) (text : Option String) (r : Charged) (xs ys : List Subscription)
    → pos 1 ≤ℤ cost
    → charge_user mirrors now db user key cost ref_id text ≡ some r
    → active_subscriptions db.subscriptions user.id now ≡ xs ++ ys
    → let first = (drain xs cost db.subscriptions).structured in
      (rest : Breakdown) × (r.structured ≡ first ++ rest)
      × (total amount_of first ≡ min_ℤ cost (total remaining_of xs))
order_of mirrors now db user key cost ref_id text r xs ys c e split =
    let (out, w, s) = charge_user-settles mirrors now db user key cost ref_id text r c e in
    let cents = rw split at (subs-HasCents db user user now) in
    let d = drain xs cost db.subscriptions in
    let late = drain ys d.remaining d.table in
    (
      late.structured ++ out.2,
      rw (← s, split, drain_append xs ys cost db.subscriptions cents)
          (unfold settle in append_assoc d.structured late.structured out.2),
      drain_paid xs cost db.subscriptions (All-first _ xs ys cents) (omega arith),
    )

frame_of :
    (mirrors : Bool) (now : Datetime) (db : Db) (user row : User) (key : Option ApiKey) (cost : ℤ)
    (ref_id : Option RefId) (text : Option String) (r : Charged)
    → IsReady db user row
    → pos 1 ≤ℤ cost
    → charge_user mirrors now db user key cost ref_id text ≡ some r
    → (NonNegative db.subscriptions → NonNegative r.db.subscriptions)
      × ((k : ℕ)
          → get sub_id k (active_subscriptions db.subscriptions user.id now) ≡ none
          → get sub_id k r.db.subscriptions ≡ get sub_id k db.subscriptions)
      × ((k : ℕ) → k ≢ user.id → get user_id k r.db.users ≡ get user_id k db.users)
      × (r.db.orders ≡ db.orders)
      × (r.db.plans ≡ db.plans)
frame_of mirrors now db user row key cost ref_id text r h c e =
    let (out, w, s) = charge_user-settles mirrors now db user key cost ref_id text r c e in
    let ss = active_subscriptions db.subscriptions user.id now in
    let cents = subs-HasCents db user row now in
    rw (← s) (
      λ n.
          unfold settle in
          drain-NonNegative ss cost db.subscriptions cents (subs-StandsIn db user row now h) n,
      λ k absent. unfold settle in drain_frame k ss cost db.subscriptions cents absent,
      λ k ne.
          unfold settle in
          charge_wallet_frame k (drain ss cost db.subscriptions).remaining user db.users out w ne,
      (unfold settle in refl),
      (unfold settle in refl),
    )

All-last {ℓ κ} : {A : Type ℓ} (P : A → Type κ) (xs ys : List A) → All P (xs ++ ys) → All P ys
All-last P [] ys h = h
All-last P (x ∷ xs) ys h = All-last P xs ys h.1

-- What ends no later than a subscription stands before it.
abbrev pub EndFirst : List Subscription → List Subscription → Type 0
EndFirst xs ys = All (λ s. EndsFrom (stamp s.current_period_end) ys) xs

IsSorted-EndFirst : (xs ys : List Subscription) → IsSorted (xs ++ ys) → EndFirst xs ys
IsSorted-EndFirst [] ys h = tt
IsSorted-EndFirst (x ∷ xs) ys h = (All-last _ xs ys h.0, IsSorted-EndFirst xs ys h.1)

-- When the user has a row, a positive cost is charged, and the subscriptions are drawn on in the
-- order in which they end: wherever the list of active ones is cut in two, no row of the first part
-- ends later than one of the second, the deductions begin with those that the first part alone would
-- bear, and these come to the cost or, if that is less, to all that the first part holds. The list
-- holds subscriptions of the user only, and all those that are active, run on and hold a cent.
pub charge_user_order :
    (mirrors : Bool) (now : Datetime) (db : Db) (user row : User) (key : Option ApiKey) (cost : ℤ)
    (ref_id : Option RefId) (text : Option String) (xs ys : List Subscription)
    → IsReady db user row
    → pos 1 ≤ℤ cost
    → active_subscriptions db.subscriptions user.id now ≡ xs ++ ys
    → let first = (drain xs cost db.subscriptions).structured in
      (r : Charged) × (charge_user mirrors now db user key cost ref_id text ≡ some r)
      × ((rest : Breakdown) × (r.structured ≡ first ++ rest))
      × (total amount_of first ≡ min_ℤ cost (total remaining_of xs))
      × EndFirst xs ys
      × All (λ s. s.user_id ≡ user.id) (xs ++ ys)
      × ((k : ℕ) (s : Subscription)
          → get sub_id k db.subscriptions ≡ some s
          → s.user_id ≡ user.id
          → s.status ≡ SubStatus.active
          → stamp now < stamp s.current_period_end
          → pos 1 ≤ℤ s.remaining_cents
          → get sub_id k (xs ++ ys) ≡ some s)
charge_user_order mirrors now db user row key cost ref_id text xs ys h c split =
    let (r, e, done) = charge_user_lem mirrors now db user row key cost ref_id text h c in
    let (rest, parts, sum) = order_of mirrors now db user key cost ref_id text r xs ys c e split in
    let (sorted, rows, complete) =
      active_subscriptions_lem db.subscriptions user.id now h.subs_keyed in
    (
      r,
      e,
      (rest, parts),
      sum,
      IsSorted-EndFirst xs ys (rw split at sorted),
      rw split at (All-weaken _ (λ s. s.user_id ≡ user.id) _ (λ s g. ground (arith, g.1)) rows),
      λ k s g own on late left. rw split at (complete k s g (spendable s own on late left)),
    )
  where
    spendable :
        (s : Subscription)
        → s.user_id ≡ user.id
        → s.status ≡ SubStatus.active
        → stamp now < stamp s.current_period_end
        → pos 1 ≤ℤ s.remaining_cents
        → is_spendable user.id now s ≡ true
    spendable s own on late left = rw (own, on) (ground arith)

-- When the user has a row, a positive cost is charged, and the charge drives no subscription below
-- zero, touches no subscription outside the user's active ones and no other user's wallet, and leaves
-- orders and plans as they are.
pub charge_user_frame :
    (mirrors : Bool) (now : Datetime) (db : Db) (user row : User) (key : Option ApiKey) (cost : ℤ)
    (ref_id : Option RefId) (text : Option String)
    → IsReady db user row
    → pos 1 ≤ℤ cost
    → (r : Charged) × (charge_user mirrors now db user key cost ref_id text ≡ some r)
      × (NonNegative db.subscriptions → NonNegative r.db.subscriptions)
      × ((k : ℕ)
          → get sub_id k (active_subscriptions db.subscriptions user.id now) ≡ none
          → get sub_id k r.db.subscriptions ≡ get sub_id k db.subscriptions)
      × ((k : ℕ) → k ≢ user.id → get user_id k r.db.users ≡ get user_id k db.users)
      × (r.db.orders ≡ db.orders)
      × (r.db.plans ≡ db.plans)
charge_user_frame mirrors now db user row key cost ref_id text h c =
    let (r, e, done) = charge_user_lem mirrors now db user row key cost ref_id text h c in
    let (a, b, d, f, g) = frame_of mirrors now db user row key cost ref_id text r h c e in
    (r, e, a, b, d, f, g)
