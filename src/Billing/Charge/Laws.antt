-- ===== src/Billing/Charge/Laws.antt =====
-- `charge_user` moves exactly the cost, subscriptions first.
use llmxy.Prelude.{
  All-append, ℤ, pos, ◌+ℤ◌, ◌-ℤ◌, ◌≤ℤ◌, min_ℤ, int_laws, some, -ℤ_parts, Option, List, Bool, true,
  All-weaken, ◌≡◌, arith, ap, pos_part, neg_part, String, ◌∙◌,
}
use llmxy.Datetime.{Datetime}
use llmxy.Models.{RefId, User, ApiKey, Subscription, Breakdown}
use llmxy.Table.{get, IsKeyed}
use llmxy.Db.{Db, user_id, sub_id}
use llmxy.Db.Sums.{total, total-append, balance_of, remaining_of, amount_of}
use llmxy.Billing.Accounts.{active_subscriptions, is_spendable}
use llmxy.Billing.Accounts.Laws.{active-IsKeyed, active-found, active-spendable}
use llmxy.Billing.Charge.{drain, settle, Charged, charge_user}
use llmxy.Billing.Charge.Drain.{StandsIn, HasCents, drain_remaining, total-drain}
use llmxy.Billing.Charge.Drain.Greedy.{IsPositive, drain_paid, drain-IsPositive}
use llmxy.Billing.Charge.Wallet.{Falls, charge_wallet_lem}

-- The tables that a charge reads: distinct ids, and a row for the user.
pub record IsReady (db : Db) (user : User) (row : User) : Type 0 where
  pub users_keyed : IsKeyed user_id db.users
  pub subs_keyed : IsKeyed sub_id db.subscriptions
  pub row_found : get user_id user.id db.users ≡ some row

-- All the cents in the accounts.
abbrev pub cents : Db → ℤ
cents db = total remaining_of db.subscriptions +ℤ total balance_of db.users

module _ (db : Db) (user : User) (row : User) (now : Datetime) where
  abbrev pub subs : List Subscription
  subs = active_subscriptions db.subscriptions user.id now

  abbrev pub quota : ℤ
  quota = total remaining_of subs

  pub subs-HasCents : HasCents subs
  subs-HasCents =
      All-weaken (λ s. is_spendable user.id now s ≡ true) (λ s. pos 1 ≤ℤ s.remaining_cents) subs
        (λ s h. ground arith) (active-spendable db.subscriptions user.id now)

  pub subs-StandsIn : IsReady db user row → StandsIn subs db.subscriptions
  subs-StandsIn h = record {
    keyed = h.subs_keyed;
    distinct = active-IsKeyed db.subscriptions user.id now h.subs_keyed;
    found = active-found db.subscriptions user.id now h.subs_keyed;
  }

-- What a charge of `cost` has done.
pub record IsCharge (db : Db) (user row : User) (now : Datetime) (cost : ℤ) (r : Charged)
    : Type 0 where
  -- the deductions are positive and add up to the cost
  pub amounts : total amount_of r.structured ≡ cost
  pub positive : IsPositive r.structured
  -- the accounts lose exactly the cost
  pub conserved : cents r.db +ℤ cost ≡ cents db
  -- the subscriptions pay what they can, the wallet the rest
  pub from_subs :
      total remaining_of r.db.subscriptions +ℤ min_ℤ cost (quota db user row now)
      ≡ total remaining_of db.subscriptions
  pub from_wallet :
      get user_id user.id r.db.users
      ≡ some (record row {
        balance_cents = row.balance_cents -ℤ (cost -ℤ min_ℤ cost (quota db user row now));
      })

rest_paid : (cost left paid : ℤ) → left +ℤ paid ≡ cost → left ≡ cost -ℤ paid
rest_paid cost left paid e = omega (int_laws, ap pos_part e, ap neg_part e)

rest_nonneg :
    (cost left quota : ℤ) → pos 1 ≤ℤ cost → left ≡ cost -ℤ min_ℤ cost quota → pos 0 ≤ℤ left
rest_nonneg cost left quota c e =
    ground (arith, -ℤ_parts cost (min_ℤ cost quota), ap pos_part e, ap neg_part e)

sum_of_parts : (cost left paid fell : ℤ) → left +ℤ paid ≡ cost → fell ≡ left → paid +ℤ fell ≡ cost
sum_of_parts cost left paid fell e f =
    omega (int_laws, ap pos_part e, ap neg_part e, ap pos_part f, ap neg_part f)

all_lost :
    (subs' users' paid fell subs users cost : ℤ)
    → subs' +ℤ paid ≡ subs
    → users' +ℤ fell ≡ users
    → paid +ℤ fell ≡ cost
    → (subs' +ℤ users') +ℤ cost ≡ subs +ℤ users
all_lost subs' users' paid fell subs users cost e f g = omega (
  int_laws,
  ap pos_part e,
  ap neg_part e,
  ap pos_part f,
  ap neg_part f,
  ap pos_part g,
  ap neg_part g,
)

settle-IsCharge :
    (mirrors : Bool) (now : Datetime) (db : Db) (user row : User) (key : Option ApiKey) (cost : ℤ)
    (ref_id : Option RefId) (text : Option String) (out : User × List User × Breakdown)
    → IsReady db user row
    → pos 1 ≤ℤ cost
    → let d = drain (subs db user row now) cost db.subscriptions in
      Falls d.remaining user db.users row out
      → IsCharge db user row now cost (settle mirrors db user key cost ref_id text d out)
unfolding settle
settle-IsCharge mirrors now db user row key cost ref_id text out h c f =
    let ss = subs db user row now in
    let d = drain ss cost db.subscriptions in
    let cents_each = subs-HasCents db user row now in
    let from_subs = drain_paid ss cost db.subscriptions cents_each (omega arith) in
    let split = drain_remaining ss cost db.subscriptions cents_each in
    let left = rest_paid cost d.remaining (total amount_of d.structured) split in
    let rest : d.remaining ≡ cost -ℤ min_ℤ cost (quota db user row now) = rw from_subs at left in
    let fell = f.covers (rest_nonneg cost d.remaining (total remaining_of ss) c rest) in
    let both =
      sum_of_parts cost d.remaining (total amount_of d.structured) (total amount_of out.2) split
        fell in
    let table = total-drain ss cost db.subscriptions cents_each (subs-StandsIn db user row now h) in
    record {
      amounts = rw total-append both;
      positive =
          All-append _ d.structured out.2 (drain-IsPositive ss cost db.subscriptions cents_each)
            f.positive;
      conserved = all_lost _ _ _ _ _ _ _ table f.lost both;
      from_subs = rw (← from_subs) table;
      from_wallet = rw (fell ∙ rest) at (f.own_row);
    }

-- When the user has a row, a positive cost is charged: the call returns, the deductions are positive
-- and add up to the cost, the accounts lose exactly the cost, the active subscriptions pay as much of
-- it as they hold, and the wallet pays the rest.
pub charge_user_lem :
    (mirrors : Bool) (now : Datetime) (db : Db) (user row : User) (key : Option ApiKey) (cost : ℤ)
    (ref_id : Option RefId) (text : Option String)
    → IsReady db user row
    → pos 1 ≤ℤ cost
    → (r : Charged) × (charge_user mirrors now db user key cost ref_id text ≡ some r)
      × IsCharge db user row now cost r
charge_user_lem mirrors now db user row key cost ref_id text h c =
    let d = drain (subs db user row now) cost db.subscriptions in
    let (out, returns, falls) =
      charge_wallet_lem d.remaining user db.users row h.users_keyed h.row_found in
    (
      settle mirrors db user key cost ref_id text d out,
      unfold charge_user in ground (arith, returns),
      settle-IsCharge mirrors now db user row key cost ref_id text out h c falls,
    )
