-- ===== src/Billing/Charge.antt =====
-- `charge_user` of api/app/services/billing.py. The rows of the subscriptions are selected FOR
-- UPDATE, so none can vanish before its UPDATE; the user's row may. `mirrors` says whether a bulk
-- UPDATE is also applied to the object that the session holds for the row (SQLAlchemy's
-- synchronize_session), which the comment in the source takes for granted.
pub mod Drain
pub mod Wallet
pub mod Frame
pub mod Laws
pub mod KeyCounter
use llmxy.Prelude.{
  ℕ, ℤ, pos, ◌+ℤ◌, ◌-ℤ◌, leb_ℤ, ltb_ℤ, min_ℤ, Option, none, some, List, [], ◌∷◌, ◌++◌, String, Bool,
  true, false, if◌then◌else◌, ◌>>=◌,
}
use llmxy.Datetime.{Datetime}
use llmxy.Models.{
  User, ApiKey, Subscription, Source, sub, wallet, Breakdown, BalanceTx, BalanceTxType, TxNote,
  RefId, NoteText, plain,
}
use llmxy.Table
use llmxy.Db.{Db, user_id, key_id, sub_id, update_balance, add_tx}
use llmxy.Billing.Accounts.{active_subscriptions}

-- What the loop over the subscriptions leaves: the part of the cost still to be paid, the table, and
-- the deductions in order.
pub record Drained : Type 0 where
  pub remaining : ℤ
  pub table : List Subscription
  pub structured : Breakdown

abbrev pub take_from : ℤ → Subscription → Subscription
take_from take s = record s { remaining_cents = s.remaining_cents -ℤ take }

-- One deduction, in front of those of the later subscriptions.
abbrev pub deduct : ℕ → ℤ → Drained → Drained
deduct sid take d = record d { structured = (sub sid, take) ∷ d.structured }

unfoldable pub drain : List Subscription → ℤ → List Subscription → Drained
drain [] remaining table = record { remaining = remaining; table = table; structured = [] }
drain (s ∷ ss) remaining table =
    let take = min_ℤ s.remaining_cents remaining in
    elim (leb_ℤ remaining (pos 0)) [
      | true ↦ record { remaining = remaining; table = table; structured = [] }
      | false ↦ elim (leb_ℤ take (pos 0)) [
        | true ↦ drain ss remaining table
        | false ↦
            deduct s.id take
              (drain ss (remaining -ℤ take) (Table.update sub_id s.id (take_from take) table))
      ]
    ]

-- The fall-back on the wallet for what is left of the cost.
unfoldable pub charge_wallet : ℤ → User → List User → Option (User × List User × Breakdown)
charge_wallet remaining user users = if leb_ℤ remaining (pos 0) then some (user, users, []) else do
  (after, users') ← update_balance user.id (λ b. b -ℤ remaining) users
  some (record user { balance_cents = after }, users', (wallet, remaining) ∷ [])

-- The session's object for a row after a bulk UPDATE of `used_cents`.
abbrev pub mirrored : Bool → (ℤ → ℤ) → ApiKey → ApiKey
mirrored mirrors f key = if mirrors then record key { used_cents = f key.used_cents } else key

abbrev pub set_used : ℤ → ApiKey → ApiKey
set_used used key = record key { used_cents = used }

abbrev pub bump_used : (ℤ → ℤ) → ApiKey → ApiKey
bump_used f key = record key { used_cents = f key.used_cents }

-- The bulk UPDATE, the assignment to the object, and the flush that writes the object's value.
unfoldable pub count_used : Bool → ℤ → Option ApiKey → List ApiKey → Option ApiKey × List ApiKey
count_used mirrors cost none keys = (none, keys)
count_used mirrors cost (some key) keys =
    let keys' = Table.update key_id key.id (bump_used (λ u. u +ℤ cost)) keys in
    let held = mirrored mirrors (λ u. u +ℤ cost) key in
    let used = held.used_cents +ℤ cost in
    (some (set_used used held), Table.update key_id key.id (set_used used) keys')

pub record Charged : Type 0 where
  pub db : Db
  pub user : User
  pub api_key : Option ApiKey
  pub structured : Breakdown

-- The writes after the deductions: the key's counter, the `BalanceTx` and the returned breakdown.
unfoldable pub settle :
    Bool
    → Db
    → User
    → Option ApiKey
    → ℤ
    → Option RefId
    → Option String
    → Drained
    → User × List User × Breakdown
    → Charged
settle mirrors db user api_key cost ref_id text drained (user', users', from_wallet) =
    let (api_key', keys') = count_used mirrors cost api_key db.api_keys in
    let structured = drained.structured ++ from_wallet in
    let tx : BalanceTx = record {
      user_id = user.id;
      type = BalanceTxType.consume;
      amount_cents = pos 0 -ℤ cost;
      balance_after = user'.balance_cents;
      ref_id = ref_id;
      note = record { text = plain text; sources = structured };
    } in
    let db' = record db { users = users'; api_keys = keys'; subscriptions = drained.table } in
    record { db = add_tx tx db'; user = user'; api_key = api_key'; structured = structured }

unfoldable pub charge_user :
    Bool → Datetime → Db → User → Option ApiKey → ℤ → Option RefId → Option String → Option Charged
unfolding drain charge_wallet count_used update_balance settle
charge_user mirrors now db user api_key cost ref_id text =
    if leb_ℤ cost (pos 0)
    then some (record { db = db; user = user; api_key = api_key; structured = [] })
    else do
      let subs = active_subscriptions db.subscriptions user.id now
      let drained = drain subs cost db.subscriptions
      out ← charge_wallet drained.remaining user db.users
      some (settle mirrors db user api_key cost ref_id text drained out)
