-- ===== src/Db.antt =====
-- The database as one session of the program sees it: the tables of api/app/models/__init__.py that
-- the services touch, the ids that the next inserts get, and the set of users whose cached quota the
-- `after_commit` hook of api/app/db/session.py drops. A transaction that raises is rolled back, so a
-- function that may raise returns `none` and no database.
pub mod Sums
use llmxy.Prelude.{ℕ, ◌+◌, ℤ, Option, none, some, List, [], ◌∷◌, ◌++◌, member, if◌then◌else◌, ◌>>=◌}
use llmxy.Models.{User, ApiKey, Plan, Subscription, Order, BalanceTx}
use llmxy.Table

pub record Db : Type 0 where
  pub users : List User
  pub api_keys : List ApiKey
  pub plans : List Plan
  pub subscriptions : List Subscription
  pub orders : List Order
  pub balance_tx : List BalanceTx
  pub next_id : ℕ
  pub quota_invalidate_uids : List ℕ

abbrev pub user_id : User → ℕ
user_id u = u.id

abbrev pub key_id : ApiKey → ℕ
key_id k = k.id

abbrev pub plan_id : Plan → ℕ
plan_id p = p.id

abbrev pub sub_id : Subscription → ℕ
sub_id s = s.id

abbrev pub order_id : Order → ℕ
order_id o = o.id

-- `db.info.setdefault("_quota_invalidate_uids", set()).add(uid)`
abbrev pub mark_uid : ℕ → List ℕ → List ℕ
mark_uid uid uids = if member uid uids then uids else uid ∷ uids

abbrev pub add_tx : BalanceTx → Db → Db
add_tx tx db = record db { balance_tx = db.balance_tx ++ tx ∷ [] }

-- `update(User).where(User.id == uid).values(balance_cents=f(balance_cents)).returning(...)` and
-- `scalar_one()`: the new balance with the table, or an exception if the user has no row.
unfoldable pub update_balance : ℕ → (ℤ → ℤ) → List User → Option (ℤ × List User)
update_balance uid f users = do
  row ← Table.get user_id uid users
  let after = f row.balance_cents
  some (after, Table.update user_id uid (λ u. record u { balance_cents = f u.balance_cents }) users)
