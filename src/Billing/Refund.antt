-- ===== src/Billing/Refund.antt =====
-- `refund_to_sources` of api/app/services/billing.py. `mirrors` is as in `Billing/Charge`.
pub mod Shares
pub mod Exhausted
pub mod Laws
use llmxy.Prelude.{
  ℕ, ℤ, pos, ◌+ℤ◌, ◌-ℤ◌, leb_ℤ, ltb_ℤ, min_ℤ, max_ℤ, Option, none, some, List, [], ◌∷◌, ◌++◌,
  String, Bool, true, false, if◌then◌else◌, ◌>>=◌, is_some, ◌||◌, map,
}
use llmxy.Datetime.{Datetime}
use llmxy.Models.{
  User, ApiKey, Subscription, Source, sub, wallet, Breakdown, BalanceTx, BalanceTxType, TxNote,
  RefId, NoteText, plain,
}
use llmxy.Table
use llmxy.Db.{Db, user_id, key_id, sub_id, update_balance, add_tx, mark_uid}
use llmxy.Db.Sums.{total}
use llmxy.Billing.Accounts.{active_subscriptions}
use llmxy.Billing.Charge.{mirrored, set_used, bump_used}

abbrev pub wallet_amount : Source × ℤ → ℤ
wallet_amount (sub sid, amt) = pos 0
wallet_amount (wallet, amt) = amt

-- The refunds to subscriptions, in order, and the share that goes to the wallet instead.
pub record Spread : Type 0 where
  pub sub_refunds : List (ℕ × ℤ)
  pub to_wallet : ℤ

abbrev pub give_back : Bool → ℕ → ℤ → Spread → Spread
give_back is_active sid give s =
    if is_active
    then record s { sub_refunds = (sid, give) ∷ s.sub_refunds }
    else record s { to_wallet = give +ℤ s.to_wallet }

-- The loop over the breakdown, for the amount that the wallet's own share leaves open.
unfoldable pub spread : List Subscription → Breakdown → ℤ → Spread
spread active [] rem = record { sub_refunds = []; to_wallet = pos 0 }
spread active ((wallet, amt) ∷ bd) rem = spread active bd rem
spread active ((sub sid, amt) ∷ bd) rem =
    let give = min_ℤ amt rem in
    elim (leb_ℤ rem (pos 0)) [
      | true ↦ spread active bd rem
      | false ↦
          give_back (is_some (Table.get sub_id sid active)) sid give
            (spread active bd (rem -ℤ give))
    ]

abbrev pub give_to : ℤ → Subscription → Subscription
give_to give s = record s { remaining_cents = s.remaining_cents +ℤ give }

unfoldable pub refund_subs : List (ℕ × ℤ) → List Subscription → List Subscription
refund_subs [] table = table
refund_subs ((sid, give) ∷ rest) table =
    refund_subs rest (Table.update sub_id sid (give_to give) table)

unfoldable pub refund_wallet : ℤ → User → List User → Option (User × List User)
refund_wallet amount user users = if leb_ℤ amount (pos 0) then some (user, users) else do
  (after, users') ← update_balance user.id (λ b. b +ℤ amount) users
  some (record user { balance_cents = after }, users')

abbrev pub given : ℕ × ℤ → ℤ
given (sid, give) = give

-- The bulk UPDATE, the assignment of `max(0, ...)` to the object, and the flush.
unfoldable pub uncount_used : Bool → ℤ → Option ApiKey → List ApiKey → Option ApiKey × List ApiKey
uncount_used mirrors refunded none keys = (none, keys)
uncount_used mirrors refunded (some key) keys =
    if leb_ℤ refunded (pos 0)
    then (some key, keys)
    else (let keys' = Table.update key_id key.id (bump_used (λ u. u -ℤ refunded)) keys in
        let held = mirrored mirrors (λ u. u -ℤ refunded) key in
        let used = max_ℤ (pos 0) (held.used_cents -ℤ refunded) in
        (some (set_used used held), Table.update key_id key.id (set_used used) keys'))

pub record Refunded : Type 0 where
  pub db : Db
  pub user : User
  pub api_key : Option ApiKey
  pub total_refunded : ℤ

-- The share of the wallet itself, and the split of the rest.
abbrev pub own_share : Breakdown → ℤ → ℤ
own_share breakdown refund_cents = min_ℤ (total wallet_amount breakdown) refund_cents

unfoldable pub split_refund : List Subscription → Breakdown → ℤ → Spread
split_refund active breakdown refund_cents =
    let own = own_share breakdown refund_cents in
    let s = spread active breakdown (refund_cents -ℤ own) in
    record s { to_wallet = own +ℤ s.to_wallet }

abbrev pub is_nil : Breakdown → Bool
is_nil [] = true
is_nil (b ∷ bd) = false

-- The wallet's part of the note and then those of the subscriptions.
abbrev pub refund_sources : Spread → Breakdown
refund_sources s =
    let subs : Breakdown = map (λ (r : ℕ × ℤ). (sub r.0, r.1)) s.sub_refunds in
    if ltb_ℤ (pos 0) s.to_wallet then (wallet, s.to_wallet) ∷ subs else subs

-- The writes after the wallet's UPDATE: the subscriptions, the key's counter and the `BalanceTx`.
unfoldable pub settle_refund :
    Bool
    → Db
    → User
    → Option ApiKey
    → Option RefId
    → Option String
    → Spread
    → User × List User
    → Refunded
settle_refund mirrors db user api_key ref_id text s (user', users') =
    let total_refunded = s.to_wallet +ℤ total given s.sub_refunds in
    let (api_key', keys') = uncount_used mirrors total_refunded api_key db.api_keys in
    let tx : BalanceTx = record {
      user_id = user.id;
      type = BalanceTxType.refund;
      amount_cents = total_refunded;
      balance_after = user'.balance_cents;
      ref_id = ref_id;
      note = record { text = plain text; sources = refund_sources s };
    } in
    let db' = record db {
      users = users';
      api_keys = keys';
      subscriptions = refund_subs s.sub_refunds db.subscriptions;
      quota_invalidate_uids = mark_uid user.id db.quota_invalidate_uids;
    } in
    record { db = add_tx tx db'; user = user'; api_key = api_key'; total_refunded = total_refunded }

unfoldable pub refund_to_sources :
    Bool
    → Datetime
    → Db
    → User
    → Option ApiKey
    → Breakdown
    → ℤ
    → Option RefId
    → Option String
    → Option Refunded
unfolding spread split_refund refund_subs refund_wallet uncount_used update_balance settle_refund
refund_to_sources mirrors now db user api_key breakdown refund_cents ref_id text =
    if leb_ℤ refund_cents (pos 0) || is_nil breakdown
    then some (record { db = db; user = user; api_key = api_key; total_refunded = pos 0 })
    else do
      let active = active_subscriptions db.subscriptions user.id now
      let s = split_refund active breakdown refund_cents
      out ← refund_wallet s.to_wallet user db.users
      some (settle_refund mirrors db user api_key ref_id text s out)
