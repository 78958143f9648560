-- ===== src/Billing/Refund/Exhausted.antt =====
-- Where `refund_to_sources` sends the share of a subscription that was drained to the last cent.
use llmxy.Prelude.{
  ℕ, ℤ, pos, ◌+ℤ◌, ◌≤ℤ◌, min_ℤ, none, some, Option, List, [], ◌∷◌, Bool, true, All, ◌≡◌, refl,
  arith, String, +ℤ_zero, zero_+ℤ, -ℤ_zero,
}
use llmxy.Datetime.{Datetime}
use llmxy.Models.{RefId, User, ApiKey, Subscription, sub}
use llmxy.Table.{get, IsKeyed}
use llmxy.Db.{Db, user_id, sub_id}
use llmxy.Db.Sums.{total}
use llmxy.Billing.Accounts.{active_subscriptions, is_spendable}
use llmxy.Billing.Accounts.Laws.{active-found, active-spendable}
use llmxy.Billing.Charge.Laws.{IsReady}
use llmxy.Billing.Refund.{
  own_share, spread, split_refund, refund_subs, settle_refund, Refunded, refund_to_sources,
}
use llmxy.Billing.Refund.Laws.{refund_wallet_lem}

found-spendable :
    (k uid : ℕ) (now : Datetime) (table : List Subscription) (s : Subscription)
    (ss : List Subscription)
    → get sub_id k table ≡ some s
    → s.remaining_cents ≤ℤ pos 0
    → All (λ x. get sub_id x.id table ≡ some x) ss
    → All (λ x. is_spendable uid now x ≡ true) ss
    → get sub_id k ss ≡ none
unfolding get
found-spendable k uid now table s [] g empty f p = refl
found-spendable k uid now table s (x ∷ xs) g empty f p =
    ground (arith, found-spendable k uid now table s xs g empty f.1 p.1)

-- A subscription with no cent left is not among those that `active_subscriptions` returns.
exhausted-absent :
    (k uid : ℕ) (now : Datetime) (table : List Subscription) (s : Subscription)
    → IsKeyed sub_id table
    → get sub_id k table ≡ some s
    → s.remaining_cents ≤ℤ pos 0
    → get sub_id k (active_subscriptions table uid now) ≡ none
exhausted-absent k uid now table s u g empty =
    found-spendable k uid now table s (active_subscriptions table uid now) g empty
      (active-found table uid now u) (active-spendable table uid now)

split_exhausted :
    (active : List Subscription) (k : ℕ) (amt refund : ℤ)
    → get sub_id k active ≡ none
    → pos 1 ≤ℤ amt
    → pos 1 ≤ℤ refund
    → ((split_refund active ((sub k, amt) ∷ []) refund).sub_refunds ≡ [])
      × ((split_refund active ((sub k, amt) ∷ []) refund).to_wallet ≡ min_ℤ amt refund)
unfolding split_refund spread total
split_exhausted active k amt refund gone h c =
    let zero : own_share ((sub k, amt) ∷ []) refund ≡ pos 0 = rw (+ℤ_zero (pos 0)) (ground arith) in
    let rest = -ℤ_zero refund in
    ground (arith, zero, rest, +ℤ_zero (min_ℤ amt refund), zero_+ℤ (min_ℤ amt refund))

-- In a database with distinct ids and a row for the user, the refund of one positive deduction from a
-- subscription that has no cent left, whatever its status and period, returns, changes no
-- subscription and credits the wallet with the smaller of the deduction and the refund.
pub refund_to_sources_exhausted :
    (mirrors : Bool) (now : Datetime) (db : Db) (user row : User) (key : Option ApiKey)
    (s : Subscription) (amt refund : ℤ) (ref_id : Option RefId) (text : Option String)
    → IsReady db user row
    → get sub_id s.id db.subscriptions ≡ some s
    → s.remaining_cents ≤ℤ pos 0
    → pos 1 ≤ℤ amt
    → pos 1 ≤ℤ refund
    → (r : Refunded) × (refund_to_sources mirrors now db user key
          ((sub s.id, amt) ∷ [])
          refund
          ref_id
          text
        ≡ some r)
      × (r.db.subscriptions ≡ db.subscriptions)
      × (get user_id user.id r.db.users
          ≡ some (record row { balance_cents = row.balance_cents +ℤ min_ℤ amt refund }))
refund_to_sources_exhausted mirrors now db user row key s amt refund ref_id text h g empty a c =
    let active = active_subscriptions db.subscriptions user.id now in
    let gone = exhausted-absent s.id user.id now db.subscriptions s h.subs_keyed g empty in
    let parts = split_exhausted active s.id amt refund gone a c in
    let split = split_refund active ((sub s.id, amt) ∷ []) refund in
    let (out, returns, gain, own) =
      refund_wallet_lem split.to_wallet user db.users row h.users_keyed h.row_found
        (rw (parts.1) (ground arith)) in
    (
      settle_refund mirrors db user key ref_id text split out,
      unfold refund_to_sources in ground (arith, returns),
      unfold settle_refund refund_subs in rw (parts.0) refl,
      unfold settle_refund in rw parts.1 at own,
    )
