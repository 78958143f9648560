-- ===== src/Billing/Refund/Laws.antt =====
-- A refund returns exactly what was asked for, up to what was charged.
use llmxy.Prelude.{
  ℕ, ℤ, pos, ◌+ℤ◌, ◌-ℤ◌, ◌≤ℤ◌, leb_ℤ, min_ℤ, int_laws, some, +ℤ_parts, -ℤ_parts, eq_of_parts,
  Option, List, [], ◌∷◌, Bool, true, false, ◌≡◌, refl, arith, Bool-cases, inl, inr, ap, pos_part,
  neg_part, String, ◌∙◌, is_some, +ℤ_zero, +ℤ_assoc,
}
use llmxy.Datetime.{Datetime}
use llmxy.Models.{RefId, User, ApiKey, Subscription, Breakdown, sub, wallet}
use llmxy.Table.{get, update, IsKeyed}
use llmxy.Table.Laws.{get-update}
use llmxy.Db.{Db, user_id, sub_id, update_balance}
use llmxy.Db.Sums.{total, total-update, balance_of, amount_of}
use llmxy.Billing.Accounts.{active_subscriptions}
use llmxy.Billing.Charge.Drain.Greedy.{IsPositive}
use llmxy.Billing.Charge.Laws.{IsReady, cents}
use llmxy.Billing.Refund.{
  wallet_amount, Spread, spread, refund_wallet, given, own_share, split_refund, is_nil, Refunded,
  settle_refund, refund_to_sources, give_back,
}
use llmxy.Billing.Refund.Shares.{
  sub_amount, handed, total-split, parts_nonneg, handed-spread, spread-AreIn, total-refund_subs,
  AreIn-active, spread_wallet, spread_stop, spread_go, AreIn,
}

min_split :
    (w r s : ℤ)
    → pos 0 ≤ℤ w
    → pos 0 ≤ℤ s
    → pos 1 ≤ℤ r
    → (pos 0 ≤ℤ r -ℤ min_ℤ w r) × (min_ℤ w r +ℤ min_ℤ (r -ℤ min_ℤ w r) s ≡ min_ℤ r (w +ℤ s))
min_split w r s h k p =
    let t : ℤ = min_ℤ w r in
    let u : ℤ = min_ℤ (r -ℤ t) s in
    (
      ground (arith, -ℤ_parts r t),
      eq_of_parts (t +ℤ u) (min_ℤ r (w +ℤ s))
          (ground (arith, +ℤ_parts t u, -ℤ_parts r t, +ℤ_parts w s)),
    )

handed-split_refund :
    (active : List Subscription) (bd : Breakdown) (refund : ℤ)
    → IsPositive bd
    → pos 1 ≤ℤ refund
    → handed (split_refund active bd refund) ≡ min_ℤ refund (total amount_of bd)
unfolding split_refund
handed-split_refund active bd refund p h =
    let parts = parts_nonneg bd p in
    let (left, sum) =
      min_split (total wallet_amount bd) refund (total sub_amount bd) parts.0 parts.1 h in
    let own = own_share bd refund in
    let s = spread active bd (refund -ℤ own) in
    +ℤ_assoc own s.to_wallet (total given s.sub_refunds)
    ∙ ap (λ x. own +ℤ x) (handed-spread active bd (refund -ℤ own) p left)
    ∙ sum
    ∙ ap (min_ℤ refund) (total-split bd)

give_back_nonneg :
    (b : Bool) (sid : ℕ) (give : ℤ) (s : Spread)
    → pos 0 ≤ℤ give
    → pos 0 ≤ℤ s.to_wallet
    → pos 0 ≤ℤ (give_back b sid give s).to_wallet
give_back_nonneg true sid give s h k = k
give_back_nonneg false sid give s h k = omega (int_laws, h, k)

-- The part of a refund that the wallet gets is not negative.
to_wallet_nonneg :
    (active : List Subscription) (bd : Breakdown) (rem : ℤ)
    → IsPositive bd
    → pos 0 ≤ℤ rem
    → pos 0 ≤ℤ (spread active bd rem).to_wallet
to_wallet_nonneg active [] rem p h = unfold spread in ground arith
to_wallet_nonneg active ((wallet, amt) ∷ bd) rem p h =
    rw (spread_wallet active amt bd rem) (to_wallet_nonneg active bd rem p.1 h)
to_wallet_nonneg active ((sub sid, amt) ∷ bd) rem p h = elim (Bool-cases (leb_ℤ rem (pos 0))) [
  | inl stop ↦ rw (spread_stop active sid amt bd rem stop) (to_wallet_nonneg active bd rem p.1 h)
  | inr more ↦
      let give : ℤ = min_ℤ amt rem in
      let left : pos 0 ≤ℤ rem -ℤ give = ground (arith, -ℤ_parts rem give) in
      let ih = to_wallet_nonneg active bd (rem -ℤ give) p.1 left in
      rw (spread_go active sid amt bd rem more) (
        give_back_nonneg (is_some (get sub_id sid active)) sid give (spread active bd (rem -ℤ give))
          (ground arith) ih)
]

added : (after b t all : ℤ) → after +ℤ b ≡ all +ℤ (b +ℤ t) → after ≡ all +ℤ t
added after b t all e = omega (int_laws, ap pos_part e, ap neg_part e)

pub refund_wallet_lem :
    (amount : ℤ) (user : User) (users : List User) (row : User)
    → IsKeyed user_id users
    → get user_id user.id users ≡ some row
    → pos 0 ≤ℤ amount
    → (out : User × List User) × (refund_wallet amount user users ≡ some out)
      × (total balance_of out.1 ≡ total balance_of users +ℤ amount)
      × (get user_id user.id out.1
          ≡ some (record row { balance_cents = row.balance_cents +ℤ amount }))
unfolding refund_wallet update_balance
refund_wallet_lem amount user users row u g h =
    let give = λ (u : User). record u { balance_cents = u.balance_cents +ℤ amount } in
    elim (Bool-cases (leb_ℤ amount (pos 0))) [
      | inl stop ↦
          let zero : amount ≡ pos 0 = ground arith in
          (
            (user, users),
            ground arith,
            rw (zero, +ℤ_zero (total balance_of users)),
            rw (zero, +ℤ_zero row.balance_cents) g,
          )
      | inr more ↦ (
        (
          record user { balance_cents = row.balance_cents +ℤ amount },
          update user_id user.id give users,
        ),
        ground arith,
        added _ _ _ _ (total-update user_id balance_of give user.id users row u g),
        ground (arith, get-update user_id user.id user.id give users (λ r. refl)),
      )
    ]

split_refund_nonneg :
    (active : List Subscription) (bd : Breakdown) (refund : ℤ)
    → IsPositive bd
    → pos 1 ≤ℤ refund
    → pos 0 ≤ℤ (split_refund active bd refund).to_wallet
unfolding split_refund
split_refund_nonneg active bd refund p h =
    let parts = parts_nonneg bd p in
    let left =
      (min_split (total wallet_amount bd) refund (total sub_amount bd) parts.0 parts.1 h).0 in
    let own : ℤ = own_share bd refund in
    let extra = to_wallet_nonneg active bd (refund -ℤ own) p left in
    ground (arith, +ℤ_parts own (spread active bd (refund -ℤ own)).to_wallet, parts, extra)

split_refund-AreIn :
    (active : List Subscription) (bd : Breakdown) (refund : ℤ)
    → AreIn active (split_refund active bd refund).sub_refunds
unfolding split_refund
split_refund-AreIn active bd refund = spread-AreIn active bd (refund -ℤ own_share bd refund)

all_gained :
    (subs' users' subs users given to_wallet : ℤ)
    → subs' ≡ subs +ℤ given
    → users' ≡ users +ℤ to_wallet
    → subs' +ℤ users' ≡ (subs +ℤ users) +ℤ (to_wallet +ℤ given)
all_gained subs' users' subs users given to_wallet e f =
    omega (int_laws, ap pos_part e, ap neg_part e, ap pos_part f, ap neg_part f)

-- With a row for the user, a positive refund of a charge's positive deductions returns: it hands back
-- the smaller of the amount and the deductions' sum, and the accounts gain exactly that.
pub refund_to_sources_lem :
    (mirrors : Bool) (now : Datetime) (db : Db) (user row : User) (key : Option ApiKey)
    (breakdown : Breakdown) (refund : ℤ) (ref_id : Option RefId) (text : Option String)
    → IsReady db user row
    → IsPositive breakdown
    → is_nil breakdown ≡ false
    → pos 1 ≤ℤ refund
    → (r : Refunded) × (refund_to_sources mirrors now db user key breakdown refund ref_id text
        ≡ some r)
      × (r.total_refunded ≡ min_ℤ refund (total amount_of breakdown))
      × (cents r.db ≡ cents db +ℤ r.total_refunded)
refund_to_sources_lem mirrors now db user row key breakdown refund ref_id text h p full c =
    let active = active_subscriptions db.subscriptions user.id now in
    let s = split_refund active breakdown refund in
    let (out, returns, gain, own) =
      refund_wallet_lem s.to_wallet user db.users row h.users_keyed h.row_found
        (split_refund_nonneg active breakdown refund p c) in
    let inside =
      AreIn-active s.sub_refunds db.subscriptions user.id now h.subs_keyed
        (split_refund-AreIn active breakdown refund) in
    let subs = total-refund_subs s.sub_refunds db.subscriptions h.subs_keyed inside in
    (
      settle_refund mirrors db user key ref_id text s out,
      unfold refund_to_sources in ground (arith, returns),
      unfold settle_refund in handed-split_refund active breakdown refund p c,
      unfold settle_refund in all_gained _ _ _ _ _ _ subs gain,
    )
