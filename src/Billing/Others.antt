-- ===== src/Billing/Others.antt =====
-- A charge or a refund of one user leaves the subscriptions and the wallets of the others alone.
use mathlib.Core.Path.{subst}
use llmxy.Prelude.{
  ℕ, ℤ, pos, ◌+ℤ◌, ◌-ℤ◌, ==_iff, leb_ℤ, min_ℤ, Option, none, some, List, [], ◌∷◌, Bool, true, ◌||◌,
  ◌≡◌, ◌≢◌, refl, sym, ap, ◌∙◌, arith, Bool-cases, Option-cases, inl, inr, String, All, some_inj,
  >>=-eq-some, is_some, ◌==◌,
}
use llmxy.Datetime.{Datetime}
use llmxy.Models.{User, ApiKey, Subscription, sub, wallet, Breakdown, RefId}
use llmxy.Table.{get, update}
use llmxy.Table.Laws.{get-update, get-key}
use llmxy.Db.{Db, user_id, sub_id, update_balance}
use llmxy.Billing.Accounts.{active_subscriptions}
use llmxy.Billing.Accounts.Laws.{active_subscriptions_lem}
use llmxy.Billing.Charge.{Charged, charge_user}
use llmxy.Billing.Charge.Laws.{IsReady}
use llmxy.Billing.Charge.Frame.{charge_user_frame}
use llmxy.Billing.Refund.{
  Refunded, refund_to_sources, refund_subs, refund_wallet, settle_refund, split_refund, spread,
  give_to, is_nil,
}

-- From `db` to `db'` no subscription of another user than `uid` and no other user's row changes.
pub record SparesOthers (uid : ℕ) (db db' : Db) : Type 0 where
  pub subs :
      (k : ℕ) (s : Subscription)
      → get sub_id k db.subscriptions ≡ some s
      → s.user_id ≢ uid
      → get sub_id k db'.subscriptions ≡ some s
  pub users : (k : ℕ) → k ≢ uid → get user_id k db'.users ≡ get user_id k db.users

pub SparesOthers-refl : (uid : ℕ) (db : Db) → SparesOthers uid db db
SparesOthers-refl uid db = record { subs = λ k s h d. h; users = λ k d. refl }

pub SparesOthers-trans :
    (uid : ℕ) (a b c : Db) → SparesOthers uid a b → SparesOthers uid b c → SparesOthers uid a c
SparesOthers-trans uid a b c f g = record {
  subs = λ k s h d. g.subs k s (f.subs k s h d) d;
  users = λ k d. g.users k d ∙ f.users k d;
}

All-get :
    (P : Subscription → Type 0) (k : ℕ) (ss : List Subscription) (s : Subscription)
    → All P ss
    → get sub_id k ss ≡ some s
    → P s
unfolding get
All-get P k [] s a h = cc
All-get P k (x ∷ ss) s a h = elim (Bool-cases (x.id == k)) [
  | inl here ↦ subst P (some_inj (rw here at h)) a.0
  | inr later ↦ All-get P k ss s a.1 (rw later at h)
]

-- A subscription of another user is not among the active ones.
others-inactive :
    (db : Db) (user row : User) (now : Datetime) (k : ℕ) (s : Subscription)
    → IsReady db user row
    → get sub_id k db.subscriptions ≡ some s
    → s.user_id ≢ user.id
    → get sub_id k (active_subscriptions db.subscriptions user.id now) ≡ none
others-inactive db user row now k s h g other =
    let ss = active_subscriptions db.subscriptions user.id now in
    elim (Option-cases (get sub_id k ss)) [
      | inl absent ↦ absent
      | inr (x, found) ↦
          let (sorted, rows, complete) =
            active_subscriptions_lem db.subscriptions user.id now h.subs_keyed in
          let (there, spendable) = All-get _ k ss x rows found in
          let id : x.id ≡ k = get-key sub_id k ss x found in
          let same : x ≡ s =
            some_inj (sym (subst (λ i. get sub_id i db.subscriptions ≡ some x) id there) ∙ g) in
          let mine : x.user_id ≡ user.id = ground (arith, spendable) in
          absurd (other (ap (λ (y : Subscription). y.user_id) (sym same) ∙ mine))
    ]

module _ (mirrors : Bool) (now : Datetime) (db : Db) (user row : User) (key : Option ApiKey) where
  pub charge_user-SparesOthers :
      (cost : ℤ) (ref_id : Option RefId) (text : Option String) (c : Charged)
      → IsReady db user row
      → charge_user mirrors now db user key cost ref_id text ≡ some c
      → SparesOthers user.id db c.db
  unfolding charge_user
  charge_user-SparesOthers cost ref_id text c h e = elim (Bool-cases (leb_ℤ cost (pos 0))) [
    | inl free ↦
        subst (λ (x : Charged). SparesOthers user.id db x.db) (some_inj (rw free at e))
          (SparesOthers-refl user.id db)
    | inr costs ↦
        let (r, e', nonneg, subs, users, orders, plans) =
          charge_user_frame mirrors now db user row key cost ref_id text h
            (ground (arith, costs)) in
        subst (λ (x : Charged). SparesOthers user.id db x.db) (some_inj (sym e' ∙ e))
          (record {
            subs = λ k s g other. subs k (others-inactive db user row now k s h g other) ∙ g;
            users = users;
          })
  ]

-- Only active subscriptions get a share.
abbrev Known : List Subscription → List (ℕ × ℤ) → Type 0
Known active = All (λ g. is_some (get sub_id g.0 active) ≡ true)

spread-Known :
    (active : List Subscription) (bd : Breakdown) (rem : ℤ)
    → Known active (spread active bd rem).sub_refunds
unfolding spread
spread-Known active [] rem = tt
spread-Known active ((wallet, amt) ∷ bd) rem = spread-Known active bd rem
spread-Known active ((sub sid, amt) ∷ bd) rem = elim (Bool-cases (leb_ℤ rem (pos 0))) [
  | inl stop ↦ rw (spread, stop) (spread-Known active bd rem)
  | inr more ↦ elim (Bool-cases (is_some (get sub_id sid active))) [
    | inl on ↦ rw (spread, more, on) (on, spread-Known active bd (rem -ℤ min_ℤ amt rem))
    | inr off ↦ rw (spread, more, off) (spread-Known active bd (rem -ℤ min_ℤ amt rem))
  ]
]

refund_subs_frame :
    (active : List Subscription) (gs : List (ℕ × ℤ)) (table : List Subscription) (k : ℕ)
    → Known active gs
    → get sub_id k active ≡ none
    → get sub_id k (refund_subs gs table) ≡ get sub_id k table
unfolding refund_subs
refund_subs_frame active [] table k a h = refl
refund_subs_frame active ((sid, give) ∷ gs) table k a h =
    refund_subs_frame active gs (update sub_id sid (give_to give) table) k a.1 h
    ∙ (elim (Bool-cases (k == sid)) [
      | inl same ↦ let is : k ≡ sid = (==_iff k sid).0 same in absurd (clash (rw (← is) at (a.0)))
      | inr other ↦ ground (arith, other, get-update sub_id k sid (give_to give) table (λ r. refl))
    ])
  where
    clash : is_some (get sub_id k active) ≡ true → ⊥
    clash e = cc (rw h at e)

refund_wallet_frame :
    (k : ℕ) (amount : ℤ) (user : User) (users : List User) (out : User × List User)
    → refund_wallet amount user users ≡ some out
    → k ≢ user.id
    → get user_id k out.1 ≡ get user_id k users
unfolding refund_wallet update_balance
refund_wallet_frame k amount user users out e ne = ground (
  arith,
  get-update user_id k user.id (λ u. record u { balance_cents = u.balance_cents +ℤ amount }) users
      (λ r. refl),
)

pub refund_to_sources-SparesOthers :
    (mirrors : Bool) (now : Datetime) (db : Db) (user row : User) (key : Option ApiKey)
    (breakdown : Breakdown) (refund : ℤ) (ref_id : Option RefId) (text : Option String)
    (r : Refunded)
    → IsReady db user row
    → refund_to_sources mirrors now db user key breakdown refund ref_id text ≡ some r
    → SparesOthers user.id db r.db
unfolding refund_to_sources
refund_to_sources-SparesOthers mirrors now db user row key breakdown refund ref_id text r h e =
    elim (Bool-cases (leb_ℤ refund (pos 0) || is_nil breakdown)) [
      | inl nothing ↦
          subst (λ (x : Refunded). SparesOthers user.id db x.db) (some_inj (rw nothing at e))
            (SparesOthers-refl user.id db)
      | inr some_share ↦
          let active = active_subscriptions db.subscriptions user.id now in
          let s = split_refund active breakdown refund in
          let known : Known active s.sub_refunds =
            unfold split_refund in spread-Known active breakdown _ in
          let (out, paid, is) =
            >>=-eq-some (refund_wallet s.to_wallet user db.users) _ (rw some_share at e) in
          subst (λ (x : Refunded). SparesOthers user.id db x.db) (some_inj is)
            (record {
              subs = λ k t g other.
                  unfold settle_refund in
                  refund_subs_frame active s.sub_refunds db.subscriptions k known
                    (others-inactive db user row now k t h g other)
                  ∙ g;
              users = λ k ne.
                  unfold settle_refund in
                  refund_wallet_frame k s.to_wallet user db.users out paid ne;
            })
    ]
