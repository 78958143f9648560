-- ===== src/QuotaCache/Check/Laws.antt =====
-- Where Redis holds what the database holds, the fast check and `has_quota` decide alike.
use mathlib.Core.Path.{subst}
use llmxy.Prelude.{
  ℕ, ℤ, pos, ◌≤ℤ◌, ltb_ℤ, ◌≡◌, refl, sym, ap, ◌∙◌, arith, Option, none, some, List, [], ◌∷◌, true,
  false, ◌⊎◌, inl, inr, Bool-cases, All, member, some_inj,
}
use llmxy.Datetime.{Datetime}
use llmxy.Models.{User, ApiKey, Subscription}
use llmxy.Table.{get, IsKeyed}
use llmxy.Db.{Db, sub_id}
use llmxy.Billing.Accounts.{Refusal, has_quota, nonempty, active_subscriptions, is_spendable}
use llmxy.Billing.Accounts.Laws.{active_subscriptions_lem}
use llmxy.QuotaCache.Redis.{Redis, wallet, subq, kused}
use llmxy.QuotaCache.Hydrate.{is_current}
use llmxy.QuotaCache.Check.{
  Verdict, allowed, refused, wallet_verdict, sub_verdict, check_subs, check_funds, check_key, check,
}

-- The verdict that stands for an answer of `has_quota`.
abbrev pub verdict_of : Option Refusal → Verdict
verdict_of none = allowed
verdict_of (some e) = refused e

sub_verdict_pos : (w : ℤ) (rest : Verdict) → pos 1 ≤ℤ w → sub_verdict (some w) rest ≡ allowed
sub_verdict_pos w rest h = ground arith

sub_verdict_zero :
    (w : ℤ) (rest : Verdict)
    → pos 0 ≤ℤ w
    → ltb_ℤ (pos 0) w ≡ false
    → sub_verdict (some w) rest ≡ rest
sub_verdict_zero w rest h z = ground arith

member_head : (s : ℕ) (ss : List ℕ) → member s (s ∷ ss) ≡ true
member_head s ss = ground arith

member_tail : (t s : ℕ) (ss : List ℕ) → member t ss ≡ true → member t (s ∷ ss) ≡ true
member_tail t s ss h = ground arith

member_other : (t s : ℕ) (ss : List ℕ) → member t (s ∷ ss) ≡ true → (t ≡ s) ⊎ (member t ss ≡ true)
member_other t s ss h = ground arith

none-some : {s : Subscription} → none ≡ some s → ⊥
none-some e = cc

head_of :
    (P : Subscription → Type 0) (ss : List Subscription)
    → nonempty ss ≡ true
    → All P ss
    → (s : Subscription) × P s
head_of P [] h a = cc
head_of P (s ∷ ss) h a = (s, a.0)

get-empty : (k : ℕ) (ss : List Subscription) → nonempty ss ≡ false → get sub_id k ss ≡ none
unfolding get
get-empty k [] h = refl
get-empty k (s ∷ ss) h = cc

spendable-current :
    (uid : ℕ) (now : Datetime) (s : Subscription)
    → is_spendable uid now s ≡ true
    → (is_current uid now s ≡ true) × (pos 1 ≤ℤ s.remaining_cents)
spendable-current uid now s h = ground arith

current-spendable :
    (uid : ℕ) (now : Datetime) (s : Subscription)
    → is_current uid now s ≡ true
    → ltb_ℤ (pos 0) s.remaining_cents ≡ true
    → is_spendable uid now s ≡ true
current-spendable uid now s h p = ground arith

module _ {R : Type 0} (redis : Redis R) where
  -- Redis holds what the database holds about the user's funds: the balance, and the current
  -- subscriptions with what remains of each.
  pub record Mirrors (db : Db) (now : Datetime) (user : User) (r : R) : Type 0 where
    pub wallet_held : redis.get (wallet user.id) r ≡ some user.balance_cents
    pub listed :
        (sid : ℕ)
        → member sid (redis.zrange user.id r) ≡ true
        → (s : Subscription) × (get sub_id sid db.subscriptions ≡ some s)
          × (is_current user.id now s ≡ true)
          × (redis.get (subq sid) r ≡ some s.remaining_cents)
    pub complete :
        (sid : ℕ) (s : Subscription)
        → get sub_id sid db.subscriptions ≡ some s
        → is_current user.id now s ≡ true
        → member sid (redis.zrange user.id r) ≡ true

  check_subs-none :
      (r : R) (ids : List ℕ) (rest : Verdict)
      → ((sid : ℕ)
          → member sid ids ≡ true
          → (w : ℤ) × (redis.get (subq sid) r ≡ some w) × (pos 0 ≤ℤ w) × (ltb_ℤ (pos 0) w ≡ false))
      → check_subs redis r ids rest ≡ rest
  unfolding check_subs
  check_subs-none r [] rest h = refl
  check_subs-none r (sid ∷ sids) rest h =
      let (w, held, nonneg, zero) = h sid (member_head sid sids) in
      ap (λ o. sub_verdict o (check_subs redis r sids rest)) held
      ∙ sub_verdict_zero w _ nonneg zero
      ∙ check_subs-none r sids rest (λ s m. h s (member_tail s sid sids m))

  check_subs-some :
      (r : R) (ids : List ℕ) (rest : Verdict) (sid : ℕ) (v : ℤ)
      → ((s : ℕ) → member s ids ≡ true → (w : ℤ) × (redis.get (subq s) r ≡ some w) × (pos 0 ≤ℤ w))
      → member sid ids ≡ true
      → redis.get (subq sid) r ≡ some v
      → pos 1 ≤ℤ v
      → check_subs redis r ids rest ≡ allowed
  unfolding check_subs
  check_subs-some r [] rest sid v h m g p = cc
  check_subs-some r (s ∷ ss) rest sid v h m g p =
      let (w, held, nonneg) = h s (member_head s ss) in
      ap (λ o. sub_verdict o (check_subs redis r ss rest)) held
      ∙ elim (Bool-cases (ltb_ℤ (pos 0) w)) [
        | inl positive ↦ sub_verdict_pos w _ (one w positive)
        | inr zero ↦
            sub_verdict_zero w _ nonneg zero
            ∙ check_subs-some r ss rest sid v (λ t n. h t (member_tail t s ss n))
                (elim (member_other sid s ss m) [
                  | inl same ↦ absurd (
                      clash w v zero p
                        (some_inj (sym held ∙ subst (λ t. redis.get (subq t) r ≡ some v) same g)))
                  | inr later ↦ later
                ])
                g p
      ]
    where
      one : (w : ℤ) → ltb_ℤ (pos 0) w ≡ true → pos 1 ≤ℤ w
      one w h = ground arith

      clash : (w v : ℤ) → ltb_ℤ (pos 0) w ≡ false → pos 1 ≤ℤ v → w ≡ v → ⊥
      clash w v z p e = ground arith

  -- The list of funds: a spendable subscription, or the wallet's verdict.
  module _ (db : Db) (now : Datetime) (user : User) (r : R) (m : Mirrors db now user r)
      (keyed : IsKeyed sub_id db.subscriptions) where
    abbrev pub NonnegSub : Type 0
    NonnegSub =
        (sid : ℕ) (s : Subscription)
        → get sub_id sid db.subscriptions ≡ some s
        → pos 0 ≤ℤ s.remaining_cents

    held :
        NonnegSub
        → (sid : ℕ) → member sid (redis.zrange user.id r) ≡ true
        → (w : ℤ) × (redis.get (subq sid) r ≡ some w) × (pos 0 ≤ℤ w)
    held n sid h =
        let (s, row, current, amount) = m.listed sid h in (s.remaining_cents, amount, n sid s row)

    check_funds_some :
        NonnegSub
        → nonempty (active_subscriptions db.subscriptions user.id now) ≡ true
        → check_funds redis user.id r ≡ allowed
    unfolding check_funds
    check_funds_some n h =
        let (sorted, rows, others) = active_subscriptions_lem db.subscriptions user.id now keyed in
        let (s, (row, spendable)) = head_of _ _ h rows in
        let (current, cents) = spendable-current user.id now s spendable in
        let listed = m.complete s.id s row current in
        let (t, row', current', amount) = m.listed s.id listed in
        let same : t ≡ s = some_inj (sym row' ∙ row) in
        check_subs-some r (redis.zrange user.id r) _ s.id t.remaining_cents (held n) listed amount
          (subst (λ (x : Subscription). pos 1 ≤ℤ x.remaining_cents) (sym same) cents)

    check_funds_none :
        NonnegSub
        → nonempty (active_subscriptions db.subscriptions user.id now) ≡ false
        → check_funds redis user.id r ≡ wallet_verdict (some user.balance_cents)
    unfolding check_funds
    check_funds_none n h =
        let (sorted, rows, others) = active_subscriptions_lem db.subscriptions user.id now keyed in
        check_subs-none r (redis.zrange user.id r) _ (λ sid listed. exhausted others sid listed)
        ∙ ap wallet_verdict m.wallet_held
      where
        exhausted :
            ((k : ℕ) (s : Subscription)
              → get sub_id k db.subscriptions ≡ some s
              → is_spendable user.id now s ≡ true
              → get sub_id k (active_subscriptions db.subscriptions user.id now) ≡ some s)
            → (sid : ℕ) → member sid (redis.zrange user.id r) ≡ true
            → (w : ℤ) × (redis.get (subq sid) r ≡ some w) × (pos 0 ≤ℤ w) × (ltb_ℤ (pos 0) w ≡ false)
        exhausted others sid listed =
            let (s, row, current, amount) = m.listed sid listed in
            (
              s.remaining_cents,
              amount,
              n sid s row,
              elim (Bool-cases (ltb_ℤ (pos 0) s.remaining_cents)) [
                | inl cents ↦ absurd (
                    none-some (
                      sym (get-empty sid _ h)
                      ∙ others sid s row (current-spendable user.id now s current cents)))
                | inr zero ↦ zero
              ],
            )

    -- Where the counter of the key is held too, the verdict is that of `has_quota`.
    pub check-has_quota_held :
        (key : ApiKey) (ws : ℕ)
        → NonnegSub
        → pos 0 ≤ℤ user.balance_cents
        → redis.get (kused key.id ws) r ≡ some key.used_cents
        → check redis user.id key.id key.quota_cents ws r
          ≡ verdict_of (has_quota db user (some key) now)
    unfolding check has_quota check_key
    check-has_quota_held key ws n b used =
        elim (Bool-cases (nonempty (active_subscriptions db.subscriptions user.id now))) [
          | inl some_sub ↦ rw (used, check_funds_some n some_sub, some_sub) (ground arith)
          | inr no_sub ↦ rw (used, check_funds_none n no_sub, no_sub) (ground arith)
        ]
