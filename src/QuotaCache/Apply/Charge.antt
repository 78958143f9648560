-- ===== src/QuotaCache/Apply/Charge.antt =====
-- A charge that is mirrored: Redis holds after `apply_charge` what the database holds after
-- `charge_user`.
use mathlib.Core.Path.{subst}
use llmxy.Prelude.{
  ℕ, ℤ, pos, ◌+ℤ◌, ◌-ℤ◌, ◌≤ℤ◌, leb_ℤ, int_laws, -ℤ_zero, +ℤ_zero, ◌≡◌, refl, sym, ap, ◌∙◌, arith,
  Option, none, some, List, [], ◌∷◌, ◌++◌, Bool, true, false, if◌then◌else◌, Bool-cases, ==_iff,
  inl, inr, member, some_inj, String, is_some, zero_+ℤ, All-append, Option-cases,
}
use llmxy.Datetime.{Datetime}
use llmxy.Models.{User, ApiKey, Subscription, Source, sub, wallet, Breakdown, RefId}
use llmxy.Table.{get}
use llmxy.Db.{Db, sub_id}
use llmxy.Billing.Accounts.{active_subscriptions}
use llmxy.Billing.Charge.{Drained, drain, take_from, settle, Charged, charge_user}
use llmxy.Billing.Charge.Drain.Greedy.{IsPositive, drain-IsPositive}
use llmxy.Billing.Charge.Wallet.{charge_wallet_lem}
use llmxy.Billing.Charge.Laws.{IsReady, subs-HasCents}
use llmxy.QuotaCache.Redis
use llmxy.QuotaCache.Redis.{Redis, Documented, Key, subq, kused, same_key}
use llmxy.QuotaCache.Check.Laws.{Mirrors}
use llmxy.QuotaCache.Hydrate.{is_current}
use llmxy.QuotaCache.Apply.Amounts.{
  amount_for, amount_for-append, get-drain, get-drain-none, drain-wallet_free, WalletPaid,
  charge_wallet-WalletPaid, none-some,
}
use llmxy.QuotaCache.Apply.{decr_if_exists, key_for, decr_all, count_key, apply_charge}

key_for-same :
    (uid : ℕ) (source : Source) (j : Key)
    → same_key (key_for uid source) j ≡ true
    → key_for uid source ≡ j
key_for-same uid (sub sid) (Redis.wallet b) h = cc
key_for-same uid (sub sid) (subq b) h = ap subq ((==_iff sid b).0 h)
key_for-same uid (sub sid) (Redis.hydr_lock b) h = cc
key_for-same uid (sub sid) (kused b w) h = cc
key_for-same uid wallet (Redis.wallet b) h = ap Redis.wallet ((==_iff uid b).0 h)
key_for-same uid wallet (subq b) h = cc
key_for-same uid wallet (Redis.hydr_lock b) h = cc
key_for-same uid wallet (kused b w) h = cc

minus_minus : (v a b : ℤ) → v -ℤ a -ℤ b ≡ v -ℤ (a +ℤ b)
minus_minus v a b = omega int_laws

plus_negated : (v a : ℤ) → v +ℤ (pos 0 -ℤ a) ≡ v -ℤ a
plus_negated v a = omega int_laws

positive_leb : (a : ℤ) → pos 1 ≤ℤ a → leb_ℤ a (pos 0) ≡ false
positive_leb a h = ground arith

module _ {R : Type 0} (redis : Redis R) (doc : Documented redis) where
  get-decr_if_exists :
      (uid : ℕ) (source : Source) (amount : ℤ) (j : Key) (v : ℤ) (r : R)
      → redis.get j r ≡ some v
      → redis.get j (decr_if_exists redis (key_for uid source) amount r)
        ≡ (if same_key (key_for uid source) j then some (v -ℤ amount) else some v)
  unfolding decr_if_exists
  get-decr_if_exists uid source amount j v r h =
      let k = key_for uid source in
      elim (Bool-cases (same_key k j)) [
        | inl same ↦
            let held : redis.get k r ≡ some v =
              subst (λ i. redis.get i r ≡ some v) (sym (key_for-same uid source j same)) h in
            rw held (
              doc.get-incr_by j k (pos 0 -ℤ amount) r
              ∙ rw (same, held) (ap some (plus_negated v amount)))
        | inr other ↦ elim (Bool-cases (is_some (redis.get k r))) [
          | inl there ↦ rw there (doc.get-incr_by j k (pos 0 -ℤ amount) r ∙ rw other h)
          | inr missing ↦ rw (missing, other) h
        ]
      ]

  get-decr_all :
      (uid : ℕ) (bd : Breakdown) (j : Key) (v : ℤ) (r : R)
      → IsPositive bd
      → redis.get j r ≡ some v
      → redis.get j (decr_all redis uid bd r) ≡ some (v -ℤ amount_for uid j bd)
  unfolding decr_all amount_for
  get-decr_all uid [] j v r p h = h ∙ ap some (sym (-ℤ_zero v))
  get-decr_all uid ((source, amount) ∷ bd) j v r p h =
      let k = key_for uid source in
      let step = get-decr_if_exists uid source amount j v r h in
      let r' = decr_if_exists redis k amount r in
      rw (positive_leb amount p.0) (elim (Bool-cases (same_key k j)) [
        | inl same ↦ rw same (
            get-decr_all uid bd j (v -ℤ amount) r' p.1 (rw same at step)
            ∙ ap some (minus_minus v amount _))
        | inr other ↦ rw other (get-decr_all uid bd j v r' p.1 (rw other at step))
      ])

  zrange-decr_all :
      (u uid : ℕ) (bd : Breakdown) (r : R)
      → IsPositive bd
      → redis.zrange u (decr_all redis uid bd r) ≡ redis.zrange u r
  unfolding decr_all decr_if_exists
  zrange-decr_all u uid [] r p = refl
  zrange-decr_all u uid ((source, amount) ∷ bd) r p =
      rw (positive_leb amount p.0) (elim (Bool-cases (is_some (redis.get (key_for uid source) r))) [
        | inl there ↦ rw there (
            zrange-decr_all u uid bd _ p.1
            ∙ doc.zrange-incr_by u (key_for uid source) (pos 0 -ℤ amount) r)
        | inr missing ↦ rw missing (zrange-decr_all u uid bd r p.1)
      ])

  get-count_key :
      (kid : Option ℕ) (cost : ℤ) (ws : ℕ) (j : Key) (r : R)
      → ((k : ℕ) → same_key (kused k ws) j ≡ false)
      → redis.get j (count_key redis kid cost ws r) ≡ redis.get j r
  unfolding count_key
  get-count_key none cost ws j r h = refl
  get-count_key (some k) cost ws j r h = doc.get-incr_by j (kused k ws) cost r ∙ rw (h k) refl

  zrange-count_key :
      (kid : Option ℕ) (cost : ℤ) (ws u : ℕ) (r : R)
      → redis.zrange u (count_key redis kid cost ws r) ≡ redis.zrange u r
  unfolding count_key
  zrange-count_key none cost ws u r = refl
  zrange-count_key (some k) cost ws u r = doc.zrange-incr_by u (kused k ws) cost r

  -- One deduction list, mirrored: the parts of `Mirrors` after a charge.
  module _ (db : Db) (now : Datetime) (user : User) (r : R) (ws : ℕ) (kid : Option ℕ) (cost : ℤ)
      (out : User × List User × Breakdown) where
    abbrev subs : List Subscription
    subs = active_subscriptions db.subscriptions user.id now

    abbrev drained : Drained
    drained = drain subs cost db.subscriptions

    abbrev bd : Breakdown
    bd = drained.structured ++ out.2

    abbrev paid_user : User
    paid_user = record user {
      balance_cents = user.balance_cents -ℤ amount_for user.id (Redis.wallet user.id) out.2;
    }

    abbrev r' : R
    r' = count_key redis kid cost ws (decr_all redis user.id bd r)

    bd-IsPositive : WalletPaid user out → IsPositive bd
    bd-IsPositive w =
        All-append _ drained.structured out.2
          (drain-IsPositive subs cost db.subscriptions (subs-HasCents db user user now)) w.positive

    zrange-charged : WalletPaid user out → redis.zrange user.id r' ≡ redis.zrange user.id r
    zrange-charged w =
        zrange-count_key kid cost ws user.id (decr_all redis user.id bd r)
        ∙ zrange-decr_all user.id user.id bd r (bd-IsPositive w)

    sub-charged :
        (sid : ℕ) (s : Subscription)
        → WalletPaid user out
        → redis.get (subq sid) r ≡ some s.remaining_cents
        → redis.get (subq sid) r'
          ≡ some (s.remaining_cents -ℤ amount_for user.id (subq sid) drained.structured)
    sub-charged sid s w h =
        get-count_key kid cost ws (subq sid) (decr_all redis user.id bd r) (λ k. refl)
        ∙ get-decr_all user.id bd (subq sid) s.remaining_cents r (bd-IsPositive w) h
        ∙ ap (λ a. some (s.remaining_cents -ℤ a))
            (amount_for-append user.id (subq sid) drained.structured out.2
              ∙ ap (λ a. amount_for user.id (subq sid) drained.structured +ℤ a) (w.no_sub sid)
              ∙ +ℤ_zero _)

    wallet-charged :
        WalletPaid user out
        → redis.get (Redis.wallet user.id) r ≡ some user.balance_cents
        → redis.get (Redis.wallet user.id) r' ≡ some paid_user.balance_cents
    wallet-charged w h =
        get-count_key kid cost ws (Redis.wallet user.id) (decr_all redis user.id bd r) (λ k. refl)
        ∙ get-decr_all user.id bd (Redis.wallet user.id) user.balance_cents r (bd-IsPositive w) h
        ∙ ap (λ a. some (user.balance_cents -ℤ a))
            (amount_for-append user.id (Redis.wallet user.id) drained.structured out.2
              ∙ ap (λ a. a +ℤ amount_for user.id (Redis.wallet user.id) out.2)
                  (drain-wallet_free user.id subs cost db.subscriptions
                    (subs-HasCents db user user now))
              ∙ zero_+ℤ _)

    charged-Mirrors :
        (after : Db)
        → after.subscriptions ≡ drained.table
        → WalletPaid user out
        → Mirrors redis db now user r
        → Mirrors redis after now paid_user r'
    charged-Mirrors after e w m =
        let cents = subs-HasCents db user user now in
        record {
          wallet_held = wallet-charged w m.wallet_held;
          listed = λ sid h.
              let (s, row, current, held) =
                m.listed sid (sym (ap (member sid) (zrange-charged w)) ∙ h) in
              (
                take_from (amount_for user.id (subq sid) drained.structured) s,
                ap (get sub_id sid) e
                    ∙ get-drain user.id sid subs cost db.subscriptions s cents row,
                current,
                sub-charged sid s w held,
              );
          complete = λ sid s found current.
              let row = sym (ap (get sub_id sid) e) ∙ found in
              ap (member sid) (zrange-charged w)
              ∙ elim (Option-cases (get sub_id sid db.subscriptions)) [
                | inl none_there ↦ absurd (
                    none-some
                      (sym (get-drain-none sid subs cost db.subscriptions cents none_there) ∙ row))
                | inr (s', row') ↦
                    let t = amount_for user.id (subq sid) drained.structured in
                    let same : take_from t s' ≡ s = some_inj (
                      sym (get-drain user.id sid subs cost db.subscriptions s' cents row') ∙ row) in
                    m.complete sid s' row'
                      (subst (λ x. is_current user.id now x ≡ true) (sym same) current)
              ];
        }

  settled :
      (mirrors invalid : Bool) (now : Datetime) (db : Db) (user : User) (key : Option ApiKey)
      (cost : ℤ) (ref_id : Option RefId) (text : Option String) (kid : Option ℕ) (ws : ℕ) (r : R)
      (out : User × List User × Breakdown)
      → pos 1 ≤ℤ cost
      → WalletPaid user out
      → Mirrors redis db now user r
      → let d = drained db now user r ws kid cost out in
        let c = settle mirrors db user key cost ref_id text d out in
        Mirrors redis c.db now c.user
          (apply_charge redis false invalid user.id kid cost ws c.structured r)
  unfolding settle apply_charge
  settled mirrors invalid now db user key cost ref_id text kid ws r out c w m =
      let d = drained db now user r ws kid cost out in
      let after : Db = (settle mirrors db user key cost ref_id text d out).db in
      let mirrored = charged-Mirrors db now user r ws kid cost out after refl w m in
      rw (positive_leb cost c) (
        subst (λ u. Mirrors redis after now u (r' db now user r ws kid cost out)) (sym w.object)
          mirrored)

  -- When Redis holds what the database holds about the user, and no command raises, a charge of a
  -- positive cost returns and Redis, after the deductions are mirrored, holds what the database then
  -- holds about the user: the balance, and the current subscriptions with what remains of each.
  pub apply_charge-Mirrors :
      (mirrors invalid : Bool) (now : Datetime) (db : Db) (user : User) (key : Option ApiKey)
      (cost : ℤ) (ref_id : Option RefId) (text : Option String) (kid : Option ℕ) (ws : ℕ) (r : R)
      → IsReady db user user
      → pos 1 ≤ℤ cost
      → Mirrors redis db now user r
      → (c : Charged) × (charge_user mirrors now db user key cost ref_id text ≡ some c)
        × Mirrors redis c.db now c.user
            (apply_charge redis false invalid user.id kid cost ws c.structured r)
  apply_charge-Mirrors mirrors invalid now db user key cost ref_id text kid ws r h c m =
      let d = drained db now user r ws kid cost (user, [], []) in
      let (out, returns, falls) =
        charge_wallet_lem d.remaining user db.users user h.users_keyed h.row_found in
      let w = charge_wallet-WalletPaid d.remaining user db.users out h.row_found returns in
      let made = settle mirrors db user key cost ref_id text d out in
      (
        made,
        unfold charge_user in ground (arith, returns),
        settled mirrors invalid now db user key cost ref_id text kid ws r out c
            (charge_wallet-WalletPaid d.remaining user db.users out h.row_found returns) m,
      )
