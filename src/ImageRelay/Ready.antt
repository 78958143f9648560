-- ===== src/ImageRelay/Ready.antt =====
-- A charge and a refund leave the tables ready for the next one.
use mathlib.Core.Path.{subst}
use llmxy.Prelude.{
  ℕ, ℤ, pos, ◌+ℤ◌, ◌-ℤ◌, leb_ℤ, min_ℤ, Option, some, List, [], ◌∷◌, Bool, ◌≡◌, refl, sym, arith,
  Bool-cases, inl, inr, String, some_inj, >>=-eq-some, ◌||◌,
}
use llmxy.Datetime.{Datetime}
use llmxy.Models.{User, ApiKey, Subscription, Breakdown, RefId}
use llmxy.Table.{get, update, IsKeyed}
use llmxy.Table.Laws.{get-update, update-IsKeyed}
use llmxy.Db.{Db, user_id, sub_id, update_balance}
use llmxy.Billing.Charge.{drain, take_from, charge_wallet, settle, Charged, Drained, charge_user}
use llmxy.Billing.Charge.Drain.{HasCents, drain_stop, drain_go}
use llmxy.Billing.Charge.Laws.{IsReady, subs-HasCents}
use llmxy.Billing.Accounts.{active_subscriptions}
use llmxy.Billing.Refund.{
  Refunded, refund_to_sources, refund_subs, refund_wallet, settle_refund, split_refund, give_to,
  Spread, is_nil,
}

drain-IsKeyed :
    (ss : List Subscription) (rem : ℤ) (table : List Subscription)
    → HasCents ss
    → IsKeyed sub_id table
    → IsKeyed sub_id (drain ss rem table).table
drain-IsKeyed [] rem table a u = unfold drain in u
drain-IsKeyed (s ∷ ss) rem table a u = elim (Bool-cases (leb_ℤ rem (pos 0))) [
  | inl stop ↦ rw (drain_stop (s ∷ ss) rem table stop) u
  | inr more ↦
      let t : ℤ = min_ℤ s.remaining_cents rem in
      rw (drain_go s ss rem table a.0 more) (
        drain-IsKeyed ss (rem -ℤ t) (update sub_id s.id (take_from t) table) a.1
          (update-IsKeyed sub_id s.id (take_from t) table (λ r. refl) u))
]

-- The user's table and the session's user after an UPDATE of the balance.
record Kept (user : User) (out_user : User) (users : List User) : Type 0 where
  same_id : out_user.id ≡ user.id
  keyed : IsKeyed user_id users
  found_row : User
  found : get user_id user.id users ≡ some found_row

Kept-update :
    (f : ℤ → ℤ) (user row : User) (b : ℤ) (users : List User)
    → IsKeyed user_id users
    → get user_id user.id users ≡ some row
    → Kept user
        (record user { balance_cents = b })
        (update user_id user.id (λ u. record u { balance_cents = f u.balance_cents }) users)
Kept-update f user row b users u g = record {
  same_id = refl;
  keyed = update-IsKeyed user_id user.id _ users (λ r. refl) u;
  found_row = record row { balance_cents = f row.balance_cents };
  found = ground (
    arith,
    g,
    get-update user_id user.id user.id (λ u. record u { balance_cents = f u.balance_cents }) users
        (λ r. refl),
  );
}

charge_wallet-Kept :
    (rem : ℤ) (user row : User) (users : List User) (out : User × List User × Breakdown)
    → IsKeyed user_id users
    → get user_id user.id users ≡ some row
    → charge_wallet rem user users ≡ some out
    → Kept user out.0 out.1
unfolding charge_wallet update_balance
charge_wallet-Kept rem user row users out u g e = elim (Bool-cases (leb_ℤ rem (pos 0))) [
  | inl stop ↦
      subst (λ (o : User × List User × Breakdown). Kept user o.0 o.1) (some_inj (rw stop at e))
        (record { same_id = refl; keyed = u; found_row = row; found = g })
  | inr more ↦
      subst (λ (o : User × List User × Breakdown). Kept user o.0 o.1) (some_inj (rw (more, g) at e))
        (Kept-update (λ b. b -ℤ rem) user row (row.balance_cents -ℤ rem) users u g)
]

refund_wallet-Kept :
    (amount : ℤ) (user row : User) (users : List User) (out : User × List User)
    → IsKeyed user_id users
    → get user_id user.id users ≡ some row
    → refund_wallet amount user users ≡ some out
    → Kept user out.0 out.1
unfolding refund_wallet update_balance
refund_wallet-Kept amount user row users out u g e = elim (Bool-cases (leb_ℤ amount (pos 0))) [
  | inl stop ↦
      subst (λ (o : User × List User). Kept user o.0 o.1) (some_inj (rw stop at e))
        (record { same_id = refl; keyed = u; found_row = row; found = g })
  | inr more ↦
      subst (λ (o : User × List User). Kept user o.0 o.1) (some_inj (rw (more, g) at e))
        (Kept-update (λ b. b +ℤ amount) user row (row.balance_cents +ℤ amount) users u g)
]

refund_subs-IsKeyed :
    (gs : List (ℕ × ℤ)) (table : List Subscription)
    → IsKeyed sub_id table
    → IsKeyed sub_id (refund_subs gs table)
unfolding refund_subs
refund_subs-IsKeyed [] table u = u
refund_subs-IsKeyed ((sid, give) ∷ gs) table u =
    refund_subs-IsKeyed gs (update sub_id sid (give_to give) table)
      (update-IsKeyed sub_id sid (give_to give) table (λ r. refl) u)

-- The tables and the session's user after the call are ready again.
abbrev pub StaysReady : Db → User → Type 0
StaysReady db user = (row : User) × IsReady db user row

-- And the session's user is still the same one.
abbrev pub Continues : User → Db → User → Type 0
Continues user db u = StaysReady db u × (u.id ≡ user.id)

Kept-IsReady :
    (db : Db) (user u : User)
    → Kept user u db.users
    → IsKeyed sub_id db.subscriptions
    → Continues user db u
Kept-IsReady db user u k s = (
  (
    k.found_row,
    record {
      users_keyed = k.keyed;
      subs_keyed = s;
      row_found = subst (λ i. get user_id i db.users ≡ some k.found_row) (sym k.same_id) k.found;
    },
  ),
  k.same_id,
)

settle-Continues :
    (mirrors : Bool) (db : Db) (user row : User) (key : Option ApiKey) (cost : ℤ)
    (ref_id : Option RefId) (text : Option String) (d : Drained)
    (out : User × List User × Breakdown)
    → IsReady db user row
    → charge_wallet d.remaining user db.users ≡ some out
    → IsKeyed sub_id d.table
    → let c = settle mirrors db user key cost ref_id text d out in Continues user c.db c.user
unfolding settle
settle-Continues mirrors db user row key cost ref_id text d out h paid keyed =
    Kept-IsReady (settle mirrors db user key cost ref_id text d out).db user out.0
      (charge_wallet-Kept d.remaining user row db.users out h.users_keyed h.row_found paid) keyed

settle_refund-Continues :
    (mirrors : Bool) (db : Db) (user row : User) (key : Option ApiKey) (ref_id : Option RefId)
    (text : Option String) (s : Spread) (out : User × List User)
    → IsReady db user row
    → refund_wallet s.to_wallet user db.users ≡ some out
    → let r = settle_refund mirrors db user key ref_id text s out in Continues user r.db r.user
unfolding settle_refund
settle_refund-Continues mirrors db user row key ref_id text s out h paid =
    Kept-IsReady (settle_refund mirrors db user key ref_id text s out).db user out.0
      (refund_wallet-Kept s.to_wallet user row db.users out h.users_keyed h.row_found paid)
      (refund_subs-IsKeyed s.sub_refunds db.subscriptions h.subs_keyed)

pub refund_to_sources-Continues :
    (mirrors : Bool) (now : Datetime) (db : Db) (user row : User) (key : Option ApiKey)
    (breakdown : Breakdown) (refund : ℤ) (ref_id : Option RefId) (text : Option String)
    (r : Refunded)
    → IsReady db user row
    → refund_to_sources mirrors now db user key breakdown refund ref_id text ≡ some r
    → Continues user r.db r.user
unfolding refund_to_sources
refund_to_sources-Continues mirrors now db user row key breakdown refund ref_id text r h e =
    elim (Bool-cases (leb_ℤ refund (pos 0) || is_nil breakdown)) [
      | inl nothing ↦
          subst (λ (x : Refunded). Continues user x.db x.user) (some_inj (rw nothing at e))
            ((row, h), refl)
      | inr some_share ↦
          let s =
            split_refund (active_subscriptions db.subscriptions user.id now) breakdown refund in
          let (out, paid, is) =
            >>=-eq-some (refund_wallet s.to_wallet user db.users) _ (rw some_share at e) in
          subst (λ (x : Refunded). Continues user x.db x.user) (some_inj is)
            (settle_refund-Continues mirrors db user row key ref_id text s out h paid)
    ]

pub charge_user-Continues :
    (mirrors : Bool) (now : Datetime) (db : Db) (user row : User) (key : Option ApiKey) (cost : ℤ)
    (ref_id : Option RefId) (text : Option String) (c : Charged)
    → IsReady db user row
    → charge_user mirrors now db user key cost ref_id text ≡ some c
    → Continues user c.db c.user
unfolding charge_user
charge_user-Continues mirrors now db user row key cost ref_id text c h e =
    elim (Bool-cases (leb_ℤ cost (pos 0))) [
      | inl free ↦
          subst (λ (x : Charged). Continues user x.db x.user) (some_inj (rw free at e))
            ((row, h), refl)
      | inr costs ↦
          let d = drain (active_subscriptions db.subscriptions user.id now) cost db.subscriptions in
          let (out, paid, is) =
            >>=-eq-some (charge_wallet d.remaining user db.users) _ (rw costs at e) in
          subst (λ (x : Charged). Continues user x.db x.user) (some_inj is)
            (settle-Continues mirrors db user row key cost ref_id text d out h paid (
              drain-IsKeyed (active_subscriptions db.subscriptions user.id now) cost
                db.subscriptions (subs-HasCents db user row now) h.subs_keyed))
    ]
