-- ===== src/QuotaCache/Apply/Amounts.antt =====
-- What the deductions of `charge_user` say about one key of Redis.
use mathlib.Core.Path.{subst}
use llmxy.Prelude.{
  ℕ, ℤ, pos, ◌+ℤ◌, ◌-ℤ◌, leb_ℤ, min_ℤ, int_laws, -ℤ_zero, +ℤ_zero, ◌≡◌, refl, sym, ap, ◌∙◌, arith,
  none, some, List, [], ◌∷◌, ◌++◌, false, ◌==◌, if◌then◌else◌, Bool-cases, inl, inr, some_inj,
  zero_+ℤ,
}
use llmxy.Models.{User, Subscription, wallet, Breakdown}
use llmxy.Table.{get, update}
use llmxy.Table.Laws.{get-update}
use llmxy.Db.{sub_id, user_id, update_balance}
use llmxy.Billing.Charge.{drain, take_from, charge_wallet}
use llmxy.Billing.Charge.Drain.{HasCents, drain_stop, drain_go}
use llmxy.Billing.Charge.Drain.Greedy.{IsPositive}
use llmxy.QuotaCache.Redis
use llmxy.QuotaCache.Redis.{Redis, Documented, Key, subq, kused, same_key}
use llmxy.QuotaCache.Apply.{key_for}

-- The sum of the deductions that concern the key.
unfoldable pub amount_for : ℕ → Key → Breakdown → ℤ
amount_for uid j [] = pos 0
amount_for uid j ((source, amount) ∷ bd) =
    let rest = amount_for uid j bd in
    if same_key (key_for uid source) j then amount +ℤ rest else rest

pub amount_for-append :
    (uid : ℕ) (j : Key) (xs ys : Breakdown)
    → amount_for uid j (xs ++ ys) ≡ amount_for uid j xs +ℤ amount_for uid j ys
unfolding amount_for
amount_for-append uid j [] ys = sym (zero_+ℤ _)
amount_for-append uid j ((source, amount) ∷ xs) ys =
    elim (Bool-cases (same_key (key_for uid source) j)) [
      | inl same ↦ rw (same, amount_for-append uid j xs ys) (omega int_laws)
      | inr other ↦ rw other (amount_for-append uid j xs ys)
    ]

pub none-some : {s : Subscription} → none ≡ some s → ⊥
none-some e = cc

-- The rows of the table lose what the deductions say.
take_nothing : (s : Subscription) → take_from (pos 0) s ≡ s
take_nothing s = rw (-ℤ_zero s.remaining_cents) refl

take_twice : (a b : ℤ) (s : Subscription) → take_from b (take_from a s) ≡ take_from (a +ℤ b) s
take_twice a b s =
    let e : s.remaining_cents -ℤ a -ℤ b ≡ s.remaining_cents -ℤ (a +ℤ b) = omega int_laws in
    rw e refl

pub get-drain :
    (uid k : ℕ) (ss : List Subscription) (rem : ℤ) (table : List Subscription) (row : Subscription)
    → HasCents ss
    → get sub_id k table ≡ some row
    → get sub_id k (drain ss rem table).table
      ≡ some (take_from (amount_for uid (subq k) (drain ss rem table).structured) row)
unfolding amount_for
get-drain uid k [] rem table row a h = unfold drain in h ∙ ap some (sym (take_nothing row))
get-drain uid k (s ∷ ss) rem table row a h = elim (Bool-cases (leb_ℤ rem (pos 0))) [
  | inl stop ↦ rw (drain_stop (s ∷ ss) rem table stop) (h ∙ ap some (sym (take_nothing row)))
  | inr more ↦
      let t : ℤ = min_ℤ s.remaining_cents rem in
      let moved = get-update sub_id k s.id (take_from t) table (λ r. refl) in
      rw (drain_go s ss rem table a.0 more) (elim (Bool-cases (s.id == k)) [
        | inl same ↦ rw same (
            get-drain uid k ss (rem -ℤ t) (update sub_id s.id (take_from t) table) (take_from t row)
              a.1 (ground (arith, moved, same, h))
            ∙ ap some (take_twice t _ row))
        | inr other ↦ rw other (
            get-drain uid k ss (rem -ℤ t) (update sub_id s.id (take_from t) table) row a.1
              (ground (arith, moved, other, h)))
      ])
]

pub get-drain-none :
    (k : ℕ) (ss : List Subscription) (rem : ℤ) (table : List Subscription)
    → HasCents ss
    → get sub_id k table ≡ none
    → get sub_id k (drain ss rem table).table ≡ none
get-drain-none k [] rem table a h = unfold drain in h
get-drain-none k (s ∷ ss) rem table a h = elim (Bool-cases (leb_ℤ rem (pos 0))) [
  | inl stop ↦ rw (drain_stop (s ∷ ss) rem table stop) h
  | inr more ↦
      let t : ℤ = min_ℤ s.remaining_cents rem in
      let moved = get-update sub_id k s.id (take_from t) table (λ r. refl) in
      rw (drain_go s ss rem table a.0 more) (
        get-drain-none k ss (rem -ℤ t) (update sub_id s.id (take_from t) table) a.1
          (ground (arith, moved, h)))
]

pub drain-wallet_free :
    (uid : ℕ) (ss : List Subscription) (rem : ℤ) (table : List Subscription)
    → HasCents ss
    → amount_for uid (Redis.wallet uid) (drain ss rem table).structured ≡ pos 0
unfolding amount_for
drain-wallet_free uid [] rem table a = unfold drain in refl
drain-wallet_free uid (s ∷ ss) rem table a = elim (Bool-cases (leb_ℤ rem (pos 0))) [
  | inl stop ↦ rw (drain_stop (s ∷ ss) rem table stop) refl
  | inr more ↦ rw (drain_go s ss rem table a.0 more) (
      drain-wallet_free uid ss (rem -ℤ min_ℤ s.remaining_cents rem)
        (update sub_id s.id (take_from (min_ℤ s.remaining_cents rem)) table) a.1)
]

-- The wallet's object loses what its deduction says.
pub record WalletPaid (user : User) (out : User × List User × Breakdown) : Type 0 where
  pub object : out.0 ≡ record user {
    balance_cents = user.balance_cents -ℤ amount_for user.id (Redis.wallet user.id) out.2;
  }
  pub no_sub : (k : ℕ) → amount_for user.id (subq k) out.2 ≡ pos 0
  pub positive : IsPositive out.2

abbrev spend : ℤ → User → User
spend rem u = record u { balance_cents = u.balance_cents -ℤ rem }

WalletPaid-nothing : (user : User) (users : List User) → WalletPaid user (user, users, [])
unfolding amount_for
WalletPaid-nothing user users = record {
  object = rw (-ℤ_zero user.balance_cents) refl;
  no_sub = λ k. refl;
  positive = tt;
}

WalletPaid-spend :
    (rem : ℤ) (user : User) (users : List User)
    → leb_ℤ rem (pos 0) ≡ false
    → WalletPaid user (spend rem user, users, (wallet, rem) ∷ [])
unfolding amount_for
WalletPaid-spend rem user users more = record {
  object = ground (arith, +ℤ_zero rem);
  no_sub = λ k. refl;
  positive = (ground arith, tt);
}

pub charge_wallet-WalletPaid :
    (rem : ℤ) (user : User) (users : List User) (out : User × List User × Breakdown)
    → get user_id user.id users ≡ some user
    → charge_wallet rem user users ≡ some out
    → WalletPaid user out
unfolding charge_wallet update_balance
charge_wallet-WalletPaid rem user users out g e = elim (Bool-cases (leb_ℤ rem (pos 0))) [
  | inl stop ↦ subst (WalletPaid user) (some_inj (rw stop at e)) (WalletPaid-nothing user users)
  | inr more ↦
      subst (WalletPaid user) (some_inj (rw (more, g) at e)) (WalletPaid-spend rem user _ more)
]
