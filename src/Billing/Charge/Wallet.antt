-- ===== src/Billing/Charge/Wallet.antt =====
-- The fall-back of `charge_user` on the wallet.
use llmxy.Prelude.{
  ℤ, pos, ◌+ℤ◌, ◌-ℤ◌, ◌≤ℤ◌, leb_ℤ, int_laws, some, List, [], ◌∷◌, true, false, ◌≡◌, refl, arith,
  Bool-cases, inl, inr, ap, pos_part, neg_part, +ℤ_zero, -ℤ_zero,
}
use llmxy.Models.{User, Breakdown, wallet}
use llmxy.Table.{get, update, IsKeyed}
use llmxy.Table.Laws.{get-update}
use llmxy.Db.{user_id, update_balance}
use llmxy.Db.Sums.{total, total-update, balance_of, amount_of}
use llmxy.Billing.Charge.{charge_wallet}
use llmxy.Billing.Charge.Drain.Greedy.{IsPositive}

-- What the fall-back does for an amount `rem` and the user's row.
pub record Falls (rem : ℤ) (user : User) (users : List User) (row : User)
    (out : User × List User × Breakdown) : Type 0 where
  pub lost : total balance_of out.1 +ℤ total amount_of out.2 ≡ total balance_of users
  pub covers : pos 0 ≤ℤ rem → total amount_of out.2 ≡ rem
  pub positive : IsPositive out.2
  pub own_row :
      get user_id user.id out.1
      ≡ some (record row { balance_cents = row.balance_cents -ℤ total amount_of out.2 })

Falls-nothing :
    (rem : ℤ) (user : User) (users : List User) (row : User)
    → get user_id user.id users ≡ some row
    → leb_ℤ rem (pos 0) ≡ true
    → Falls rem user users row (user, users, [])
unfolding total
Falls-nothing rem user users row g stop = record {
  lost = omega int_laws;
  covers = λ h. ground arith;
  positive = tt;
  own_row = rw (-ℤ_zero row.balance_cents) g;
}

abbrev spend : ℤ → User → User
spend rem u = record u { balance_cents = u.balance_cents -ℤ rem }

Falls-spend :
    (rem : ℤ) (user : User) (users : List User) (row : User)
    → IsKeyed user_id users
    → get user_id user.id users ≡ some row
    → leb_ℤ rem (pos 0) ≡ false
    → Falls rem user users row (
      record user { balance_cents = row.balance_cents -ℤ rem },
      update user_id user.id (spend rem) users,
      (wallet, rem) ∷ [],
    )
unfolding total
Falls-spend rem user users row u g more = record {
  lost = moved _ _ _ _ (total-update user_id balance_of (spend rem) user.id users row u g);
  covers = λ h. omega int_laws;
  positive = (ground arith, tt);
  own_row =
      rw (+ℤ_zero rem)
        (ground (arith, get-update user_id user.id user.id (spend rem) users (λ r. refl)));
}
  where
    moved : (all left b t : ℤ) → left +ℤ b ≡ all +ℤ (b -ℤ t) → left +ℤ (t +ℤ pos 0) ≡ all
    moved all left b t e = omega (int_laws, ap pos_part e, ap neg_part e)

-- The user's row is there, so the fall-back returns.
pub charge_wallet_lem :
    (rem : ℤ) (user : User) (users : List User) (row : User)
    → IsKeyed user_id users
    → get user_id user.id users ≡ some row
    → (out : User × List User × Breakdown) × (charge_wallet rem user users ≡ some out)
      × Falls rem user users row out
unfolding charge_wallet update_balance
charge_wallet_lem rem user users row u g = elim (Bool-cases (leb_ℤ rem (pos 0))) [
  | inl stop ↦ (_, ground arith, Falls-nothing rem user users row g stop)
  | inr more ↦ (_, ground arith, Falls-spend rem user users row u g more)
]
