-- ===== src/Billing/Grant/Laws.antt =====
-- A top-up moves one balance by its amount and books what it left there; a grant adds one fresh
-- subscription.
use llmxy.Prelude.{
  ℕ, ℤ, ◌+ℤ◌, int_laws, ◌≡◌, refl, arith, ap, pos_part, neg_part, Option, some, List, [], ◌∷◌, ◌++◌,
  member, true,
}
use llmxy.Models.{User, BalanceTx, RefId, NoteText}
use llmxy.Table.{get, update, IsKeyed}
use llmxy.Table.Laws.{get-update}
use llmxy.Db.{Db, user_id, update_balance, mark_uid}
use llmxy.Db.Sums.{total, total-update, balance_of}
use llmxy.Billing.Grant.{topup_wallet, book_topup}

-- What a top-up of the user's row by `amount` leaves.
pub record ToppedUp (db : Db) (user row : User) (amount : ℤ) (out : Db × User) : Type 0 where
  pub gained : total balance_of out.0.users ≡ total balance_of db.users +ℤ amount
  pub own_row :
      get user_id user.id out.0.users
      ≡ some (record row { balance_cents = row.balance_cents +ℤ amount })
  pub booked :
      (tx : BalanceTx) × (out.0.balance_tx ≡ db.balance_tx ++ tx ∷ [])
      × (tx.amount_cents ≡ amount)
      × (tx.balance_after ≡ row.balance_cents +ℤ amount)
  pub marked : member user.id out.0.quota_invalidate_uids ≡ true
  pub subscriptions : out.0.subscriptions ≡ db.subscriptions

member-mark_uid : (uid : ℕ) (uids : List ℕ) → member uid (mark_uid uid uids) ≡ true
member-mark_uid uid uids = ground arith

abbrev credit : ℤ → User → User
credit amount u = record u { balance_cents = u.balance_cents +ℤ amount }

-- A user with a row, in a table with distinct ids: the top-up returns, the balances together and the
-- user's own grow by the amount, one transaction with that amount and the new balance is appended,
-- the user's cached quota is marked, and no subscription changes.
pub topup_wallet_lem :
    (db : Db) (user row : User) (amount : ℤ) (ref_id : Option RefId) (text : NoteText)
    → IsKeyed user_id db.users
    → get user_id user.id db.users ≡ some row
    → (out : Db × User) × (topup_wallet db user amount ref_id text ≡ some out)
      × ToppedUp db user row amount out
unfolding topup_wallet update_balance book_topup
topup_wallet_lem db user row amount ref_id text u g = (
  book_topup db user amount ref_id text
      (row.balance_cents +ℤ amount, update user_id user.id (credit amount) db.users),
  rw g refl,
  record {
    gained =
        moved _ _ _ _ (total-update user_id balance_of (credit amount) user.id db.users row u g);
    own_row =
        ground (arith, get-update user_id user.id user.id (credit amount) db.users (λ r. refl));
    booked = (_, refl, refl, refl);
    marked = member-mark_uid user.id db.quota_invalidate_uids;
    subscriptions = refl;
  },
)
  where
    moved : (all left b t : ℤ) → left +ℤ b ≡ all +ℤ (b +ℤ t) → left ≡ all +ℤ t
    moved all left b t e = omega (int_laws, ap pos_part e, ap neg_part e)
