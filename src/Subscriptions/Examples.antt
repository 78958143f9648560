-- ===== src/Subscriptions/Examples.antt =====
-- Alice cancels the subscription that has 30 of its 1000 cents left.
use llmxy.Prelude.{ℕ, ◌+◌, ◌*◌, ◌≤◌, ◌<◌, pos, ◌+ℤ◌, ◌≤ℤ◌, ◌≡◌, refl, some, false, Bool}
use llmxy.Datetime.{Datetime}
use llmxy.Table.{get, IsKeyed}
use llmxy.Db.{Db, user_id, sub_id}
use llmxy.Db.Sums.{total, balance_of}
use llmxy.Samples.{noon, alice, db, late_sub}
use llmxy.Subscriptions.{share_of, mul_div, terminate, immediate, conflict, cancel_subscription}
use llmxy.Subscriptions.Proration.{share_of_lem}
use llmxy.Subscriptions.Laws.{refund_of, cancel_subscription-once}

share_of_lem_example :
    (pos 0 ≤ℤ share_of (pos 300) (pos 1000) (pos 30))
    × (share_of (pos 300) (pos 1000) (pos 30) ≤ℤ pos 300)
    × ((left : ℕ)
        → pos 30 ≡ pos left
        → left ≤ 1000
        → 1 ≤ 300
        → 1 ≤ 1000
        → (refund : ℕ) × (share_of (pos 300) (pos 1000) (pos 30) ≡ pos refund)
          × (refund * 1000 ≤ 300 * left)
          × (300 * left < (refund + 1) * 1000))
share_of_lem_example = share_of_lem 300 1000 (pos 30)

-- 30 of 1000 cents, at a price of 300, are 9 cents.
nine_cents : share_of (pos 300) (pos 1000) (pos 30) ≡ pos 9
unfolding share_of mul_div
nine_cents = refl

late_sub_found : get sub_id 5 db.subscriptions ≡ some late_sub
unfolding get
late_sub_found = refl

users-IsKeyed : IsKeyed user_id db.users
unfolding get
users-IsKeyed = (refl, (refl, tt))

alice_found : get user_id 1 db.users ≡ some alice
unfolding get
alice_found = refl

cancel_subscription-once_example :
    (db' : Db) × (cancel_subscription noon db alice 5 false
      ≡ some (db', immediate (refund_of db late_sub)))
    × (total balance_of db'.users ≡ total balance_of db.users +ℤ refund_of db late_sub)
    × (get sub_id 5 db'.subscriptions ≡ some (terminate noon late_sub))
    × ((later : Datetime) (at_period_end : Bool)
        → cancel_subscription later db' alice 5 at_period_end ≡ some (db', conflict))
cancel_subscription-once_example =
    cancel_subscription-once noon db alice alice late_sub late_sub_found refl refl users-IsKeyed
      alice_found
