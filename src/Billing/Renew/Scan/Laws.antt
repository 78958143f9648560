-- ===== src/Billing/Renew/Scan/Laws.antt =====
-- What one pass of the renewal worker does to the subscriptions and the wallets.
use llmxy.Prelude.{
  ℕ, pos, ◌≤ℤ◌, none, some, List, Bool, true, false, ◌≡◌, refl, sym, ap, ◌∙◌, Bool-cases,
  Option-cases, inl, inr, All, filter, some_inj, if◌then◌else◌,
}
use llmxy.Datetime.{Datetime}
use llmxy.Models.{Subscription}
use llmxy.Table.{get, IsKeyed}
use llmxy.Table.Laws.{filter-IsKeyed, get-filter-some, get-filter_sound}
use llmxy.Db.{Db, user_id, sub_id}
use llmxy.Billing.Renew.Scan.{is_due, sort_by_id, scan_once}
use llmxy.Billing.Renew.Scan.Steps.{IsSettled}
use llmxy.Billing.Renew.Scan.Rows.{
  renew_all_frame, renew_all_row, renew_all-Solvent, get-sort_by_id, sort_by_id-IsKeyed,
}

filtered_out :
    (p : Subscription → Bool) (k : ℕ) (ss : List Subscription) (s : Subscription)
    → IsKeyed sub_id ss
    → get sub_id k ss ≡ some s
    → p s ≡ false
    → get sub_id k (filter p ss) ≡ none
filtered_out p k ss s u g h = elim (Option-cases (get sub_id k (filter p ss))) [
  | inl gone ↦ gone
  | inr (x, found) ↦
      let (row, passes) = get-filter_sound sub_id p k ss x u found in
      absurd (clash (sym passes ∙ ap p (some_inj (sym row ∙ g)) ∙ h))
]
  where
    clash : true ≡ false → ⊥
    clash e = cc

-- The ids of users are distinct and no balance is negative: a pass keeps it so.
pub renewal_scan-Solvent :
    (now : Datetime) (locked : ℕ → Bool) (db : Db)
    → IsKeyed user_id db.users
    → All (λ u. pos 0 ≤ℤ u.balance_cents) db.users
    → IsKeyed user_id (scan_once now locked db).users
      × All (λ u. pos 0 ≤ℤ u.balance_cents) (scan_once now locked db).users
unfolding scan_once
renewal_scan-Solvent now locked db u n =
    renew_all-Solvent now (sort_by_id (filter (is_due now locked) db.subscriptions)) db u n

-- Subscriptions have distinct ids. After a pass, one that was due, and that no other transaction had
-- locked, has begun its next period or serves no more; any other one is as it was.
pub renewal_scan_lem :
    (now : Datetime) (locked : ℕ → Bool) (db : Db) (k : ℕ) (s : Subscription)
    → IsKeyed sub_id db.subscriptions
    → get sub_id k db.subscriptions ≡ some s
    → (s' : Subscription) × (get sub_id k (scan_once now locked db).subscriptions ≡ some s')
      × (if is_due now locked s then IsSettled s s' else (s' ≡ s))
unfolding scan_once
renewal_scan_lem now locked db k s u g =
    let due = filter (is_due now locked) db.subscriptions in
    let keyed = filter-IsKeyed sub_id (is_due now locked) db.subscriptions u in
    elim (Bool-cases (is_due now locked s)) [
      | inl h ↦
          let found = get-filter-some sub_id (is_due now locked) k db.subscriptions s u g h in
          let (s', row, settled) =
            renew_all_row now k (sort_by_id due) db s (sort_by_id-IsKeyed due keyed)
              (get-sort_by_id k due keyed ∙ found) g in
          rw h (s', row, settled)
      | inr h ↦ rw h (
        s,
        renew_all_frame now k (sort_by_id due) db (
              get-sort_by_id k due keyed
              ∙ filtered_out (is_due now locked) k db.subscriptions s u g h)
            ∙ g,
        refl,
      )
    ]
