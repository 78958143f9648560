-- ===== src/Billing/Renew/Scan/Rows.antt =====
-- The loop of a pass over the renewals, and the order of its rows.
use mathlib.Core.Path.{subst}
use llmxy.Prelude.{
  ℕ, pos, ◌≤ℤ◌, none, some, List, [], ◌∷◌, ◌≡◌, refl, sym, ap, ◌∙◌, arith, Bool-cases, inl, inr,
  All, leb, ◌==◌, ==_iff, some_inj, if◌then◌else◌,
}
use llmxy.Datetime.{Datetime}
use llmxy.Models.{Subscription}
use llmxy.Table.{get, IsKeyed}
use llmxy.Db.{Db, user_id, sub_id}
use llmxy.Billing.Renew.{renew_subscription}
use llmxy.Billing.Renew.Scan.{insert_by_id, sort_by_id, after_renewal, renew_all}
use llmxy.Billing.Renew.Scan.Steps.{IsSettled, renewal-Step}

module _ (now : Datetime) where
  -- A row that is not in the list stays.
  pub renew_all_frame :
      (k : ℕ) (ss : List Subscription) (db : Db)
      → get sub_id k ss ≡ none
      → get sub_id k (renew_all now ss db).subscriptions ≡ get sub_id k db.subscriptions
  unfolding renew_all get
  renew_all_frame k [] db h = refl
  renew_all_frame k (s ∷ ss) db h = elim (Bool-cases (s.id == k)) [
    | inl same ↦ absurd (clash (rw same at h))
    | inr other ↦
        renew_all_frame k ss (after_renewal db (renew_subscription now db s)) (rw other at h)
        ∙ (renewal-Step now db s).others k other
  ]
    where
      clash : some s ≡ none → ⊥
      clash e = cc

  pub renew_all_row :
      (k : ℕ) (ss : List Subscription) (db : Db) (s : Subscription)
      → IsKeyed sub_id ss
      → get sub_id k ss ≡ some s
      → get sub_id k db.subscriptions ≡ some s
      → (s' : Subscription) × (get sub_id k (renew_all now ss db).subscriptions ≡ some s')
        × IsSettled s s'
  unfolding renew_all get
  renew_all_row k [] db s u h g = cc
  renew_all_row k (x ∷ ss) db s u h g =
      let step = renewal-Step now db x in
      let db' = after_renewal db (renew_subscription now db x) in
      elim (Bool-cases (x.id == k)) [
        | inl same ↦
            let id : x.id ≡ k = (==_iff x.id k).0 same in
            let is : x ≡ s = some_inj (rw same at h) in
            (
              step.renewed_row,
              renew_all_frame k ss db' (subst (λ i. get sub_id i ss ≡ none) id u.0)
                  ∙ subst (λ i. get sub_id i db'.subscriptions ≡ some step.renewed_row) id
                      (step.row (
                        subst (λ i. get sub_id i db.subscriptions ≡ some x) (sym id)
                          (g ∙ ap some (sym is)))),
              subst (λ y. IsSettled y step.renewed_row) is step.settled,
            )
        | inr other ↦ renew_all_row k ss db' s u.1 (rw other at h) (step.others k other ∙ g)
      ]

  pub renew_all-Solvent :
      (ss : List Subscription) (db : Db)
      → IsKeyed user_id db.users
      → All (λ u. pos 0 ≤ℤ u.balance_cents) db.users
      → IsKeyed user_id (renew_all now ss db).users
        × All (λ u. pos 0 ≤ℤ u.balance_cents) (renew_all now ss db).users
  unfolding renew_all
  renew_all-Solvent [] db u n = (u, n)
  renew_all-Solvent (s ∷ ss) db u n =
      let next = (renewal-Step now db s).solvent u n in
      renew_all-Solvent ss (after_renewal db (renew_subscription now db s)) next.0 next.1

-- Sorting keeps the rows.
get-insert_by_id :
    (k : ℕ) (s : Subscription) (ss : List Subscription)
    → get sub_id s.id ss ≡ none
    → get sub_id k (insert_by_id s ss) ≡ (if s.id == k then some s else get sub_id k ss)
unfolding insert_by_id get
get-insert_by_id k s [] h = refl
get-insert_by_id k s (t ∷ ts) h = ground (arith, get-insert_by_id k s ts)

pub get-sort_by_id :
    (k : ℕ) (ss : List Subscription)
    → IsKeyed sub_id ss
    → get sub_id k (sort_by_id ss) ≡ get sub_id k ss
unfolding sort_by_id get
get-sort_by_id k [] u = refl
get-sort_by_id k (s ∷ ss) u =
    get-insert_by_id k s (sort_by_id ss) (get-sort_by_id s.id ss u.1 ∙ u.0)
    ∙ rw (get-sort_by_id k ss u.1) refl

insert_by_id-IsKeyed :
    (s : Subscription) (ss : List Subscription)
    → get sub_id s.id ss ≡ none
    → IsKeyed sub_id ss
    → IsKeyed sub_id (insert_by_id s ss)
unfolding insert_by_id get
insert_by_id-IsKeyed s [] h u = (h, tt)
insert_by_id-IsKeyed s (t ∷ ts) h u = elim (Bool-cases (leb s.id t.id)) [
  | inl le ↦ rw le (h, u)
  | inr gt ↦
      let absent : get sub_id s.id ts ≡ none = ground arith in
      rw gt (
        ground (arith, get-insert_by_id t.id s ts absent, u.0),
        insert_by_id-IsKeyed s ts absent u.1,
      )
]

pub sort_by_id-IsKeyed :
    (ss : List Subscription) → IsKeyed sub_id ss → IsKeyed sub_id (sort_by_id ss)
unfolding sort_by_id
sort_by_id-IsKeyed [] u = tt
sort_by_id-IsKeyed (s ∷ ss) u =
    insert_by_id-IsKeyed s (sort_by_id ss) (get-sort_by_id s.id ss u.1 ∙ u.0)
      (sort_by_id-IsKeyed ss u.1)
