-- ===== src/Billing/Accounts/Laws.antt =====
-- The list that `active_subscriptions` returns: which rows, in which order, and that each stands in
-- the table.
use llmxy.Prelude.{
  ℕ, ◌≤◌, ℤ, ◌+ℤ◌, int_laws, none, some, List, [], ◌∷◌, true, ◌==◌, leb, filter, All, All-weaken,
  All-both, ◌≡◌, ◌≢◌, refl, arith, Bool-cases, inl, inr, ==_iff,
}
use llmxy.Datetime.{Datetime, stamp}
use llmxy.Models.{Subscription}
use llmxy.Table.{get, IsKeyed}
use llmxy.Table.Laws.{
  get-cons, get_self, get-filter-none, filter-IsKeyed, filter-All, filter-passes, get-filter-some,
}
use llmxy.Db.{sub_id}
use llmxy.Db.Sums.{total, remaining_of}
use llmxy.Billing.Accounts.{is_spendable, insert_by_end, sort_by_end, active_subscriptions}

abbrev pub EndsFrom : ℕ → List Subscription → Type 0
EndsFrom n = All (λ s. n ≤ stamp s.current_period_end)

-- Soonest end first.
abbrev pub IsSorted : List Subscription → Type 0
IsSorted [] = Unit
IsSorted (s ∷ ss) = EndsFrom (stamp s.current_period_end) ss × IsSorted ss

insert_by_end-All :
    (P : Subscription → Type 0) (s : Subscription) (ss : List Subscription)
    → P s
    → All P ss
    → All P (insert_by_end s ss)
unfolding insert_by_end
insert_by_end-All P s [] h a = (h, tt)
insert_by_end-All P s (t ∷ ts) h a =
    elim (Bool-cases (leb (stamp s.current_period_end) (stamp t.current_period_end))) [
      | inl le ↦ rw le (h, (a.0, a.1))
      | inr gt ↦ rw gt (a.0, insert_by_end-All P s ts h a.1)
    ]

sort_by_end-All :
    (P : Subscription → Type 0) (ss : List Subscription) → All P ss → All P (sort_by_end ss)
unfolding sort_by_end
sort_by_end-All P [] a = tt
sort_by_end-All P (s ∷ ss) a = insert_by_end-All P s (sort_by_end ss) a.0 (sort_by_end-All P ss a.1)

insert_by_end-IsSorted :
    (s : Subscription) (ss : List Subscription) → IsSorted ss → IsSorted (insert_by_end s ss)
unfolding insert_by_end
insert_by_end-IsSorted s [] h = (tt, tt)
insert_by_end-IsSorted s (t ∷ ts) h =
    elim (Bool-cases (leb (stamp s.current_period_end) (stamp t.current_period_end))) [
      | inl le ↦ rw le ((ground arith, All-weaken _ _ ts (λ x p. ground arith) h.0), (h.0, h.1))
      | inr gt ↦ rw gt (
        insert_by_end-All (λ x. stamp t.current_period_end ≤ stamp x.current_period_end) s ts
            (ground arith) h.0,
        insert_by_end-IsSorted s ts h.1,
      )
    ]

sort_by_end-IsSorted : (ss : List Subscription) → IsSorted (sort_by_end ss)
unfolding sort_by_end
sort_by_end-IsSorted [] = tt
sort_by_end-IsSorted (s ∷ ss) = insert_by_end-IsSorted s (sort_by_end ss) (sort_by_end-IsSorted ss)

-- Sorting loses no row and no cent.
get-insert_by_end :
    (k : ℕ) (s : Subscription) (ss : List Subscription)
    → get sub_id k ss ≡ none
    → s.id ≢ k
    → get sub_id k (insert_by_end s ss) ≡ none
unfolding insert_by_end get
get-insert_by_end k s [] h ne = ground arith
get-insert_by_end k s (t ∷ ts) h ne = ground (arith, get-insert_by_end k s ts)

get-sort_by_end :
    (k : ℕ) (ss : List Subscription) → get sub_id k ss ≡ none → get sub_id k (sort_by_end ss) ≡ none
unfolding sort_by_end get
get-sort_by_end k [] h = h
get-sort_by_end k (s ∷ ss) h = elim (Bool-cases (s.id == k)) [
  | inl same ↦ absurd (ground arith)
  | inr other ↦
      get-insert_by_end k s (sort_by_end ss) (get-sort_by_end k ss (ground arith)) (ground arith)
]

insert_by_end-IsKeyed :
    (s : Subscription) (ss : List Subscription)
    → get sub_id s.id ss ≡ none
    → IsKeyed sub_id ss
    → IsKeyed sub_id (insert_by_end s ss)
unfolding insert_by_end get
insert_by_end-IsKeyed s [] h u = (h, tt)
insert_by_end-IsKeyed s (t ∷ ts) h u =
    elim (Bool-cases (leb (stamp s.current_period_end) (stamp t.current_period_end))) [
      | inl le ↦ rw le (h, u)
      | inr gt ↦ rw gt (
        get-insert_by_end t.id s ts u.0 (ground arith),
        insert_by_end-IsKeyed s ts (ground arith) u.1,
      )
    ]

sort_by_end-IsKeyed : (ss : List Subscription) → IsKeyed sub_id ss → IsKeyed sub_id (sort_by_end ss)
unfolding sort_by_end
sort_by_end-IsKeyed [] u = tt
sort_by_end-IsKeyed (s ∷ ss) u =
    insert_by_end-IsKeyed s (sort_by_end ss) (get-sort_by_end s.id ss u.0)
      (sort_by_end-IsKeyed ss u.1)

total-insert_by_end :
    (f : Subscription → ℤ) (s : Subscription) (ss : List Subscription)
    → total f (insert_by_end s ss) ≡ f s +ℤ total f ss
unfolding insert_by_end total
total-insert_by_end f s [] = refl
total-insert_by_end f s (t ∷ ts) =
    elim (Bool-cases (leb (stamp s.current_period_end) (stamp t.current_period_end))) [
      | inl le ↦ rw le refl
      | inr gt ↦ rw (gt, total-insert_by_end f s ts) (omega int_laws)
    ]

pub total-sort_by_end :
    (f : Subscription → ℤ) (ss : List Subscription) → total f (sort_by_end ss) ≡ total f ss
unfolding sort_by_end total
total-sort_by_end f [] = refl
total-sort_by_end f (s ∷ ss) = rw (total-insert_by_end f s (sort_by_end ss), total-sort_by_end f ss)

get-insert_by_end_self :
    (s : Subscription) (ss : List Subscription)
    → get sub_id s.id ss ≡ none
    → get sub_id s.id (insert_by_end s ss) ≡ some s
unfolding insert_by_end get
get-insert_by_end_self s [] h = ground arith
get-insert_by_end_self s (t ∷ ts) h = ground (arith, get-insert_by_end_self s ts)

get-insert_by_end-some :
    (k : ℕ) (s x : Subscription) (ss : List Subscription)
    → get sub_id s.id ss ≡ none
    → get sub_id k ss ≡ some x
    → get sub_id k (insert_by_end s ss) ≡ some x
unfolding insert_by_end get
get-insert_by_end-some k s x [] n h = cc
get-insert_by_end-some k s x (t ∷ ts) n h =
    ground (arith, get-insert_by_end-some k s x ts, get-cons sub_id k s x (t ∷ ts) n h)

get-sort_by_end-some :
    (k : ℕ) (x : Subscription) (ss : List Subscription)
    → IsKeyed sub_id ss
    → get sub_id k ss ≡ some x
    → get sub_id k (sort_by_end ss) ≡ some x
unfolding sort_by_end get
get-sort_by_end-some k x [] u h = h
get-sort_by_end-some k x (s ∷ ss) u h = elim (Bool-cases (s.id == k)) [
  | inl same ↦
      let e : s.id ≡ k = (==_iff s.id k).0 same in
      let row : s ≡ x = ground arith in
      rw (← e, ← row) (get-insert_by_end_self s (sort_by_end ss) (get-sort_by_end s.id ss u.0))
  | inr other ↦
      get-insert_by_end-some k s x (sort_by_end ss) (get-sort_by_end s.id ss u.0)
        (get-sort_by_end-some k x ss u.1 (ground arith))
]

module _ (table : List Subscription) (uid : ℕ) (now : Datetime) where
  abbrev active : List Subscription
  active = active_subscriptions table uid now

  pub active-IsKeyed : IsKeyed sub_id table → IsKeyed sub_id active
  unfolding active_subscriptions
  active-IsKeyed u = sort_by_end-IsKeyed _ (filter-IsKeyed sub_id (is_spendable uid now) table u)

  pub active-found : IsKeyed sub_id table → All (λ s. get sub_id s.id table ≡ some s) active
  unfolding active_subscriptions
  active-found u =
      sort_by_end-All _ _ (filter-All _ (is_spendable uid now) table (get_self sub_id table u))

  pub active-absent : (k : ℕ) → get sub_id k table ≡ none → get sub_id k active ≡ none
  unfolding active_subscriptions
  active-absent k h = get-sort_by_end k _ (get-filter-none sub_id (is_spendable uid now) k table h)

  pub active-spendable : All (λ s. is_spendable uid now s ≡ true) active
  unfolding active_subscriptions
  active-spendable = sort_by_end-All _ _ (filter-passes (is_spendable uid now) table)

  pub total-active :
      total remaining_of active ≡ total remaining_of (filter (is_spendable uid now) table)
  unfolding active_subscriptions
  total-active = total-sort_by_end remaining_of _

  -- In a table with distinct ids the list is in the order of the period ends, every row of it is
  -- a row of the table that is spendable, and every spendable row of the table is in it.
  pub active_subscriptions_lem :
      IsKeyed sub_id table
      → IsSorted active
        × All (λ s. (get sub_id s.id table ≡ some s) × (is_spendable uid now s ≡ true)) active
        × ((k : ℕ) (s : Subscription)
            → get sub_id k table ≡ some s
            → is_spendable uid now s ≡ true
            → get sub_id k active ≡ some s)
  unfolding active_subscriptions
  active_subscriptions_lem u = (
    sort_by_end-IsSorted (filter (is_spendable uid now) table),
    All-both _ _ active (active-found u) active-spendable,
    λ k s g p.
        get-sort_by_end-some k s _ (filter-IsKeyed sub_id _ table u)
          (get-filter-some sub_id _ k table s u g p),
  )
