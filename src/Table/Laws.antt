-- ===== src/Table/Laws.antt =====
-- What an UPDATE of one row leaves and changes.
use llmxy.Prelude.{
  ℕ, List, [], ◌∷◌, ◌==◌, if◌then◌else◌, ◌≡◌, arith, refl, none, some, Bool, true, filter, All,
  All-weaken, Bool-cases, ==_iff, inl, inr, some_inj, ap,
}
use mathlib.Core.Option
use mathlib.Core.Path.{subst}
use llmxy.Table.{get, update, IsKeyed}

module _ {ℓ} {A : Type ℓ} (key : A → ℕ) where
  pub get-update :
      (j k : ℕ) (f : A → A) (rs : List A)
      → ((r : A) → key (f r) ≡ key r)
      → get key j (update key k f rs)
        ≡ (if j == k then Option.map f (get key j rs) else get key j rs)
  unfolding get update
  get-update j k f [] h = ground arith
  get-update j k f (r ∷ rs) h = ground (arith, get-update j k f rs h, h r)

  pub update-IsKeyed :
      (k : ℕ) (f : A → A) (rs : List A)
      → ((r : A) → key (f r) ≡ key r)
      → IsKeyed key rs
      → IsKeyed key (update key k f rs)
  unfolding update
  update-IsKeyed k f [] h u = u
  update-IsKeyed k f (r ∷ rs) h u =
      ground (arith, update-IsKeyed k f rs h u.1, h r, get-update (key r) k f rs h)

  -- The row that was written, by a change that keeps the key.
  pub get-update_self :
      (k : ℕ) (f : A → A) (rs : List A)
      → ((r : A) → key r ≡ k → key (f r) ≡ k)
      → get key k (update key k f rs) ≡ Option.map f (get key k rs)
  unfolding get update
  get-update_self k f [] h = refl
  get-update_self k f (r ∷ rs) h = ground (arith, get-update_self k f rs h, h r)

  pub update_absent :
      (k : ℕ) (f : A → A) (rs : List A) → get key k rs ≡ none → update key k f rs ≡ rs
  unfolding get update
  update_absent k f [] h = refl
  update_absent k f (r ∷ rs) h = ground (arith, update_absent k f rs)

  -- The row that `get` finds has the key.
  pub get-key : (k : ℕ) (rs : List A) (r : A) → get key k rs ≡ some r → key r ≡ k
  unfolding get
  get-key k [] r h = cc
  get-key k (x ∷ rs) r h = ground (arith, get-key k rs r)

  -- A row further down is found past a row with another key.
  pub get-cons :
      (k : ℕ) (r x : A) (rs : List A)
      → get key (key r) rs ≡ none
      → get key k rs ≡ some x
      → get key k (r ∷ rs) ≡ some x
  unfolding get
  get-cons k r x rs u h = elim (Bool-cases (key r == k)) [
    | inl same ↦ let e : key r ≡ k = (==_iff (key r) k).0 same in absurd (clash (rw e at u))
    | inr other ↦ rw other h
  ]
    where
      clash : get key k rs ≡ none → ⊥
      clash v = cc

  -- Every row of a keyed table is the one that its key finds.
  pub get_self : (rs : List A) → IsKeyed key rs → All (λ r. get key (key r) rs ≡ some r) rs
  get_self [] u = tt
  get_self (r ∷ rs) u = (
    found,
    All-weaken (λ x. get key (key x) rs ≡ some x) _ rs (λ x h. get-cons (key x) r x rs u.0 h)
        (get_self rs u.1),
  )
    where
      found : get key (key r) (r ∷ rs) ≡ some r
      found = unfold get in ground arith

  pub get-filter-none :
      (p : A → Bool) (k : ℕ) (rs : List A) → get key k rs ≡ none → get key k (filter p rs) ≡ none
  unfolding get
  get-filter-none p k [] h = refl
  get-filter-none p k (r ∷ rs) h = ground (arith, get-filter-none p k rs)

  pub filter-IsKeyed : (p : A → Bool) (rs : List A) → IsKeyed key rs → IsKeyed key (filter p rs)
  filter-IsKeyed p [] u = tt
  filter-IsKeyed p (r ∷ rs) u = elim (Bool-cases (p r)) [
    | inl keep ↦ rw keep (get-filter-none p (key r) rs u.0, filter-IsKeyed p rs u.1)
    | inr drop ↦ rw drop (filter-IsKeyed p rs u.1)
  ]

  -- A filter keeps the rows that pass it.
  pub get-filter-some :
      (p : A → Bool) (k : ℕ) (rs : List A) (r : A)
      → IsKeyed key rs
      → get key k rs ≡ some r
      → p r ≡ true
      → get key k (filter p rs) ≡ some r
  unfolding get
  get-filter-some p k [] r u h t = cc
  get-filter-some p k (x ∷ rs) r u h t = ground (arith, get-filter-some p k rs r u.1)

  -- A row that a filter lets through is a row of the table, and passes.
  pub get-filter_sound :
      (p : A → Bool) (k : ℕ) (rs : List A) (r : A)
      → IsKeyed key rs
      → get key k (filter p rs) ≡ some r
      → (get key k rs ≡ some r) × (p r ≡ true)
  unfolding get
  get-filter_sound p k [] r u h = cc
  get-filter_sound p k (x ∷ rs) r u h = elim (Bool-cases (p x)) [
    | inl keep ↦ elim (Bool-cases (key x == k)) [
      | inl same ↦
          let row : x ≡ r = some_inj (rw (keep, same) at h) in
          (rw same (ap some row), subst (λ y. p y ≡ true) row keep)
      | inr other ↦
          let (found, passes) = get-filter_sound p k rs r u.1 (rw (keep, other) at h) in
          (rw other found, passes)
    ]
    | inr drop ↦
        let (found, passes) = get-filter_sound p k rs r u.1 (rw drop at h) in
        (get-cons k x r rs u.0 found, passes)
  ]

pub filter-All {ℓ κ} :
    {A : Type ℓ} (P : A → Type κ) (p : A → Bool) (rs : List A) → All P rs → All P (filter p rs)
filter-All P p [] h = tt
filter-All P p (r ∷ rs) h = elim (Bool-cases (p r)) [
  | inl keep ↦ rw keep (h.0, filter-All P p rs h.1)
  | inr drop ↦ rw drop (filter-All P p rs h.1)
]

pub filter-passes {ℓ} :
    {A : Type ℓ} (p : A → Bool) (rs : List A) → All (λ r. p r ≡ true) (filter p rs)
filter-passes p [] = tt
filter-passes p (r ∷ rs) = elim (Bool-cases (p r)) [
  | inl keep ↦ rw keep (keep, filter-passes p rs)
  | inr drop ↦ rw drop (filter-passes p rs)
]
