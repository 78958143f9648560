-- ===== src/Billing/Charge/Drain.antt =====
-- The loop of `charge_user` over the subscriptions.
pub mod Greedy
use llmxy.Prelude.{
  ℕ, ◌≤◌, ℤ, pos, ◌+ℤ◌, ◌-ℤ◌, ◌≤ℤ◌, leb_ℤ, min_ℤ, int_laws, +ℤ_parts, -ℤ_parts, eq_of_parts, none,
  some, List, [], ◌∷◌, ◌++◌, Bool, true, false, All, ◌≡◌, ◌≢◌, refl, arith, Bool-cases, inl, inr,
  ◌==◌, if◌then◌else◌, ap, pos_part, neg_part,
}
use llmxy.Models.{Subscription, Source, sub}
use llmxy.Table.{get, update, IsKeyed}
use llmxy.Table.Laws.{get-update, update-IsKeyed}
use llmxy.Db.{sub_id}
use llmxy.Db.Sums.{total, total-update, remaining_of, amount_of}
use llmxy.Billing.Charge.{Drained, drain, deduct, take_from}

-- The rows of the list stand in the table as they are, each once.
pub record StandsIn (ss table : List Subscription) : Type 0 where
  pub keyed : IsKeyed sub_id table
  pub distinct : IsKeyed sub_id ss
  pub found : All (λ s. get sub_id s.id table ≡ some s) ss

found-update :
    (k : ℕ) (f : Subscription → Subscription) (ss table : List Subscription)
    → ((s : Subscription) → (f s).id ≡ s.id)
    → get sub_id k ss ≡ none
    → All (λ s. get sub_id s.id table ≡ some s) ss
    → All (λ s. get sub_id s.id (update sub_id k f table) ≡ some s) ss
unfolding get
found-update k f [] table same h a = tt
found-update k f (s ∷ ss) table same h a = (
  ground (arith, get-update sub_id s.id k f table same),
  found-update k f ss table same (ground arith) a.1,
)

-- After the deduction from the first row the others stand in the table.
pub StandsIn-next :
    (s : Subscription) (ss table : List Subscription) (take : ℤ)
    → StandsIn (s ∷ ss) table
    → StandsIn ss (update sub_id s.id (take_from take) table)
StandsIn-next s ss table take h = record {
  keyed = update-IsKeyed sub_id s.id (take_from take) table (λ r. refl) h.keyed;
  distinct = h.distinct.1;
  found = found-update s.id (take_from take) ss table (λ r. refl) h.distinct.0 h.found.1;
}

abbrev pub paid : Drained → ℤ
paid d = total amount_of d.structured

abbrev pub HasCents : List Subscription → Type 0
HasCents = All (λ s. pos 1 ≤ℤ s.remaining_cents)

abbrev nothing : ℤ → List Subscription → Drained
nothing rem table = record { remaining = rem; table = table; structured = [] }

pub drain_stop :
    (ss : List Subscription) (rem : ℤ) (table : List Subscription)
    → leb_ℤ rem (pos 0) ≡ true
    → drain ss rem table ≡ nothing rem table
unfolding drain
drain_stop [] rem table h = refl
drain_stop (s ∷ ss) rem table h = ground arith

add_of_sub : (a b c t : ℤ) → a +ℤ b ≡ c -ℤ t → a +ℤ (t +ℤ b) ≡ c
add_of_sub a b c t e = omega (int_laws, ap pos_part e, ap neg_part e)

lost :
    (left paid mid r t all : ℤ)
    → left +ℤ paid ≡ mid
    → mid +ℤ r ≡ all +ℤ (r -ℤ t)
    → left +ℤ (t +ℤ paid) ≡ all
lost left paid mid r t all e f =
    omega (int_laws, ap pos_part e, ap neg_part e, ap pos_part f, ap neg_part f)

module _ (s : Subscription) (ss : List Subscription) (rem : ℤ) (table : List Subscription) where
  abbrev take : ℤ
  take = min_ℤ s.remaining_cents rem

  abbrev later : Drained
  later = drain ss (rem -ℤ take) (update sub_id s.id (take_from take) table)

  take_pos : pos 1 ≤ℤ s.remaining_cents → leb_ℤ rem (pos 0) ≡ false → leb_ℤ take (pos 0) ≡ false
  take_pos h r = ground arith

  pub drain_go :
      pos 1 ≤ℤ s.remaining_cents
      → leb_ℤ rem (pos 0) ≡ false
      → drain (s ∷ ss) rem table ≡ deduct s.id take later
  unfolding drain
  drain_go h r = ground (arith, take_pos h r)

-- What is left of the cost and what was deducted make the cost.
pub drain_remaining :
    (ss : List Subscription) (rem : ℤ) (table : List Subscription)
    → HasCents ss
    → (drain ss rem table).remaining +ℤ paid (drain ss rem table) ≡ rem
unfolding total
drain_remaining [] rem table a = unfold drain in omega int_laws
drain_remaining (s ∷ ss) rem table a = elim (Bool-cases (leb_ℤ rem (pos 0))) [
  | inl stop ↦ rw (drain_stop (s ∷ ss) rem table stop) (omega int_laws)
  | inr more ↦
      rw (drain_go s ss rem table a.0 more)
        (add_of_sub _ _ _ _ (drain_remaining ss _ (update sub_id s.id _ table) a.1))
]

-- The table loses exactly what was deducted, and its ids stay distinct.
pub total-drain :
    (ss : List Subscription) (rem : ℤ) (table : List Subscription)
    → HasCents ss
    → StandsIn ss table
    → total remaining_of (drain ss rem table).table +ℤ paid (drain ss rem table)
      ≡ total remaining_of table
unfolding total
total-drain [] rem table a h = unfold drain in omega int_laws
total-drain (s ∷ ss) rem table a h = elim (Bool-cases (leb_ℤ rem (pos 0))) [
  | inl stop ↦ rw (drain_stop (s ∷ ss) rem table stop) (omega int_laws)
  | inr more ↦
      let t : ℤ = min_ℤ s.remaining_cents rem in
      rw (drain_go s ss rem table a.0 more) (
        lost _ _ _ _ _ _
          (total-drain ss (rem -ℤ t) (update sub_id s.id (take_from t) table) a.1
            (StandsIn-next s ss table t h))
          (total-update sub_id remaining_of (take_from t) s.id table s h.keyed h.found.0))
]
