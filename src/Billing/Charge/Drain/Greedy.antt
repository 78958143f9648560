-- ===== src/Billing/Charge/Drain/Greedy.antt =====
-- How much the loop of `charge_user` takes, from whom and in which order.
use llmxy.Prelude.{
  ℕ, ℤ, pos, ◌+ℤ◌, ◌-ℤ◌, ◌≤ℤ◌, leb_ℤ, min_ℤ, none, some, +ℤ_parts, -ℤ_parts, eq_of_parts, List, [],
  ◌∷◌, ◌++◌, false, All, ◌≡◌, refl, arith, Bool-cases, inl, inr, ◌==◌, ==_iff,
}
use llmxy.Models.{Subscription, Breakdown}
use llmxy.Table.{get, update, IsKeyed}
use llmxy.Table.Laws.{get-update, update_absent}
use llmxy.Db.{sub_id}
use llmxy.Db.Sums.{total, remaining_of, amount_of}
use llmxy.Billing.Charge.{drain, take_from}
use llmxy.Billing.Charge.Drain.{StandsIn, StandsIn-next, HasCents, paid, drain_stop, drain_go}

held_nonneg : (ss : List Subscription) → HasCents ss → pos 0 ≤ℤ total remaining_of ss
unfolding total
held_nonneg [] a = omega arith
held_nonneg (s ∷ ss) a =
    omega (arith, +ℤ_parts s.remaining_cents (total remaining_of ss), held_nonneg ss a.1)

min_step :
    (r rem rest : ℤ)
    → pos 1 ≤ℤ r
    → leb_ℤ rem (pos 0) ≡ false
    → pos 0 ≤ℤ rest
    → min_ℤ r rem +ℤ min_ℤ (rem -ℤ min_ℤ r rem) rest ≡ min_ℤ rem (r +ℤ rest)
min_step r rem rest h p q =
    let t : ℤ = min_ℤ r rem in
    let u : ℤ = min_ℤ (rem -ℤ t) rest in
    eq_of_parts (t +ℤ u) (min_ℤ rem (r +ℤ rest))
      (ground (arith, +ℤ_parts t u, -ℤ_parts rem t, +ℤ_parts r rest))

-- The subscriptions pay the cost as far as they go.
pub drain_paid :
    (ss : List Subscription) (rem : ℤ) (table : List Subscription)
    → HasCents ss
    → pos 0 ≤ℤ rem
    → paid (drain ss rem table) ≡ min_ℤ rem (total remaining_of ss)
unfolding total
drain_paid [] rem table a h = unfold drain in ground arith
drain_paid (s ∷ ss) rem table a h = elim (Bool-cases (leb_ℤ rem (pos 0))) [
  | inl stop ↦
      let rest = held_nonneg ss a.1 in
      rw (drain_stop (s ∷ ss) rem table stop)
        (ground (arith, +ℤ_parts s.remaining_cents (total remaining_of ss), rest))
  | inr more ↦
      let t : ℤ = min_ℤ s.remaining_cents rem in
      let left : pos 0 ≤ℤ rem -ℤ t = ground (arith, -ℤ_parts rem t) in
      rw
        (
          drain_go s ss rem table a.0 more,
          drain_paid ss (rem -ℤ t) (update sub_id s.id (take_from t) table) a.1 left,
        )
        (min_step s.remaining_cents rem (total remaining_of ss) a.0 more (held_nonneg ss a.1))
]

-- Deductions are in the order of the list: those of a first part come first, and they are what the
-- loop takes if the list ends there.
pub drain_append :
    (xs ys : List Subscription) (rem : ℤ) (table : List Subscription)
    → HasCents (xs ++ ys)
    → let d = drain xs rem table in
      drain (xs ++ ys) rem table ≡ record (drain ys d.remaining d.table) {
        structured = d.structured ++ (drain ys d.remaining d.table).structured;
      }
drain_append [] ys rem table a = unfold drain in refl
drain_append (s ∷ ss) ys rem table a = elim (Bool-cases (leb_ℤ rem (pos 0))) [
  | inl stop ↦
      rw
        (
          drain_stop (s ∷ ss) rem table stop,
          drain_stop ((s ∷ ss) ++ ys) rem table stop,
          drain_stop ys rem table stop,
        )
        refl
  | inr more ↦
      let t : ℤ = min_ℤ s.remaining_cents rem in
      rw
        (
          drain_go s ss rem table a.0 more,
          drain_go s (ss ++ ys) rem table a.0 more,
          drain_append ss ys (rem -ℤ t) (update sub_id s.id (take_from t) table) a.1,
        )
        refl
]

abbrev pub IsPositive : Breakdown → Type 0
IsPositive = All (λ b. pos 1 ≤ℤ amount_of b)

pub drain-IsPositive :
    (ss : List Subscription) (rem : ℤ) (table : List Subscription)
    → HasCents ss
    → IsPositive (drain ss rem table).structured
drain-IsPositive [] rem table a = unfold drain in tt
drain-IsPositive (s ∷ ss) rem table a = elim (Bool-cases (leb_ℤ rem (pos 0))) [
  | inl stop ↦ rw (drain_stop (s ∷ ss) rem table stop) tt
  | inr more ↦
      let t : ℤ = min_ℤ s.remaining_cents rem in
      rw (drain_go s ss rem table a.0 more)
        (ground arith, drain-IsPositive ss (rem -ℤ t) (update sub_id s.id (take_from t) table) a.1)
]

-- A row that is not in the list is not touched.
pub drain_frame :
    (k : ℕ) (ss : List Subscription) (rem : ℤ) (table : List Subscription)
    → HasCents ss
    → get sub_id k ss ≡ none
    → get sub_id k (drain ss rem table).table ≡ get sub_id k table
drain_frame k [] rem table a h = unfold drain in refl
drain_frame k (s ∷ ss) rem table a h = elim (Bool-cases (leb_ℤ rem (pos 0))) [
  | inl stop ↦ rw (drain_stop (s ∷ ss) rem table stop) refl
  | inr more ↦
      let t : ℤ = min_ℤ s.remaining_cents rem in
      rw
        (
          drain_go s ss rem table a.0 more,
          drain_frame k ss (rem -ℤ t) (update sub_id s.id (take_from t) table) a.1
              (unfold get in ground arith),
        )
        (unfold get in ground (arith, get-update sub_id k s.id (take_from t) table (λ r. refl)))
]

abbrev pub NonNegative : List Subscription → Type 0
NonNegative = All (λ s. pos 0 ≤ℤ s.remaining_cents)

update-NonNegative :
    (s : Subscription) (t : ℤ) (table : List Subscription)
    → t ≤ℤ s.remaining_cents
    → get sub_id s.id table ≡ some s
    → IsKeyed sub_id table
    → NonNegative table
    → NonNegative (update sub_id s.id (take_from t) table)
unfolding get update
update-NonNegative s t [] le g u n = tt
update-NonNegative s t (x ∷ xs) le g u n = elim (Bool-cases (x.id == s.id)) [
  | inl same ↦
      let e : x.id ≡ s.id = (==_iff x.id s.id).0 same in
      let row : x ≡ s = ground arith in
      rw (same, update_absent sub_id s.id (take_from t) xs (rw (← e) u.0))
        (ground (arith, -ℤ_parts s.remaining_cents t), n.1)
  | inr other ↦ rw other (n.0, update-NonNegative s t xs le (ground arith) u.1 n.1)
]

-- No subscription is drained below zero.
pub drain-NonNegative :
    (ss : List Subscription) (rem : ℤ) (table : List Subscription)
    → HasCents ss
    → StandsIn ss table
    → NonNegative table
    → NonNegative (drain ss rem table).table
drain-NonNegative [] rem table a h n = unfold drain in n
drain-NonNegative (s ∷ ss) rem table a h n = elim (Bool-cases (leb_ℤ rem (pos 0))) [
  | inl stop ↦ rw (drain_stop (s ∷ ss) rem table stop) n
  | inr more ↦
      let t : ℤ = min_ℤ s.remaining_cents rem in
      rw (drain_go s ss rem table a.0 more) (
        drain-NonNegative ss (rem -ℤ t) (update sub_id s.id (take_from t) table) a.1
          (StandsIn-next s ss table t h)
          (update-NonNegative s t table (ground arith) h.found.0 h.keyed n))
]
