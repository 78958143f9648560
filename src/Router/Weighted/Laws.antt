-- ===== src/Router/Weighted/Laws.antt =====
-- Each candidate is picked for the part of the draws that its weight is of the total.
use mathlib.Core.Path.{subst}
use llmxy.Prelude.{
  ℕ, ◌+◌, ◌*◌, ◌≤◌, ◌<◌, ◌≡◌, ◌==◌, leb, refl, arith, Option, none, some, List, [], ◌∷◌, ◌++◌,
  Bool-cases, inl, inr, All, last?, ◌⊎◌, sym, ◌∙◌, some_inj, Option-cases, if◌then◌else◌,
}
use llmxy.Router.Targets.{Candidate}
use llmxy.Router.Weighted.{unit, weight, total_weight, first?, walk, or_last, weighted_pick}

walk_go :
    (draw acc : ℕ) (p : Candidate) (ps : List Candidate)
    → walk draw acc (p ∷ ps)
      ≡ (if leb draw ((acc + weight p) * unit) then some p else walk draw (acc + weight p) ps)
unfolding walk
walk_go draw acc p ps = ground arith

walk_step :
    (draw acc : ℕ) (p : Candidate) (ps : List Candidate)
    → ((draw ≤ (acc + weight p) * unit) × (walk draw acc (p ∷ ps) ≡ some p))
      ⊎ (((acc + weight p) * unit < draw)
          × (walk draw acc (p ∷ ps) ≡ walk draw (acc + weight p) ps))
walk_step draw acc p ps = elim (Bool-cases (leb draw ((acc + weight p) * unit))) [
  | inl stop ↦ inl (ground (arith, stop), rw (walk_go draw acc p ps, stop) refl)
  | inr go ↦ inr (ground (arith, go), rw (walk_go draw acc p ps, go) refl)
]

walk_share :
    (draw acc : ℕ) (front : List Candidate) (p : Candidate) (back : List Candidate)
    → (acc + total_weight front) * unit < draw
    → draw ≤ (acc + total_weight front + weight p) * unit
    → walk draw acc (front ++ p ∷ back) ≡ some p
unfolding total_weight
walk_share draw acc [] p back lo hi = elim (walk_step draw acc p back) [
  | inl (stop, e) ↦ e
  | inr (go, e) ↦ absurd (omega arith)
]
walk_share draw acc (q ∷ front) p back lo hi = elim (walk_step draw acc q (front ++ p ∷ back)) [
  | inl (stop, e) ↦ absurd (omega arith)
  | inr (go, e) ↦ e ∙ walk_share draw (acc + weight q) front p back (omega arith) (omega arith)
]

total_weight-append :
    (ps qs : List Candidate) → total_weight (ps ++ qs) ≡ total_weight ps + total_weight qs
unfolding total_weight
total_weight-append [] qs = omega arith
total_weight-append (p ∷ ps) qs = omega (arith, total_weight-append ps qs)

pick_go :
    (draw : ℕ) (ps : List Candidate)
    → 1 ≤ total_weight ps
    → weighted_pick draw ps ≡ or_last ps (walk draw 0 ps)
unfolding weighted_pick
pick_go draw ps h = ground arith

pick_first :
    (draw : ℕ) (ps : List Candidate) → total_weight ps ≡ 0 → weighted_pick draw ps ≡ first? ps
unfolding weighted_pick
pick_first draw ps h = ground arith

-- The pick is the candidate in whose stretch of the total weight the draw falls: after the weights
-- of the candidates before it, and up to its own. So a candidate is picked for `weight p * unit` of
-- the `total * unit` positive draws, and one of weight 0 for none of them.
pub weighted_pick_lem :
    (draw : ℕ) (front : List Candidate) (p : Candidate) (back : List Candidate)
    → total_weight front * unit < draw
    → draw ≤ (total_weight front + weight p) * unit
    → weighted_pick draw (front ++ p ∷ back) ≡ some p
weighted_pick_lem draw front p back lo hi =
    let sum = total_weight-append front (p ∷ back) in
    pick_go draw (front ++ p ∷ back) (unfold total_weight in omega (arith, sum, lo, hi))
    ∙ rw (walk_share draw 0 front p back (omega (arith, lo)) (omega (arith, hi)))
        (unfold or_last in refl)

first?-All :
    (P : Candidate → Type 0) (ps : List Candidate) (p : Candidate)
    → All P ps
    → first? ps ≡ some p
    → P p
first?-All P [] p h e = cc
first?-All P (q ∷ ps) p h e = subst P (some_inj e) h.0

last?-All :
    (P : Candidate → Type 0) (ps : List Candidate) (p : Candidate)
    → All P ps
    → last? ps ≡ some p
    → P p
last?-All P [] p h e = cc
last?-All P (q ∷ []) p h e = subst P (some_inj e) h.0
last?-All P (q ∷ r ∷ ps) p h e = last?-All P (r ∷ ps) p h.1 e

walk-All :
    (P : Candidate → Type 0) (draw acc : ℕ) (ps : List Candidate) (p : Candidate)
    → All P ps
    → walk draw acc ps ≡ some p
    → P p
walk-All P draw acc [] p h e = unfold walk in cc
walk-All P draw acc (q ∷ ps) p h e = elim (walk_step draw acc q ps) [
  | inl (stop, f) ↦ subst P (some_inj (sym f ∙ e)) h.0
  | inr (go, f) ↦ walk-All P draw (acc + weight q) ps p h.1 (sym f ∙ e)
]

-- Whatever holds of every candidate holds of the pick.
pub weighted_pick-All :
    (P : Candidate → Type 0) (draw : ℕ) (ps : List Candidate) (p : Candidate)
    → All P ps
    → weighted_pick draw ps ≡ some p
    → P p
weighted_pick-All P draw ps p h e = elim (Bool-cases (total_weight ps == 0)) [
  | inl zero ↦ first?-All P ps p h (sym (pick_first draw ps (ground (arith, zero))) ∙ e)
  | inr positive ↦
      let picked = sym (pick_go draw ps (ground (arith, positive))) ∙ e in
      elim (Option-cases (walk draw 0 ps)) [
        | inl missed ↦ last?-All P ps p h (unfold or_last in rw missed at picked)
        | inr (q, found) ↦ walk-All P draw 0 ps p h (found ∙ (unfold or_last in rw found at picked))
      ]
]

last?-none : (ps : List Candidate) → last? ps ≡ none → ps ≡ []
last?-none [] e = refl
last?-none (p ∷ []) e = cc
last?-none (p ∷ q ∷ ps) e = absurd (clash (last?-none (q ∷ ps) e))
  where
    clash : q ∷ ps ≡ [] → ⊥
    clash v = cc

or_last-none : (ps : List Candidate) (o : Option Candidate) → or_last ps o ≡ none → last? ps ≡ none
unfolding or_last
or_last-none ps none e = e
or_last-none ps (some p) e = cc

-- Only an empty list of candidates gives no pick.
pub weighted_pick-none : (draw : ℕ) (ps : List Candidate) → weighted_pick draw ps ≡ none → ps ≡ []
weighted_pick-none draw [] e = refl
weighted_pick-none draw (p ∷ ps) e = elim (Bool-cases (total_weight (p ∷ ps) == 0)) [
  | inl zero ↦ absurd (clash (sym (pick_first draw (p ∷ ps) (ground (arith, zero))) ∙ e))
  | inr positive ↦ last?-none (p ∷ ps) (
      or_last-none (p ∷ ps) (walk draw 0 (p ∷ ps))
        (sym (pick_go draw (p ∷ ps) (ground (arith, positive))) ∙ e))
]
  where
    clash : some p ≡ none → ⊥
    clash v = cc
