-- ===== src/Router/Weighted.antt =====
-- `_weighted_pick` of api/app/services/providers/router.py. `random.uniform(0, total)` is `total`
-- times a multiple of 2^-53 below 1, and `draw` is its value in units of 2^-53.
pub mod Laws
use llmxy.Prelude.{
  ℕ, ◌+◌, ◌*◌, ◌==◌, leb, ℤ, pos, negsuc, Option, none, some, List, [], ◌∷◌, or_else, true, false,
  last?,
}
use llmxy.Router.Targets.{Target, Candidate}

abbrev pub unit : ℕ
unit = 9_007_199_254_740_992

-- `max(int(t.get("weight", 1)), 0)`
unfoldable pub weight_of : Option ℤ → ℕ
weight_of none = 1
weight_of (some (pos n)) = n
weight_of (some (negsuc n)) = 0

unfoldable pub weight : Candidate → ℕ
unfolding weight_of
weight p = weight_of p.target.weight

unfoldable pub total_weight : List Candidate → ℕ
unfolding weight
total_weight [] = 0
total_weight (p ∷ ps) = weight p + total_weight ps

abbrev pub first? : List Candidate → Option Candidate
first? [] = none
first? (p ∷ ps) = some p

-- The loop over the candidates, from the weight accumulated so far.
unfoldable pub walk : ℕ → ℕ → List Candidate → Option Candidate
unfolding weight
walk draw accumulated [] = none
walk draw accumulated (p ∷ ps) = elim (leb draw ((accumulated + weight p) * unit)) [
  | true ↦ some p
  | false ↦ walk draw (accumulated + weight p) ps
]

-- The pick of the loop, and the last candidate where it ends without one.
unfoldable pub or_last : List Candidate → Option Candidate → Option Candidate
or_last ps none = last? ps
or_last ps (some p) = some p

unfoldable pub weighted_pick : ℕ → List Candidate → Option Candidate
unfolding total_weight walk or_last
weighted_pick draw ps = elim (total_weight ps == 0) [
  | true ↦ first? ps
  | false ↦ or_last ps (walk draw 0 ps)
]
