-- ===== src/Router/RoundRobin.antt =====
-- `_round_robin_pick` of api/app/services/providers/router.py. The reply of Redis's INCR is `none`
-- where the call fails or times out; the process's own cursors are a function of the policy's id.
pub mod Laws
use llmxy.Prelude.{
  ℕ, ◌+◌, ◌-◌, ◌%◌, ◌==◌, Option, none, some, List, [], ◌∷◌, length, get_elem?, member, true, false,
  if◌then◌else◌,
}
use llmxy.Models.{Model}
use llmxy.Router.Targets.{Candidate}

-- The first candidate of each model, beyond the models already seen.
unfoldable pub unique_pairs : List ℕ → List Candidate → List Candidate
unique_pairs seen [] = []
unique_pairs seen (p ∷ ps) = elim (member p.model.id seen) [
  | true ↦ unique_pairs seen ps
  | false ↦ p ∷ unique_pairs (p.model.id ∷ seen) ps
]

-- The cursor for this request, and the process's cursors after it.
unfoldable pub next_cursor : Option ℕ → ℕ → (ℕ → ℕ) → ℕ × (ℕ → ℕ)
next_cursor (some reply) id cursors = (reply - 1, cursors)
next_cursor none id cursors =
    (cursors id, λ other. if other == id then cursors id + 1 else cursors other)

unfoldable pub pick_at : Option ℕ → ℕ → (ℕ → ℕ) → List Candidate → Option Candidate × (ℕ → ℕ)
unfolding next_cursor
pick_at reply id cursors [] = (none, cursors)
pick_at reply id cursors (p ∷ ps) =
    let (cursor, cursors') = next_cursor reply id cursors in
    (get_elem? (p ∷ ps) (cursor % length (p ∷ ps)), cursors')

unfoldable pub round_robin_pick :
    Option ℕ → ℕ → (ℕ → ℕ) → List Candidate → Option Candidate × (ℕ → ℕ)
unfolding unique_pairs pick_at
round_robin_pick reply id cursors ps = pick_at reply id cursors (unique_pairs [] ps)
