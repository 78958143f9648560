-- ===== src/Router/Route.antt =====
-- The end of `select_route` of api/app/services/providers/router.py: the decision for the pick of
-- the policy's strategy, with the policy's fallback model behind it.
pub mod Laws
use llmxy.Prelude.{
  ℕ, ◌==◌, Option, none, some, List, [], ◌∷◌, ◌++◌, Bool, true, false, not, ◌&&◌, if◌then◌else◌,
  ◌>>=◌,
}
use llmxy.Models.{Model, Channel}
use llmxy.Router.Targets.{RoutePolicy, Candidate, usable}

pub record RouteDecision : Type 0 where
  pub model : Model
  pub channel : Channel
  pub fallback_chain : List (Model × Channel)

abbrev pub pair_of : Option Candidate → Option (Model × Channel)
pair_of none = none
pair_of (some p) = some (p.model, p.channel)

-- `not primary or int(fallback_model_id) != primary[0].id`
abbrev pub differs : ℕ → Option (Model × Channel) → Bool
differs id none = true
differs id (some (m, c)) = not (id == m.id)

-- The fallback, if the policy has one, it is not the pick itself, and it can serve.
unfoldable pub fallback_for :
    RoutePolicy → List Model → List Channel → Option (Model × Channel) → Option (Model × Channel)
unfolding usable
fallback_for policy models channels primary = do
  id ← policy.fallback_model_id
  (if not (id == 0) && differs id primary then usable models channels id else none)

abbrev pub as_list : Option (Model × Channel) → List (Model × Channel)
as_list none = []
as_list (some p) = p ∷ []

unfoldable pub decide : List (Model × Channel) → Option RouteDecision
decide [] = none
decide ((m, c) ∷ rest) = some (record { model = m; channel = c; fallback_chain = rest })

unfoldable pub decide_route :
    RoutePolicy → List Model → List Channel → Option (Model × Channel) → Option RouteDecision
unfolding fallback_for decide
decide_route policy models channels primary =
    decide (as_list primary ++ as_list (fallback_for policy models channels primary))
