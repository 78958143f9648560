-- ===== src/Router/Examples.antt =====
-- Routing between three models, the second of which is disabled.
use llmxy.Prelude.{
  ℕ, ◌+◌, ◌*◌, ◌≤◌, ◌<◌, ◌≡◌, refl, arith, pos, none, some, List, [], ◌∷◌, All, length, true, false,
}
use llmxy.Models.{Model, Channel, RouteStrategy}
use llmxy.Samples.{gpt}
use llmxy.Table.{get, IsKeyed}
use llmxy.Router.Targets.{Target, RoutePolicy, Candidate, usable, candidate, ordered_targets}
use llmxy.Router.Weighted.{unit, weight, weight_of, total_weight, walk, or_last, weighted_pick}
use llmxy.Router.Weighted.Laws.{weighted_pick_lem}
use llmxy.Router.RoundRobin.Laws.{HasTurn, model_of, round_robin_pick-fair}
use llmxy.Router.Route.{RouteDecision, fallback_for, decide, decide_route}
use llmxy.Router.Route.Laws.{Decision, weighted_primary, decide_route-Decision, decide_route-none}

abbrev openai : Channel
openai = record {
  id = 1;
  provider_type = "openai";
  connector_type = "native";
  base_url = "https://api.openai.com";
  enabled = true;
}

abbrev off : Model
off = record gpt { id = 2; enabled = false }

abbrev mini : Model
mini = record gpt { id = 3 }

abbrev models : List Model
models = gpt ∷ off ∷ mini ∷ []

abbrev channels : List Channel
channels = openai ∷ []

abbrev target : ℕ → ℕ → Target
target id n = record { model_id = id; weight = some (pos n); label = none }

abbrev policy : RoutePolicy
policy = record {
  id = 5;
  strategy = RouteStrategy.weighted;
  targets = target 1 1 ∷ target 2 7 ∷ target 3 2 ∷ [];
  fallback_model_id = some 3;
}

abbrev to_gpt : Candidate
to_gpt = record { model = gpt; channel = openai; target = target 1 1 }

abbrev to_mini : Candidate
to_mini = record { model = mini; channel = openai; target = target 3 2 }

candidates : ordered_targets models channels policy.targets ≡ to_gpt ∷ to_mini ∷ []
unfolding ordered_targets usable candidate get
candidates = refl

weighted_pick_lem_example : weighted_pick (unit + 1) (to_gpt ∷ to_mini ∷ []) ≡ some to_mini
weighted_pick_lem_example = weighted_pick_lem (unit + 1) (to_gpt ∷ []) to_mini [] after_gpt in_mini
  where
    after_gpt : total_weight (to_gpt ∷ []) * unit < unit + 1
    after_gpt = unfold total_weight weight weight_of in omega arith

    in_mini : unit + 1 ≤ (total_weight (to_gpt ∷ []) + weight to_mini) * unit
    in_mini = unfold total_weight weight weight_of in omega arith

round_robin_pick-fair_example :
    (us : List Candidate) × IsKeyed model_of us
    × ((k : ℕ) → get model_of k us ≡ get model_of k (to_gpt ∷ to_mini ∷ to_gpt ∷ []))
    × ((k : ℕ) (p : Candidate)
        → get model_of k (to_gpt ∷ to_mini ∷ to_gpt ∷ []) ≡ some p
        → HasTurn 7 5 (λ k. 4) (to_gpt ∷ to_mini ∷ to_gpt ∷ []) (length us) p)
round_robin_pick-fair_example = round_robin_pick-fair 7 5 (λ k. 4) (to_gpt ∷ to_mini ∷ to_gpt ∷ [])

abbrev decision : RouteDecision
decision = record { model = gpt; channel = openai; fallback_chain = (mini, openai) ∷ [] }

decided :
    decide_route policy models channels (weighted_primary 3 policy models channels) ≡ some decision
unfolding decide_route decide fallback_for weighted_pick walk or_last total_weight ordered_targets
    usable candidate get weight weight_of
decided = refl

decide_route-Decision_example : Decision policy models channels decision
decide_route-Decision_example = decide_route-Decision 3 policy models channels decision decided

abbrev stale : RoutePolicy
stale = record policy { targets = target 2 7 ∷ []; fallback_model_id = some 9 }

given_up : decide_route stale models channels (weighted_primary 3 stale models channels) ≡ none
unfolding decide_route decide fallback_for weighted_pick walk or_last total_weight ordered_targets
    usable candidate get weight weight_of
given_up = refl

decide_route-none_example :
    All (λ t. usable models channels t.model_id ≡ none) stale.targets
    × ((id : ℕ) → 1 ≤ id → stale.fallback_model_id ≡ some id → usable models channels id ≡ none)
decide_route-none_example = decide_route-none 3 stale models channels given_up
