-- ===== src/Router/Targets.antt =====
-- The targets of a route policy that can serve a request: `_ordered_targets`, and the same test for
-- the fallback model in `select_route`, in api/app/services/providers/router.py. The dicts by id are
-- tables.
pub mod Laws
use llmxy.Prelude.{
  ℕ, ℤ, Option, none, some, List, [], ◌∷◌, String, Bool, if◌then◌else◌, ◌>>=◌, ◌&&◌,
}
use llmxy.Models.{Model, Channel, RouteStrategy}
use llmxy.Table

-- One entry of `targets_jsonb`.
pub record Target : Type 0 where
  pub model_id : ℕ
  pub weight : Option ℤ
  pub label : Option String

pub record RoutePolicy : Type 0 where
  pub id : ℕ
  pub strategy : RouteStrategy
  pub targets : List Target
  pub fallback_model_id : Option ℕ

abbrev pub model_key : Model → ℕ
model_key m = m.id

abbrev pub channel_key : Channel → ℕ
channel_key c = c.id

pub record Candidate : Type 0 where
  pub model : Model
  pub channel : Channel
  pub target : Target

-- The enabled model with the id, on its enabled channel.
unfoldable pub usable : List Model → List Channel → ℕ → Option (Model × Channel)
usable models channels id = do
  m ← Table.get model_key id models
  c ← Table.get channel_key m.channel_id channels
  (if m.enabled && c.enabled then some (m, c) else none)

unfoldable pub candidate : Target → Option (Model × Channel) → List Candidate → List Candidate
candidate t none rest = rest
candidate t (some (m, c)) rest = record { model = m; channel = c; target = t } ∷ rest

unfoldable pub ordered_targets : List Model → List Channel → List Target → List Candidate
unfolding usable candidate
ordered_targets models channels [] = []
ordered_targets models channels (t ∷ ts) =
    candidate t (usable models channels t.model_id) (ordered_targets models channels ts)
