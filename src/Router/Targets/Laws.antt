-- ===== src/Router/Targets/Laws.antt =====
-- Every candidate is enabled, and stands for a target of the policy.
use llmxy.Prelude.{
  ℕ, ◌≡◌, refl, Option, none, some, List, [], ◌∷◌, true, All, All-weaken, Option-cases, inl, inr,
  ◌⊎◌, >>=-eq-some, if◌then◌else◌, ◌&&◌, arith,
}
use llmxy.Models.{Model, Channel}
use llmxy.Table.{get}
use llmxy.Router.Targets.{
  Target, Candidate, model_key, channel_key, usable, candidate, ordered_targets,
}

-- Both are enabled rows, the channel is the model's own, and the model has the id.
pub record Serves (models : List Model) (channels : List Channel) (id : ℕ) (m : Model) (c : Channel)
    : Type 0 where
  pub model_row : get model_key id models ≡ some m
  pub channel_row : get channel_key m.channel_id channels ≡ some c
  pub model_enabled : m.enabled ≡ true
  pub channel_enabled : c.enabled ≡ true

-- Membership in the policy's list of targets.
abbrev pub IsTarget : Target → List Target → Type 0
IsTarget t [] = ⊥
IsTarget t (u ∷ us) = (t ≡ u) ⊎ IsTarget t us

if_enabled :
    (m n : Model) (c d : Channel)
    → if◌then◌else◌ {A = Option (Model × Channel)} (m.enabled && c.enabled) (some (m, c)) none
      ≡ some (n, d)
    → (m.enabled ≡ true) × (c.enabled ≡ true) × (m ≡ n) × (c ≡ d)
if_enabled m n c d h = ground arith

pub usable-Serves :
    (models : List Model) (channels : List Channel) (id : ℕ) (m : Model) (c : Channel)
    → usable models channels id ≡ some (m, c)
    → Serves models channels id m c
unfolding usable
usable-Serves models channels id m c h =
    let (n, model_row, h1) = >>=-eq-some (get model_key id models) _ h in
    let (d, channel_row, h2) = >>=-eq-some (get channel_key n.channel_id channels) _ h1 in
    let (on_m, on_c, same_m, same_c) = if_enabled n m d c h2 in
    rw (← same_m, ← same_c)
      (record {
        model_row = model_row;
        channel_row = channel_row;
        model_enabled = on_m;
        channel_enabled = on_c;
      })

pub Serves-usable :
    (models : List Model) (channels : List Channel) (id : ℕ) (m : Model) (c : Channel)
    → Serves models channels id m c
    → usable models channels id ≡ some (m, c)
unfolding usable
Serves-usable models channels id m c s =
    rw (s.model_row, s.channel_row, s.model_enabled, s.channel_enabled) refl

-- A candidate serves its target, which the policy lists.
abbrev pub Listed : List Model → List Channel → List Target → Candidate → Type 0
Listed models channels ts p =
    Serves models channels p.target.model_id p.model p.channel × IsTarget p.target ts

pub ordered_targets-Listed :
    (models : List Model) (channels : List Channel) (ts : List Target)
    → All (Listed models channels ts) (ordered_targets models channels ts)
unfolding ordered_targets
ordered_targets-Listed models channels [] = tt
ordered_targets-Listed models channels (t ∷ ts) =
    let rest =
      All-weaken _ (Listed models channels (t ∷ ts)) (ordered_targets models channels ts)
        (λ p h. (h.0, inr h.1)) (ordered_targets-Listed models channels ts) in
    elim (Option-cases (usable models channels t.model_id)) [
      | inl gone ↦ rw gone (unfold candidate in rest)
      | inr ((m, c), there) ↦ rw there (
          unfold candidate in
          ((usable-Serves models channels t.model_id m c there, inl refl), rest))
    ]

-- A target that can be served has a candidate.
pub ordered_targets-none :
    (models : List Model) (channels : List Channel) (ts : List Target)
    → ordered_targets models channels ts ≡ []
    → All (λ t. usable models channels t.model_id ≡ none) ts
unfolding ordered_targets
ordered_targets-none models channels [] h = tt
ordered_targets-none models channels (t ∷ ts) h =
    elim (Option-cases (usable models channels t.model_id)) [
      | inl gone ↦
          (gone, ordered_targets-none models channels ts (unfold candidate in rw gone at h))
      | inr ((m, c), there) ↦ absurd (clash (unfold candidate in rw there at h))
    ]
  where
    clash : {p : Candidate} {ps : List Candidate} → p ∷ ps ≡ [] → ⊥
    clash v = cc
