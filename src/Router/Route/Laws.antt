-- ===== src/Router/Route/Laws.antt =====
-- A decision names only models and channels that are enabled, and none is made only when nothing
-- can serve.
use mathlib.Core.Path.{subst}
use llmxy.Prelude.{
  All-append, length-append, ◌+◌, ℕ, ◌≡◌, refl, sym, ◌∙◌, arith, Option, none, some, List, [], ◌∷◌,
  ◌++◌, not, ◌&&◌, ◌==◌, if◌then◌else◌, >>=-eq-some, Option-cases, inl, inr, All, length, ◌≤◌,
  some_inj, ◌⊎◌,
}
use llmxy.Models.{Model, Channel}
use llmxy.Router.Targets.{RoutePolicy, Target, Candidate, usable, ordered_targets}
use llmxy.Router.Targets.Laws.{
  Serves, IsTarget, Listed, usable-Serves, ordered_targets-Listed, ordered_targets-none,
}
use llmxy.Router.Weighted.{weighted_pick}
use llmxy.Router.Weighted.Laws.{weighted_pick-All, weighted_pick-none}
use llmxy.Router.Route.{
  RouteDecision, pair_of, differs, fallback_for, as_list, decide, decide_route,
}

-- What a decision for the policy may name: a target or the fallback, enabled on an enabled channel.
pub record Allowed (policy : RoutePolicy) (models : List Model) (channels : List Channel)
    (m : Model) (c : Channel) : Type 0 where
  pub id : ℕ
  pub serves : Serves models channels id m c
  pub known :
      ((t : Target) × IsTarget t policy.targets × (t.model_id ≡ id))
      ⊎ (policy.fallback_model_id ≡ some id)

-- The first choice is allowed; behind it stands one other model at most, which is allowed too.
pub record Decision (policy : RoutePolicy) (models : List Model) (channels : List Channel)
    (d : RouteDecision) : Type 0 where
  pub first : Allowed policy models channels d.model d.channel
  pub chain : All (λ (p : Model × Channel). Allowed policy models channels p.0 p.1) d.fallback_chain
  pub short : length d.fallback_chain ≤ 1

fallback-Allowed :
    (policy : RoutePolicy) (models : List Model) (channels : List Channel)
    (primary : Option (Model × Channel)) (m : Model) (c : Channel)
    → fallback_for policy models channels primary ≡ some (m, c)
    → Allowed policy models channels m c
unfolding fallback_for
fallback-Allowed policy models channels primary m c h =
    let (id, has, h1) = >>=-eq-some policy.fallback_model_id _ h in
    record {
      id = id;
      serves = usable-Serves models channels id m c (guarded id h1);
      known = inr has;
    }
  where
    guarded :
        (id : ℕ)
        → (if not (id == 0) && differs id primary then usable models channels id else none)
          ≡ some (m, c)
        → usable models channels id ≡ some (m, c)
    guarded id h = ground arith

decide-some :
    (P : Model × Channel → Type 0) (chain : List (Model × Channel)) (d : RouteDecision)
    → All P chain
    → decide chain ≡ some d
    → P (d.model, d.channel) × All P d.fallback_chain × (length d.fallback_chain + 1 ≡ length chain)
unfolding decide
decide-some P [] d h e = absurd (clash e)
  where
    clash : none ≡ some d → ⊥
    clash v = cc
decide-some P ((m, c) ∷ rest) d h e = rw (← some_inj e) (h.0, h.1, (omega arith))

All-as_list :
    (P : Model × Channel → Type 0) (o : Option (Model × Channel))
    → ((m : Model) (c : Channel) → o ≡ some (m, c) → P (m, c))
    → All P (as_list o)
All-as_list P none h = tt
All-as_list P (some (m, c)) h = (h m c refl, tt)

length-as_list : (o : Option (Model × Channel)) → length (as_list o) ≤ 1
length-as_list none = omega arith
length-as_list (some p) = omega arith

decide-Decision :
    (policy : RoutePolicy) (models : List Model) (channels : List Channel)
    (primary : Option (Model × Channel)) (d : RouteDecision)
    → ((m : Model) (c : Channel) → primary ≡ some (m, c) → Allowed policy models channels m c)
    → decide_route policy models channels primary ≡ some d
    → Decision policy models channels d
unfolding decide_route
decide-Decision policy models channels primary d allowed h =
    let fallback = fallback_for policy models channels primary in
    let P : Model × Channel → Type 0 = λ p. Allowed policy models channels p.0 p.1 in
    let every =
      All-append P (as_list primary) (as_list fallback) (All-as_list P primary allowed)
        (All-as_list P fallback (fallback-Allowed policy models channels primary)) in
    let (first, chain, size) = decide-some P (as_list primary ++ as_list fallback) d every h in
    record {
      first = first;
      chain = chain;
      short = omega (
        arith,
        size,
        length-append (as_list primary) (as_list fallback),
        length-as_list primary,
        length-as_list fallback,
      );
    }

-- The weighted pick among the policy's candidates.
abbrev pub weighted_primary : ℕ → RoutePolicy → List Model → List Channel → Option (Model × Channel)
weighted_primary draw policy models channels =
    pair_of (weighted_pick draw (ordered_targets models channels policy.targets))

weighted-Allowed :
    (draw : ℕ) (policy : RoutePolicy) (models : List Model) (channels : List Channel) (m : Model)
    (c : Channel)
    → weighted_primary draw policy models channels ≡ some (m, c)
    → Allowed policy models channels m c
weighted-Allowed draw policy models channels m c h =
    let ps = ordered_targets models channels policy.targets in
    elim (Option-cases (weighted_pick draw ps)) [
      | inl missed ↦ absurd (clash (rw missed at h))
      | inr (p, picked) ↦
          let (serves, listed) =
            weighted_pick-All (Listed models channels policy.targets) draw ps p
              (ordered_targets-Listed models channels policy.targets) picked in
          subst (λ q. Allowed policy models channels q.0 q.1) (some_inj (rw picked at h))
            (record {
              id = p.target.model_id;
              serves = serves;
              known = inl (p.target, listed, refl);
            })
    ]
  where
    clash : {q : Model × Channel} → none ≡ some q → ⊥
    clash v = cc

-- With the weighted strategy, whatever number is drawn, a decision names an enabled model of one of
-- the policy's targets or its fallback, on that model's own enabled channel, and at most one further
-- model to fall back on, of which the same holds.
pub decide_route-Decision :
    (draw : ℕ) (policy : RoutePolicy) (models : List Model) (channels : List Channel)
    (d : RouteDecision)
    → decide_route policy models channels (weighted_primary draw policy models channels) ≡ some d
    → Decision policy models channels d
decide_route-Decision draw policy models channels d h =
    decide-Decision policy models channels (weighted_primary draw policy models channels) d
      (weighted-Allowed draw policy models channels) h

decide-none :
    (a b : Option (Model × Channel))
    → decide (as_list a ++ as_list b) ≡ none
    → (a ≡ none) × (b ≡ none)
unfolding decide
decide-none none none h = (refl, refl)
decide-none none (some b) h = cc
decide-none (some a) b h = cc

fallback_tried :
    (policy : RoutePolicy) (models : List Model) (channels : List Channel) (id : ℕ)
    → 1 ≤ id
    → policy.fallback_model_id ≡ some id
    → fallback_for policy models channels none ≡ usable models channels id
unfolding fallback_for
fallback_tried policy models channels id pos has = rw has (ground arith)

-- With the weighted strategy the router gives up only when no target of the policy can be served
-- and neither can its fallback, if there is one.
pub decide_route-none :
    (draw : ℕ) (policy : RoutePolicy) (models : List Model) (channels : List Channel)
    → decide_route policy models channels (weighted_primary draw policy models channels) ≡ none
    → All (λ t. usable models channels t.model_id ≡ none) policy.targets
      × ((id : ℕ) → 1 ≤ id → policy.fallback_model_id ≡ some id → usable models channels id ≡ none)
unfolding decide_route
decide_route-none draw policy models channels h =
    let ps = ordered_targets models channels policy.targets in
    let primary = weighted_primary draw policy models channels in
    let (no_pick, no_fallback) =
      decide-none primary (fallback_for policy models channels primary) h in
    (
      ordered_targets-none models channels policy.targets
          (weighted_pick-none draw ps (pair_of-none (weighted_pick draw ps) no_pick)),
      λ id pos has.
          sym (fallback_tried policy models channels id pos has) ∙ (rw no_pick at no_fallback),
    )
  where
    pair_of-none : (o : Option Candidate) → pair_of o ≡ none → o ≡ none
    pair_of-none none e = refl
    pair_of-none (some p) e = cc
