-- ===== src/Rates/Laws.antt =====
-- How many requests pass in a minute, and which plan sets the limit.
use llmxy.Prelude.{
  ℕ, suc, zero, ◌+◌, ◌-◌, ◌≤◌, min, ℤ, pos, leb_ℤ, ◌≡◌, refl, ◌∙◌, ap, arith, Option, none, some,
  List, [], ◌∷◌, Bool, true, false, ◌==◌, if◌then◌else◌, Bool-cases, inl, inr, ◌⊎◌, All,
  Option-cases, All-weaken, is_some, ◌&&◌, ◌++◌, leb,
}
use llmxy.Datetime.{Datetime, stamp}
use llmxy.Models.{Plan, Subscription}
use llmxy.Table.{get}
use llmxy.Db.{Db, plan_id}
use llmxy.QuotaCache.Hydrate.{is_current}
use llmxy.Rates.{Counters, Counts, limit_of, rate_limit, joined, later_row, latest, user_rpm}

module _ {R : Type 0} (c : Counters R) where
  -- The number of requests that pass in a row of `k`.
  unfoldable pub passed : ℤ → ℕ → Option ℤ → ℕ → R → ℕ
  passed fallback uid per_min zero r = 0
  passed fallback uid per_min (suc k) r =
      let (ok, r') = rate_limit c fallback uid per_min r in
      let rest = passed fallback uid per_min k r' in if ok then 1 + rest else rest

  module _ (count : ℕ → R → ℕ) (doc : Counts c count) where
    count-rate_limit :
        (fallback : ℤ) (uid v : ℕ) (per_min : Option ℤ) (r : R)
        → count v (rate_limit c fallback uid per_min r).1
          ≡ (if uid == v then count v r + 1 else count v r)
    unfolding rate_limit
    count-rate_limit fallback uid v per_min r = elim (Bool-cases ((c.incr uid r).0 == 1)) [
      | inl first ↦ rw first (doc.count-expire uid v (c.incr uid r).1 ∙ doc.count-incr uid v r)
      | inr later ↦ rw later (doc.count-incr uid v r)
    ]

    answer-rate_limit :
        (fallback : ℤ) (uid : ℕ) (per_min : Option ℤ) (r : R)
        → (rate_limit c fallback uid per_min r).0
          ≡ leb_ℤ (pos (count uid r + 1)) (limit_of fallback per_min)
    unfolding rate_limit
    answer-rate_limit fallback uid per_min r =
        ap (λ n. leb_ℤ (pos n) (limit_of fallback per_min)) (doc.incr_reply uid r)

    -- A user whose counter stands at `n` sends `k` requests before it expires, and the limit in force
    -- is `limit`: the ones up to the limit pass and the others do not.
    pub passed_lem :
        (fallback : ℤ) (uid : ℕ) (per_min : Option ℤ) (limit k : ℕ) (r : R)
        → limit_of fallback per_min ≡ pos limit
        → passed fallback uid per_min k r ≡ min k (limit - count uid r)
    unfolding passed
    passed_lem fallback uid per_min limit zero r h = ground arith
    passed_lem fallback uid per_min limit (suc k) r h =
        let r' : R = (rate_limit c fallback uid per_min r).1 in
        let step = count-rate_limit fallback uid uid per_min r in
        let answer = answer-rate_limit fallback uid per_min r in
        rw (passed_lem fallback uid per_min limit k r' h, answer, h) (ground (arith, step))

-- A subscription that counts for the limit.
abbrev pub counts : Datetime → ℕ → List Plan → Subscription → Bool
counts now uid plans s = is_current uid now s && is_some (get plan_id s.plan_id plans)

-- No subscription counts.
abbrev pub NoneCounts : Datetime → ℕ → List Plan → List Subscription → Type 0
NoneCounts now uid plans ss = All (λ s. counts now uid plans s ≡ false) ss

-- A subscription of the list that counts, with its plan, and no other that counts ends later.
pub record Sets (now : Datetime) (uid : ℕ) (plans : List Plan) (ss : List Subscription)
    : Type 0 where
  pub before_it : List Subscription
  pub sub : Subscription
  pub after_it : List Subscription
  pub plan : Plan
  pub stands : ss ≡ before_it ++ sub ∷ after_it
  pub plan_found : get plan_id sub.plan_id plans ≡ some plan
  pub current : is_current uid now sub ≡ true
  pub last :
      All
        (λ t.
          (counts now uid plans t ≡ false)
          ⊎ (stamp t.current_period_end ≤ stamp sub.current_period_end))
        ss

module _ (now : Datetime) (uid : ℕ) (plans : List Plan) where
  abbrev best : List Subscription → Option (Datetime × Option ℤ)
  best ss = latest (joined now uid plans ss)

  abbrev Chosen : List Subscription → Type 0
  Chosen ss =
      ((best ss ≡ none) × NoneCounts now uid plans ss)
      ⊎ ((c : Sets now uid plans ss) × (best ss ≡ some (c.sub.current_period_end, c.plan.rpm)))

  -- The row in front does not count.
  skip :
      (s : Subscription) (ss : List Subscription)
      → counts now uid plans s ≡ false
      → best (s ∷ ss) ≡ best ss
      → Chosen ss
      → Chosen (s ∷ ss)
  skip s ss h e (inl (none_best, rest)) = inl (e ∙ none_best, (h, rest))
  skip s ss h e (inr (c, found)) = inr (
    record {
      before_it = s ∷ c.before_it;
      sub = c.sub;
      after_it = c.after_it;
      plan = c.plan;
      stands = ap (λ r. s ∷ r) c.stands;
      plan_found = c.plan_found;
      current = c.current;
      last = (inl h, c.last);
    },
    e ∙ found,
  )

  -- The row in front counts.
  take :
      (s : Subscription) (ss : List Subscription) (plan : Plan)
      → get plan_id s.plan_id plans ≡ some plan
      → is_current uid now s ≡ true
      → best (s ∷ ss) ≡ some (later_row (s.current_period_end, plan.rpm) (best ss))
      → Chosen ss
      → Chosen (s ∷ ss)
  take s ss plan p h e (inl (none_best, rest)) = inr (
    record {
      before_it = [];
      sub = s;
      after_it = ss;
      plan = plan;
      stands = refl;
      plan_found = p;
      current = h;
      last = (inr (omega arith), All-weaken _ _ ss (λ t n. inl n) rest);
    },
    e ∙ rw none_best refl,
  )
  take s ss plan p h e (inr (c, found)) =
      elim (Bool-cases (leb (stamp c.sub.current_period_end) (stamp s.current_period_end))) [
        | inl front ↦ inr (
          record {
            before_it = [];
            sub = s;
            after_it = ss;
            plan = plan;
            stands = refl;
            plan_found = p;
            current = h;
            last = (inr (omega arith), All-weaken _ _ ss (λ t n. earlier c.sub s t front n) c.last);
          },
          e ∙ rw (found, front) refl,
        )
        | inr back ↦ inr (
          record {
            before_it = s ∷ c.before_it;
            sub = c.sub;
            after_it = c.after_it;
            plan = c.plan;
            stands = ap (λ r. s ∷ r) c.stands;
            plan_found = c.plan_found;
            current = c.current;
            last = (inr (ground (arith, back)), c.last);
          },
          e ∙ rw (found, back) refl,
        )
      ]
    where
      earlier :
          (b s t : Subscription)
          → leb (stamp b.current_period_end) (stamp s.current_period_end) ≡ true
          → (counts now uid plans t ≡ false)
            ⊎ (stamp t.current_period_end ≤ stamp b.current_period_end)
          → (counts now uid plans t ≡ false)
            ⊎ (stamp t.current_period_end ≤ stamp s.current_period_end)
      earlier b s t h (inl n) = inl n
      earlier b s t h (inr l) = inr (ground (arith, h, l))

  latest-joined : (ss : List Subscription) → Chosen ss
  unfolding joined latest
  latest-joined [] = inl (refl, tt)
  latest-joined (s ∷ ss) = elim (Option-cases (get plan_id s.plan_id plans)) [
    | inl gone ↦ skip s ss (rw gone (ground arith)) (rw gone refl) (latest-joined ss)
    | inr (plan, p) ↦ elim (Bool-cases (is_current uid now s)) [
      | inl h ↦ take s ss plan p h (rw (p, h) refl) (latest-joined ss)
      | inr n ↦ skip s ss (rw n refl) (rw (p, n) refl) (latest-joined ss)
    ]
  ]

-- Either no current subscription of the user has a plan, and the limit is the default; or the limit
-- is that of the plan of such a subscription, none of which ends later, and the default if that plan
-- sets no positive limit.
pub user_rpm_lem :
    (fallback : ℤ) (now : Datetime) (db : Db) (uid : ℕ)
    → (NoneCounts now uid db.plans db.subscriptions × (user_rpm fallback now db uid ≡ fallback))
      ⊎ ((c : Sets now uid db.plans db.subscriptions) × (user_rpm fallback now db uid
            ≡ limit_of fallback c.plan.rpm))
unfolding user_rpm
user_rpm_lem fallback now db uid = elim (latest-joined now uid db.plans db.subscriptions) [
  | inl (e, n) ↦ inl (n, rw e refl)
  | inr (c, e) ↦ inr (c, rw e refl)
]
