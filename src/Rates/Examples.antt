-- ===== src/Rates/Examples.antt =====
-- The rate limit with counters in memory, and the limit of Alice's plan.
use llmxy.Prelude.{ℕ, ◌+◌, ◌-◌, min, pos, ◌≡◌, refl, some, ◌==◌, if◌then◌else◌}
use llmxy.Rates.{Counters, Counts}
use llmxy.Rates.Laws.{passed, passed_lem}

abbrev tallies : Counters (ℕ → ℕ)
tallies = record {
  incr = λ u r. (r u + 1, λ v. if u == v then r v + 1 else r v);
  expire = λ u r. r;
}

tallies-Counts : Counts tallies (λ u r. r u)
tallies-Counts = record {
  incr_reply = λ u r. refl;
  count-incr = λ u v r. refl;
  count-expire = λ u v r. refl;
}

passed_lem_example : passed tallies (pos 60) 1 (some (pos 3)) 5 (λ u. 1) ≡ min 5 (3 - 1)
passed_lem_example =
    passed_lem tallies (λ u r. r u) tallies-Counts (pos 60) 1 (some (pos 3)) 3 5 (λ u. 1) refl
