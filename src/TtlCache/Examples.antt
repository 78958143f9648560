-- ===== src/TtlCache/Examples.antt =====
-- The cache on text keys, with room for two entries that live for 30 ticks.
use Prim.Native.String.{String}
use llmxy.Prelude.{ℕ, ◌<◌, ◌≡◌, ◌↔◌, refl, none, some, List, [], ◌∷◌, true, str_eq, eq_iff}
use llmxy.TtlCache.{find, read, get, set, pop, evict, remove, new_cache}
use llmxy.TtlCache.Refines.{Op, getting, setting, popping, apply_all, apply, last_set, get-last_set}

abbrev ops : List (Op String ℕ)
ops = setting 0 "a" 1 ∷ setting 1 "b" 2 ∷ getting 2 "a" ∷ setting 3 "c" 3 ∷ popping "x" ∷ []

lawful : (a b : String) → (str_eq a b ≡ true) ↔ (a ≡ b)
lawful a b = eq_iff a b

-- The third key drops "b", which was used less recently than "a".
ops_entries :
    (apply_all str_eq ops (new_cache 2 30)).entries
    ≡ record { key = "a"; expires_at = 30; value = 1 }
      ∷ record { key = "c"; expires_at = 33; value = 3 }
      ∷ []
unfolding apply_all apply get set pop read find remove evict new_cache
ops_entries = refl

ops_hit : (get str_eq 10 "a" (apply_all str_eq ops (new_cache 2 30))).0 ≡ some 1
unfolding apply_all apply get set pop read find remove evict new_cache
ops_hit = refl

get-last_set_example : (t : ℕ) × (last_set str_eq 30 "a" ops none ≡ some (t, 1)) × (10 < t)
get-last_set_example = get-last_set str_eq lawful 2 30 10 "a" ops 1 ops_hit
