-- ===== src/AccessLog/Examples.antt =====
-- The theorem on the buffers, applied to two nodes of which one is cleared.
use llmxy.Prelude.{min, [], ◌∷◌, ◌≡◌, refl, arith, List}
use llmxy.AccessLog.{max_lines_per_node, tail}
use llmxy.AccessLog.Laws.{recent, Call, appended, cleared, run, log_of, tail-run}

abbrev calls : List Call
calls =
    appended "a" "old"
    ∷ cleared "a"
    ∷ appended "b" "other"
    ∷ appended "a" "one"
    ∷ appended "a" "two"
    ∷ appended "a" "three"
    ∷ []

tail-run_example :
    tail "a" 2 (run calls []) ≡ recent (min 2 max_lines_per_node) (log_of "a" calls [])
tail-run_example = tail-run "a" 2 calls refl (omega arith)
