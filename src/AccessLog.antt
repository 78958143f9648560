-- ===== src/AccessLog.antt =====
-- api/app/services/envoy/access_log_buffer.py: the last lines of each node's access log. A dictionary
-- is an association list; the lock is left out, so the calls are a sequence.
pub mod Laws
mod Examples
use llmxy.Prelude.{
  ℕ, zero, suc, ◌-◌, Option, none, some, List, [], ◌∷◌, ◌++◌, Bool, length, ltb, leb, if◌then◌else◌,
  String, str_eq,
}

abbrev pub max_lines_per_node : ℕ
max_lines_per_node = 500

abbrev pub Buffers : Type 0
Buffers = List (String × List String)

unfoldable pub find : String → Buffers → Option (List String)
find id [] = none
find id ((k, buf) ∷ rest) = let found = find id rest in if str_eq id k then some buf else found

-- A write to the entry of the node, which is added if it is not there.
unfoldable pub put : String → List String → Buffers → Buffers
put id buf [] = (id, buf) ∷ []
put id buf ((k, old) ∷ rest) =
    let others = put id buf rest in if str_eq id k then (k, buf) ∷ rest else (k, old) ∷ others

-- A deque of length at most `maxlen` drops its oldest line.
unfoldable pub drop_extra : ℕ → List String → List String
drop_extra maxlen [] = []
drop_extra maxlen (x ∷ xs) = if ltb maxlen (suc (length xs)) then xs else x ∷ xs

unfoldable pub push : ℕ → String → List String → List String
unfolding drop_extra
push maxlen line buf = drop_extra maxlen (buf ++ (line ∷ []))

abbrev pub lines_of : Option (List String) → List String
lines_of none = []
lines_of (some buf) = buf

unfoldable pub append : String → String → Buffers → Buffers
unfolding find put push
append node_id line bs =
    if str_eq node_id ""
    then bs
    else put node_id (push max_lines_per_node line (lines_of (find node_id bs))) bs

unfoldable pub drop : ℕ → List String → List String
drop zero xs = xs
drop (suc n) [] = []
drop (suc n) (x ∷ xs) = drop n xs

-- `xs[-n:]`, which is the whole list for 0
unfoldable pub slice_last : ℕ → List String → List String
unfolding drop
slice_last zero xs = xs
slice_last (suc n) xs = drop (length xs - suc n) xs

unfoldable pub tail : String → ℕ → Buffers → List String
unfolding find slice_last
tail node_id n bs =
    let buf = lines_of (find node_id bs) in if leb (length buf) n then buf else slice_last n buf

unfoldable pub clear : String → Buffers → Buffers
clear node_id [] = []
clear node_id ((k, buf) ∷ rest) =
    let others = clear node_id rest in if str_eq node_id k then others else (k, buf) ∷ others
