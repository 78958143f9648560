-- ===== src/Snapshots/Examples.antt =====
-- The snapshot of the sample key, looked up through an empty cache.
use llmxy.Prelude.{◌≡◌, arith, []}
use llmxy.Samples.{db}
use llmxy.Snapshots.{KeyCache, snapshot_of, find_by_hash, get_apikey_snapshot, invalidate_apikey}
use llmxy.Snapshots.Laws.{get_apikey_snapshot-invalidate_apikey}

abbrev cache : KeyCache
cache = record { entries = []; maxsize = 10_000; ttl = 30 }

get_apikey_snapshot-invalidate_apikey_example :
    let first = get_apikey_snapshot 100 db "h4" (invalidate_apikey "h4" cache) in
    (first.0 ≡ snapshot_of (find_by_hash "h4" db.api_keys))
    × ((get_apikey_snapshot 110 (record db { api_keys = [] }) "h4" first.1).0 ≡ first.0)
get_apikey_snapshot-invalidate_apikey_example =
    get_apikey_snapshot-invalidate_apikey 100 110 db (record db { api_keys = [] }) "h4" cache
      (omega arith) (omega arith)
