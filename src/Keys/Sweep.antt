-- ===== src/Keys/Sweep.antt =====
-- `_scan_once` of api/app/services/api_key_expiry.py, one pass of the sweep over idle keys. The two
-- statements of the pass have the WHERE clause that `is_expired` states; the evictions run in this
-- process as in each other one.
pub mod Laws
use llmxy.Prelude.{List, [], ◌∷◌, if◌then◌else◌, filter, map, String}
use llmxy.Datetime.{Datetime}
use llmxy.Models.{ApiKey}
use llmxy.Db.{Db}
use llmxy.Keys.State.{is_expired, expire}
use llmxy.Snapshots.{KeyCache, invalidate_apikey}

abbrev pub hash_of : ApiKey → String
hash_of key = key.key_hash

-- The bulk UPDATE.
unfoldable pub expire_due : Datetime → List ApiKey → List ApiKey
expire_due now [] = []
expire_due now (k ∷ ks) = (if is_expired now k then expire k else k) ∷ expire_due now ks

unfoldable pub invalidate_all : List String → KeyCache → KeyCache
invalidate_all [] c = c
invalidate_all (h ∷ hs) c = invalidate_all hs (invalidate_apikey h c)

-- Without a key that is due the function returns before the UPDATE.
unfoldable pub sweep : Datetime → Db → KeyCache → List String → Db × KeyCache
unfolding expire_due invalidate_all
sweep now db c [] = (db, c)
sweep now db c (h ∷ hs) =
    (record db { api_keys = expire_due now db.api_keys }, invalidate_all (h ∷ hs) c)

unfoldable pub scan_once : Datetime → Db → KeyCache → Db × KeyCache
unfolding sweep
scan_once now db c = sweep now db c (map hash_of (filter (is_expired now) db.api_keys))
