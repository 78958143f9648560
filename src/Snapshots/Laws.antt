-- ===== src/Snapshots/Laws.antt =====
-- What a lookup through the snapshot cache returns.
use llmxy.Prelude.{
  ℕ, ◌+◌, ◌≤◌, ◌<◌, ◌≡◌, ◌↔◌, refl, arith, Option, none, some, List, [], ◌∷◌, true, Bool-cases, inl,
  inr, String, str_eq, eq_iff,
}
use llmxy.Db.{Db}
use llmxy.TtlCache
use llmxy.TtlCache.{Cache, Entry}
use llmxy.TtlCache.Lru.{get-set}
use llmxy.Snapshots.{
  ApiKeySnapshot, KeyCache, snapshot_of, find_by_hash, load_apikey, get_apikey_snapshot,
  invalidate_apikey,
}

str_lawful : (a b : String) → (str_eq a b ≡ true) ↔ (a ≡ b)
str_lawful a b = eq_iff a b

pub find-remove :
    (h : String) (es : List (Entry String (Option ApiKeySnapshot)))
    → TtlCache.find str_eq h (TtlCache.remove str_eq h es) ≡ none
unfolding TtlCache.find TtlCache.remove
find-remove h [] = refl
find-remove h (e ∷ es) = elim (Bool-cases (str_eq e.key h)) [
  | inl hit ↦ rw hit (find-remove h es)
  | inr other ↦ rw (other, other) (find-remove h es)
]

load-hit :
    (ticks : ℕ) (db : Db) (h : String) (g : Option (Option ApiKeySnapshot) × KeyCache)
    (v : Option ApiKeySnapshot)
    → g.0 ≡ some v
    → (load_apikey ticks db h g).0 ≡ v
unfolding load_apikey
load-hit ticks db h (some w, c) v e = ground arith
load-hit ticks db h (none, c) v e = cc

pub load-miss :
    (ticks : ℕ) (db : Db) (h : String) (g : Option (Option ApiKeySnapshot) × KeyCache)
    → g.0 ≡ none
    → load_apikey ticks db h g ≡ (
      snapshot_of (find_by_hash h db.api_keys),
      TtlCache.set str_eq ticks h (snapshot_of (find_by_hash h db.api_keys)) g.1,
    )
unfolding load_apikey
load-miss ticks db h (some w, c) e = cc
load-miss ticks db h (none, c) e = refl

invalidated :
    (ticks : ℕ) (h : String) (c : KeyCache)
    → (TtlCache.get str_eq ticks h (invalidate_apikey h c)).0 ≡ none
unfolding TtlCache.get TtlCache.read TtlCache.pop invalidate_apikey
invalidated ticks h c = rw (find-remove h c.entries) refl

-- In a cache that holds entries, a lookup after an invalidation answers from the database; until its
-- time to live is over, a second lookup gives the same answer, whatever the database holds by then.
-- The answer that there is no such key is kept as long as any other.
pub get_apikey_snapshot-invalidate_apikey :
    (ticks later : ℕ) (db db' : Db) (h : String) (c : KeyCache)
    → 1 ≤ c.maxsize
    → later < ticks + c.ttl
    → let first = get_apikey_snapshot ticks db h (invalidate_apikey h c) in
      (first.0 ≡ snapshot_of (find_by_hash h db.api_keys))
      × ((get_apikey_snapshot later db' h first.1).0 ≡ first.0)
unfolding get_apikey_snapshot
get_apikey_snapshot-invalidate_apikey ticks later db db' h c size soon =
    let answer = snapshot_of (find_by_hash h db.api_keys) in
    let asked = TtlCache.get str_eq ticks h (invalidate_apikey h c) in
    let missed = load-miss ticks db h asked (invalidated ticks h c) in
    let again =
      get-set str_eq str_lawful ticks later h answer asked.1
        (unfold TtlCache.get TtlCache.pop invalidate_apikey in size)
        (unfold TtlCache.get TtlCache.pop invalidate_apikey in soon) in
    rw missed (refl, load-hit later db' h _ answer again)
