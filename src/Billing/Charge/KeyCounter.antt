-- ===== src/Billing/Charge/KeyCounter.antt =====
-- The counter `used_cents` of an API key under `charge_user`.
use llmxy.Prelude.{ℕ, ℤ, ◌+ℤ◌, some, List, Bool, ◌≡◌, ◌≢◌, refl, arith, if◌then◌else◌, +ℤ_assoc}
use llmxy.Models.{ApiKey}
use llmxy.Table.{get, update}
use llmxy.Table.Laws.{get-update}
use llmxy.Db.{key_id}
use llmxy.Billing.Charge.{count_used, set_used, bump_used, mirrored}

-- A session holds the key's row as it stands in the table. Where the bulk UPDATE is not mirrored onto
-- the held object the row's counter grows by the cost, and where it is mirrored, by twice the cost;
-- no other key's row changes.
pub count_used_lem :
    (mirrors : Bool) (cost : ℤ) (key : ApiKey) (keys : List ApiKey)
    → get key_id key.id keys ≡ some key
    → let keys' = (count_used mirrors cost (some key) keys).1 in
      (get key_id key.id keys'
        ≡ some (set_used (key.used_cents +ℤ (if mirrors then cost +ℤ cost else cost)) key))
      × ((k : ℕ) → k ≢ key.id → get key_id k keys' ≡ get key_id k keys)
unfolding count_used
count_used_lem mirrors cost key keys g =
    let used = (mirrored mirrors (λ u. u +ℤ cost) key).used_cents +ℤ cost in
    let bump = λ (k : ApiKey). bump_used (λ u. u +ℤ cost) k in
    let keys1 = update key_id key.id bump keys in
    (
      ground (
        arith,
        get-update key_id key.id key.id (set_used used) keys1 (λ r. refl),
        get-update key_id key.id key.id bump keys (λ r. refl),
        +ℤ_assoc key.used_cents cost cost,
      ),
      λ k ne. ground (
        arith,
        get-update key_id k key.id (set_used used) keys1 (λ r. refl),
        get-update key_id k key.id bump keys (λ r. refl),
      ),
    )
