-- ===== src/Keys/Cached/Laws.antt =====
-- The check on a snapshot decides as the check on the row does.
use llmxy.Prelude.{
  ℕ, ◌≡◌, refl, arith, Option, none, some, Bool, false, Bool-cases, Option-cases, inl, inr, ◌⊎◌,
  is_some, ◌∙◌, ap,
}
use llmxy.Datetime.{Datetime}
use llmxy.Models.{ApiKey, QuotaPeriod}
use llmxy.Table.{get}
use llmxy.Db.{Db, key_id}
use llmxy.Keys.State.{Enforced, passed, unauthorized, enforce_key_state, is_expired, window_over}
use llmxy.Keys.State.Laws.{IsRow, enforce-expired, enforce-unchanged, enforce-rolled}
use llmxy.Snapshots.{ApiKeySnapshot, KeyCache, snapshot_from_row}
use llmxy.QuotaCache.Redis.{Redis}
use llmxy.Keys.Cached.{
  Answer, fresh, rejected, key_expired, needs_expire, needs_roll, row_over, roll_row, check_row,
  enforce_key_state_cached,
}

-- What a caller sees of the check on the row.
abbrev pub outcome : Option Enforced → Option (Db × Answer)
outcome none = none
outcome (some (passed db key)) = some (db, fresh (snapshot_from_row key))
outcome (some (unauthorized db key)) = some (db, rejected key_expired)

needs_roll-window_over :
    (now : Datetime) (key : ApiKey)
    → needs_roll now (snapshot_from_row key) ≡ is_some (window_over now key)
unfolding needs_roll snapshot_from_row window_over
needs_roll-window_over now key = ground arith

needs_expire-is_expired :
    (now : Datetime) (key : ApiKey) → needs_expire now (snapshot_from_row key) ≡ is_expired now key
unfolding needs_expire snapshot_from_row is_expired
needs_expire-is_expired now key = refl

found_again :
    (db : Db) (key : ApiKey)
    → IsRow db key
    → get key_id (snapshot_from_row key).id db.api_keys ≡ some key
unfolding snapshot_from_row
found_again db key h = h

row_over-window_over :
    (now : Datetime) (key : ApiKey) (pe : QuotaPeriod × Datetime)
    → window_over now key ≡ some pe
    → row_over now key ≡ some pe
unfolding row_over window_over
row_over-window_over now key pe h = ground arith

module _ {R : Type 0} (redis : Redis R) (timestamp : Datetime → ℕ) (raised : Bool) where
  -- On the snapshot of the key's row, the cached check leaves the database as the check on the row
  -- does and answers alike: the same refusal, or the snapshot of the key that the other returns.
  pub enforce_key_state_cached-enforce_key_state :
      (ticks : ℕ) (now : Datetime) (db : Db) (key : ApiKey) (c : KeyCache) (r : R)
      → IsRow db key
      → let check =
          enforce_key_state_cached redis timestamp raised ticks now db
            (snapshot_from_row key)
            c
            r in
        outcome (enforce_key_state now db key) ≡ some (check.db, check.answer)
  unfolding enforce_key_state_cached check_row roll_row
  enforce_key_state_cached-enforce_key_state ticks now db key c r h =
      let over = needs_roll-window_over now key in
      let late = needs_expire-is_expired now key in
      let found = found_again db key h in
      elim (Bool-cases (is_expired now key)) [
        | inl x ↦
            ap outcome (enforce-expired now db key h x) ∙ rw (late ∙ x, found, late ∙ x, x) refl
        | inr x ↦ elim (Option-cases (window_over now key)) [
          | inl o ↦
              ap outcome (enforce-unchanged now db key x o)
              ∙ rw (late ∙ x, over ∙ ap is_some o) refl
          | inr ((p, e), o) ↦
              ap outcome (enforce-rolled now db key p e h x o)
              ∙ rw
                  (
                    late ∙ x,
                    over ∙ ap is_some o,
                    found,
                    late ∙ x,
                    over ∙ ap is_some o,
                    row_over-window_over now key (p, e) o,
                  )
                  refl
        ]
      ]

  -- The snapshot may be stale. If the row that the check reads has neither expired nor a window that
  -- is over, the check changes no row and lets the request pass, with the snapshot or a fresh one.
  pub enforce_key_state_cached_stale :
      (ticks : ℕ) (now : Datetime) (db : Db) (snap : ApiKeySnapshot) (row : ApiKey) (c : KeyCache)
      (r : R)
      → get key_id snap.id db.api_keys ≡ some row
      → is_expired now row ≡ false
      → row_over now row ≡ none
      → let check = enforce_key_state_cached redis timestamp raised ticks now db snap c r in
        (check.db ≡ db)
        × ((check.answer ≡ fresh snap) ⊎ (check.answer ≡ fresh (snapshot_from_row row)))
  unfolding enforce_key_state_cached check_row roll_row
  enforce_key_state_cached_stale ticks now db snap row c r h x o =
      elim (Bool-cases (needs_expire now snap)) [
        | inl a ↦ elim (Bool-cases (needs_roll now snap)) [
          | inl b ↦ rw (a, h, a, x, b, o) (refl, inr refl)
          | inr b ↦ rw (a, h, a, x, b) (refl, inr refl)
        ]
        | inr a ↦ elim (Bool-cases (needs_roll now snap)) [
          | inl b ↦ rw (a, b, h, a, b, o) (refl, inr refl)
          | inr b ↦ rw (a, b) (refl, inl refl)
        ]
      ]
