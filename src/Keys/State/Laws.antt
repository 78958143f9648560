-- ===== src/Keys/State/Laws.antt =====
-- What a request finds after `enforce_key_state`: an expired key is refused, and a periodic key that
-- goes on is in a window that has not ended.
use llmxy.Prelude.{
  ℕ, ◌≤◌, ◌⊎◌, ◌↔◌, Bool, Option, ◌≡◌, ◌≢◌, refl, arith, none, some, true, false, Bool-cases,
  Option-cases, inl, inr,
}
use llmxy.Datetime.{Datetime, stamp}
use llmxy.Models.{ApiKey, KeyStatus, key_active, QuotaPeriod}
use llmxy.Table.{get, update}
use llmxy.Table.Laws.{get-update}
use llmxy.Db.{Db, key_id}
use llmxy.Keys.Window.{roll_window}
use llmxy.Keys.State.{
  has_passed, is_expired, window_over, expire, start_window, commit_key, passed, unauthorized,
  enforce_window, enforce_key_state,
}

-- The object holds what the key's row holds.
abbrev pub IsRow : Db → ApiKey → Type 0
IsRow db key = get key_id key.id db.api_keys ≡ some key

-- The database `db'` differs from `db` in the row of the key at most, and `key'` is that row.
pub record Changed (db : Db) (key : ApiKey) (db' : Db) (key' : ApiKey) : Type 0 where
  pub row : IsRow db' key'
  pub same_id : key'.id ≡ key.id
  pub other_rows : (j : ℕ) → j ≢ key.id → get key_id j db'.api_keys ≡ get key_id j db.api_keys
  pub other_tables : db' ≡ record db { api_keys = db'.api_keys }

unchanged : (db : Db) (key : ApiKey) → IsRow db key → Changed db key db key
unchanged db key h = record {
  row = h;
  same_id = refl;
  other_rows = λ j d. refl;
  other_tables = refl;
}

abbrev pub written : (ApiKey → ApiKey) → Db → ApiKey → Db
written change db key = record db { api_keys = update key_id key.id change db.api_keys }

commit_key_lem :
    (change : ApiKey → ApiKey) (db : Db) (key : ApiKey)
    → IsRow db key
    → ((k : ApiKey) → (change k).id ≡ k.id)
    → (commit_key change db key ≡ some (written change db key, change key))
      × Changed db key (written change db key) (change key)
commit_key_lem change db key h keeps = (
  unfold commit_key in rw h refl,
  record {
    row = ground (arith, keeps key, get-update key_id key.id key.id change db.api_keys keeps);
    same_id = keeps key;
    other_rows = λ j d. ground (arith, get-update key_id j key.id change db.api_keys keeps);
    other_tables = refl;
  },
)

-- The three ways through the check.
pub enforce-expired :
    (now : Datetime) (db : Db) (key : ApiKey)
    → IsRow db key
    → is_expired now key ≡ true
    → enforce_key_state now db key ≡ some (unauthorized (written expire db key) (expire key))
enforce-expired now db key h x =
    unfold enforce_key_state in rw (x, (commit_key_lem expire db key h (λ k. refl)).0) refl

pub enforce-unchanged :
    (now : Datetime) (db : Db) (key : ApiKey)
    → is_expired now key ≡ false
    → window_over now key ≡ none
    → enforce_key_state now db key ≡ some (passed db key)
enforce-unchanged now db key x o =
    unfold enforce_key_state in rw (x, o) (unfold enforce_window in refl)

pub enforce-rolled :
    (now : Datetime) (db : Db) (key : ApiKey) (p : QuotaPeriod) (e : Datetime)
    → IsRow db key
    → is_expired now key ≡ false
    → window_over now key ≡ some (p, e)
    → let roll = start_window (roll_window now p e) in
      enforce_key_state now db key ≡ some (passed (written roll db key) (roll key))
enforce-rolled now db key p e h x o =
    let roll = start_window (roll_window now p e) in
    unfold enforce_key_state in
    rw (x, o) (unfold enforce_window in rw ((commit_key_lem roll db key h (λ k. refl)).0) refl)

-- An active key whose expiry has been reached.
pub record IsDue (now : Datetime) (key : ApiKey) : Type 0 where
  pub active : key.status ≡ KeyStatus.active
  pub expiry : Datetime
  pub has_expiry : key.expires_at ≡ some expiry
  pub reached : stamp expiry ≤ stamp now

key_active_iff : (s : KeyStatus) → (key_active s ≡ true) ↔ (s ≡ KeyStatus.active)
key_active_iff KeyStatus.active = (λ h. refl, λ h. refl)
key_active_iff KeyStatus.disabled = (λ h. cc, λ h. cc)
key_active_iff KeyStatus.expired = (λ h. cc, λ h. cc)

passed_by :
    (now : Datetime) (t : Option Datetime)
    → has_passed t now ≡ true
    → (expiry : Datetime) × (t ≡ some expiry) × (stamp expiry ≤ stamp now)
passed_by now none h = cc
passed_by now (some t) h = (t, refl, ground arith)

is_expired-IsDue : (now : Datetime) (key : ApiKey) → is_expired now key ≡ true → IsDue now key
unfolding is_expired
is_expired-IsDue now key h =
    let (t, has, early) = passed_by now key.expires_at (ground arith) in
    record {
      active = (key_active_iff key.status).0 (ground arith);
      expiry = t;
      has_expiry = has;
      reached = early;
    }

IsDue-is_expired : (now : Datetime) (key : ApiKey) → IsDue now key → is_expired now key ≡ true
unfolding is_expired
IsDue-is_expired now key d =
    let on = (key_active_iff key.status).1 d.active in
    let early = d.reached in rw (on, d.has_expiry) (ground arith)

not_both : (b : Bool) → b ≡ true → ¬ (b ≡ false)
not_both b h e = cc

-- The two ends of the check.
abbrev pub Refuses : Datetime → Db → ApiKey → Db → ApiKey → Type 0
Refuses now db key db' key' =
    IsDue now key
    × (enforce_key_state now db key ≡ some (unauthorized db' key'))
    × (key' ≡ record key { status = KeyStatus.expired })

abbrev pub Passes : Datetime → Db → ApiKey → Db → ApiKey → Type 0
Passes now db key db' key' =
    (¬ IsDue now key)
    × (enforce_key_state now db key ≡ some (passed db' key'))
    × (key'.status ≡ key.status)
    × (key'.expires_at ≡ key.expires_at)

-- If the object is the key's row, the check always returns. If the key is active and its expiry has
-- been reached, the request is refused and the key's status becomes expired, with nothing else of the
-- key changed; otherwise the request passes and the key keeps its status and its expiry. The
-- returned object is the row as committed, and no other row of a key and no other table changes.
pub enforce_key_state_lem :
    (now : Datetime) (db : Db) (key : ApiKey)
    → IsRow db key
    → (db' : Db) × (key' : ApiKey) × (Refuses now db key db' key' ⊎ Passes now db key db' key')
      × Changed db key db' key'
enforce_key_state_lem now db key h = elim (Bool-cases (is_expired now key)) [
  | inl x ↦ (
    written expire db key,
    expire key,
    inl (is_expired-IsDue now key x, enforce-expired now db key h x, refl),
    (commit_key_lem expire db key h (λ k. refl)).1,
  )
  | inr x ↦
      let alive : ¬ IsDue now key =
        λ d. not_both (is_expired now key) (IsDue-is_expired now key d) x in
      elim (Option-cases (window_over now key)) [
        | inl o ↦
            (db, key, inr (alive, enforce-unchanged now db key x o, refl, refl), unchanged db key h)
        | inr ((p, e), o) ↦
            let roll = start_window (roll_window now p e) in
            (
              written roll db key,
              roll key,
              inr (alive, enforce-rolled now db key p e h x o, refl, refl),
              (commit_key_lem roll db key h (λ k. refl)).1,
            )
      ]
]
