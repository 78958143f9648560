-- ===== src/Keys/Sweep/Laws.antt =====
-- What a sweep leaves.
use llmxy.Prelude.{
  ℕ, ◌≡◌, refl, sym, ap, ◌∙◌, arith, Option, none, some, List, [], ◌∷◌, true, false, Bool-cases,
  inl, inr, if◌then◌else◌, filter, map, String, str_eq, eq_iff, All, some_inj,
}
use mathlib.Core.Option as Option
use mathlib.Core.Path.{subst}
use llmxy.Datetime.{Datetime}
use llmxy.Models.{ApiKey}
use llmxy.Table.{get}
use llmxy.Db.{Db, key_id}
use llmxy.TtlCache
use llmxy.TtlCache.{Entry}
use llmxy.Keys.State.{is_expired, expire}
use llmxy.Keys.Sweep.{hash_of, expire_due, invalidate_all, sweep, scan_once}
use llmxy.Snapshots.{
  ApiKeySnapshot, KeyCache, snapshot_of, snapshot_from_row, find_by_hash, get_apikey_snapshot,
  invalidate_apikey,
}
use llmxy.Snapshots.Laws.{find-remove, load-miss}

-- What the sweep makes of a row.
abbrev pub swept : Datetime → ApiKey → ApiKey
swept now key = if is_expired now key then expire key else key

abbrev pub AllLive : Datetime → List ApiKey → Type 0
AllLive now = All (λ key. is_expired now key ≡ false)

expire-not_expired : (now : Datetime) (key : ApiKey) → is_expired now (expire key) ≡ false
unfolding is_expired
expire-not_expired now key = refl

expire_due-AllLive : (now : Datetime) (ks : List ApiKey) → AllLive now (expire_due now ks)
unfolding expire_due
expire_due-AllLive now [] = tt
expire_due-AllLive now (k ∷ ks) = elim (Bool-cases (is_expired now k)) [
  | inl late ↦ rw late (expire-not_expired now k, expire_due-AllLive now ks)
  | inr live ↦ rw live (live, expire_due-AllLive now ks)
]

get-expire_due :
    (now : Datetime) (j : ℕ) (ks : List ApiKey)
    → get key_id j (expire_due now ks) ≡ Option.map (swept now) (get key_id j ks)
unfolding get expire_due
get-expire_due now j [] = refl
get-expire_due now j (k ∷ ks) = ground (arith, get-expire_due now j ks)

-- Nothing is due.
expire_due_none :
    (now : Datetime) (ks : List ApiKey) → filter (is_expired now) ks ≡ [] → expire_due now ks ≡ ks
unfolding expire_due
expire_due_none now [] h = refl
expire_due_none now (k ∷ ks) h = elim (Bool-cases (is_expired now k)) [
  | inl late ↦ absurd (clash (rw late at h))
  | inr live ↦ rw live (ap (λ r. k ∷ r) (expire_due_none now ks (rw live at h)))
]
  where
    clash : {xs : List ApiKey} → k ∷ xs ≡ [] → ⊥
    clash e = cc

map_nil : (ks : List ApiKey) → map hash_of ks ≡ [] → ks ≡ []
map_nil [] h = refl
map_nil (k ∷ ks) h = cc

-- Whether anything was due or not, the table is the one that the UPDATE leaves.
sweep-table :
    (now : Datetime) (db : Db) (c : KeyCache) (hs : List String)
    → (hs ≡ [] → expire_due now db.api_keys ≡ db.api_keys)
    → (sweep now db c hs).0.api_keys ≡ expire_due now db.api_keys
unfolding sweep
sweep-table now db c [] h = sym (h refl)
sweep-table now db c (x ∷ hs) h = refl

scan_once-table :
    (now : Datetime) (db : Db) (c : KeyCache)
    → (scan_once now db c).0.api_keys ≡ expire_due now db.api_keys
unfolding scan_once
scan_once-table now db c =
    sweep-table now db c _ (λ e. expire_due_none now db.api_keys (map_nil _ e))

-- After a sweep no key is due, so `enforce_key_state` expires none; a key that was due is expired
-- and otherwise as it was, and every other key is unchanged.
pub scan_once_lem :
    (now : Datetime) (db : Db) (c : KeyCache)
    → AllLive now (scan_once now db c).0.api_keys
      × ((j : ℕ)
          → get key_id j (scan_once now db c).0.api_keys
            ≡ Option.map (swept now) (get key_id j db.api_keys))
scan_once_lem now db c = (
  subst (AllLive now) (sym (scan_once-table now db c)) (expire_due-AllLive now db.api_keys),
  λ j. ap (get key_id j) (scan_once-table now db c) ∙ get-expire_due now j db.api_keys,
)

-- An eviction keeps what is absent absent.
find-remove_absent :
    (h j : String) (es : List (Entry String (Option ApiKeySnapshot)))
    → TtlCache.find str_eq h es ≡ none
    → TtlCache.find str_eq h (TtlCache.remove str_eq j es) ≡ none
unfolding TtlCache.find TtlCache.remove
find-remove_absent h j [] a = refl
find-remove_absent h j (e ∷ es) a = elim (Bool-cases (str_eq e.key h)) [
  | inl hit ↦ absurd (clash (rw hit at a))
  | inr other ↦ elim (Bool-cases (str_eq e.key j)) [
    | inl gone ↦ rw gone (find-remove_absent h j es (rw other at a))
    | inr kept ↦ rw (kept, other) (find-remove_absent h j es (rw other at a))
  ]
]
  where
    clash : some e ≡ none → ⊥
    clash x = cc

abbrev IsAbsent : String → KeyCache → Type 0
IsAbsent h c = TtlCache.find str_eq h c.entries ≡ none

invalidate_all-IsAbsent :
    (h : String) (hs : List String) (c : KeyCache) → IsAbsent h c → IsAbsent h (invalidate_all hs c)
unfolding invalidate_all invalidate_apikey TtlCache.pop
invalidate_all-IsAbsent h [] c a = a
invalidate_all-IsAbsent h (j ∷ hs) c a =
    invalidate_all-IsAbsent h hs (invalidate_apikey j c) (find-remove_absent h j c.entries a)

due-IsAbsent :
    (now : Datetime) (h : String) (key : ApiKey) (ks : List ApiKey) (c : KeyCache)
    → find_by_hash h ks ≡ some key
    → is_expired now key ≡ true
    → IsAbsent h (invalidate_all (map hash_of (filter (is_expired now) ks)) c)
unfolding find_by_hash invalidate_all invalidate_apikey TtlCache.pop
due-IsAbsent now h key [] c f x = cc
due-IsAbsent now h key (k ∷ ks) c f x = elim (Bool-cases (str_eq k.key_hash h)) [
  | inl same ↦
      let row : k ≡ key = some_inj (rw same at f) in
      let late : is_expired now k ≡ true = ap (is_expired now) row ∙ x in
      let id : k.key_hash ≡ h = (eq_iff k.key_hash h).0 same in
      rw late (
        invalidate_all-IsAbsent h (map hash_of (filter (is_expired now) ks))
          (invalidate_apikey k.key_hash c) (rw id (find-remove h c.entries)))
  | inr other ↦ elim (Bool-cases (is_expired now k)) [
    | inl late ↦
        rw late (due-IsAbsent now h key ks (invalidate_apikey k.key_hash c) (rw other at f) x)
    | inr live ↦ rw live (due-IsAbsent now h key ks c (rw other at f) x)
  ]
]

find_by_hash-expire_due :
    (now : Datetime) (h : String) (ks : List ApiKey)
    → find_by_hash h (expire_due now ks) ≡ Option.map (swept now) (find_by_hash h ks)
unfolding find_by_hash expire_due
find_by_hash-expire_due now h [] = refl
find_by_hash-expire_due now h (k ∷ ks) = elim (Bool-cases (is_expired now k)) [
  | inl late ↦ elim (Bool-cases (str_eq k.key_hash h)) [
    | inl hit ↦ rw (late, hit) (rw late refl)
    | inr other ↦ rw (late, other) (find_by_hash-expire_due now h ks)
  ]
  | inr live ↦ elim (Bool-cases (str_eq k.key_hash h)) [
    | inl hit ↦ rw (live, hit) (rw live refl)
    | inr other ↦ rw (live, other) (find_by_hash-expire_due now h ks)
  ]
]

absent_get :
    (ticks : ℕ) (h : String) (c : KeyCache)
    → IsAbsent h c
    → (TtlCache.get str_eq ticks h c).0 ≡ none
unfolding TtlCache.get TtlCache.read
absent_get ticks h c a = rw a refl

sweep-cache :
    (now : Datetime) (db : Db) (c : KeyCache) (hs : List String)
    → (sweep now db c hs).1 ≡ invalidate_all hs c
unfolding sweep
sweep-cache now db c [] = unfold invalidate_all in refl
sweep-cache now db c (h ∷ hs) = refl

-- The key that a hash names was due: after the sweep a lookup through the cache finds it expired.
pub scan_once-get_apikey_snapshot :
    (ticks : ℕ) (now : Datetime) (db : Db) (c : KeyCache) (h : String) (key : ApiKey)
    → find_by_hash h db.api_keys ≡ some key
    → is_expired now key ≡ true
    → let after = scan_once now db c in
      (get_apikey_snapshot ticks after.0 h after.1).0 ≡ some (snapshot_from_row (expire key))
unfolding get_apikey_snapshot
scan_once-get_apikey_snapshot ticks now db c h key f x =
    let after = scan_once now db c in
    let evicted : after.1 ≡ invalidate_all (map hash_of (filter (is_expired now) db.api_keys)) c =
      unfold scan_once in
      sweep-cache now db c (map hash_of (filter (is_expired now) db.api_keys)) in
    let absent : IsAbsent h after.1 =
      subst (IsAbsent h) (sym evicted) (due-IsAbsent now h key db.api_keys c f x) in
    let row : find_by_hash h after.0.api_keys ≡ some (expire key) =
      ap (find_by_hash h) (scan_once-table now db c)
      ∙ find_by_hash-expire_due now h db.api_keys
      ∙ rw (f, x) refl in
    ap (λ (p : Option ApiKeySnapshot × KeyCache). p.0)
      (load-miss ticks after.0 h (TtlCache.get str_eq ticks h after.1)
        (absent_get ticks h after.1 absent))
    ∙ ap snapshot_of row
