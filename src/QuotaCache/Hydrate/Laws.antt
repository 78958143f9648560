-- ===== src/QuotaCache/Hydrate/Laws.antt =====
-- A hydration makes Redis hold what the database holds.
use mathlib.Core.Path.{subst}
use llmxy.Prelude.{
  ℕ, ℤ, pos, ◌≡◌, refl, sym, ap, ◌∙◌, arith, none, some, List, [], ◌∷◌, Bool, true, false, ◌==◌,
  ◌||◌, if◌then◌else◌, filter, map, member, is_some, Bool-cases, Option-cases, inl, inr, ==_iff,
  some_inj,
}
use llmxy.Datetime.{Datetime, stamp}
use llmxy.Models.{User, ApiKey, Subscription}
use llmxy.Table.{get, IsKeyed}
use llmxy.Table.Laws.{filter-IsKeyed, get-filter-some, get-filter_sound}
use llmxy.Db.{Db, sub_id, user_id, key_id}
use llmxy.QuotaCache.Redis.{Redis, Documented, Key, wallet, subq, hydr_lock, kused, same_key, id_of}
use llmxy.QuotaCache.Hydrate.{
  is_current, put_subs, store_quota, hydrate_found, hydrate_user_quota, store_used,
  hydrate_key_used,
}
use llmxy.QuotaCache.Check.Laws.{Mirrors}

abbrev scored : Subscription → ℕ × ℕ
scored s = (s.id, stamp s.current_period_end)

member-scored :
    (k : ℕ) (ss : List Subscription)
    → member k (map id_of (map scored ss)) ≡ is_some (get sub_id k ss)
unfolding get
member-scored k [] = refl
member-scored k (s ∷ ss) = ground (arith, member-scored k ss)

scored_only :
    (uid : ℕ) (in_set was : Bool)
    → was ≡ false
    → (if uid == uid then in_set || was else was) ≡ in_set
scored_only uid in_set was h = ground arith

module _ {R : Type 0} (redis : Redis R) (doc : Documented redis) where
  zrange-put_subs :
      (u : ℕ) (ss : List Subscription) (r : R)
      → redis.zrange u (put_subs redis ss r) ≡ redis.zrange u r
  unfolding put_subs
  zrange-put_subs u [] r = refl
  zrange-put_subs u (s ∷ ss) r =
      zrange-put_subs u ss (redis.put (subq s.id) s.remaining_cents r)
      ∙ doc.zrange-put u (subq s.id) s.remaining_cents r

  get-put_subs_other :
      (j : Key) (ss : List Subscription) (r : R)
      → ((k : ℕ) → same_key (subq k) j ≡ false)
      → redis.get j (put_subs redis ss r) ≡ redis.get j r
  unfolding put_subs
  get-put_subs_other j [] r h = refl
  get-put_subs_other j (s ∷ ss) r h =
      get-put_subs_other j ss (redis.put (subq s.id) s.remaining_cents r) h
      ∙ doc.get-put j (subq s.id) s.remaining_cents r
      ∙ rw (h s.id) refl

  get-put_subs_absent :
      (k : ℕ) (ss : List Subscription) (r : R)
      → get sub_id k ss ≡ none
      → redis.get (subq k) (put_subs redis ss r) ≡ redis.get (subq k) r
  unfolding put_subs get
  get-put_subs_absent k [] r h = refl
  get-put_subs_absent k (s ∷ ss) r h = elim (Bool-cases (s.id == k)) [
    | inl same ↦ absurd (clash (rw same at h))
    | inr other ↦
        get-put_subs_absent k ss (redis.put (subq s.id) s.remaining_cents r) (rw other at h)
        ∙ doc.get-put (subq k) (subq s.id) s.remaining_cents r
        ∙ rw other refl
  ]
    where
      clash : some s ≡ none → ⊥
      clash e = cc

  get-put_subs :
      (k : ℕ) (ss : List Subscription) (s : Subscription) (r : R)
      → IsKeyed sub_id ss
      → get sub_id k ss ≡ some s
      → redis.get (subq k) (put_subs redis ss r) ≡ some s.remaining_cents
  unfolding put_subs get
  get-put_subs k [] s r u h = cc
  get-put_subs k (x ∷ ss) s r u h = elim (Bool-cases (x.id == k)) [
    | inl same ↦
        let id : x.id ≡ k = (==_iff x.id k).0 same in
        let row : x ≡ s = some_inj (rw same at h) in
        get-put_subs_absent k ss (redis.put (subq x.id) x.remaining_cents r)
          (subst (λ i. get sub_id i ss ≡ none) id u.0)
        ∙ doc.get-put (subq k) (subq x.id) x.remaining_cents r
        ∙ rw same (ap (λ (y : Subscription). some y.remaining_cents) row)
    | inr other ↦
        get-put_subs k ss s (redis.put (subq x.id) x.remaining_cents r) u.1 (rw other at h)
  ]

  -- The balance is set and the sorted set deleted before the subscriptions are written.
  cleared : User → R → R
  cleared user r = redis.zdel user.id (redis.put (wallet user.id) user.balance_cents r)

  cleared-wallet :
      (user : User) (r : R) → redis.get (wallet user.id) (cleared user r) ≡ some user.balance_cents
  unfolding cleared
  cleared-wallet user r =
      doc.get-zdel (wallet user.id) user.id _
      ∙ doc.get-put (wallet user.id) (wallet user.id) user.balance_cents r
      ∙ ground arith

  zrange-cleared : (user : User) (r : R) → redis.zrange user.id (cleared user r) ≡ []
  unfolding cleared
  zrange-cleared user r = doc.zrange-zdel user.id user.id _ ∙ ground arith

  -- The three facts about a stored quota.
  store_quota-wallet :
      (user : User) (ss : List Subscription) (r : R)
      → redis.get (wallet user.id) (store_quota redis user ss r) ≡ some user.balance_cents
  unfolding store_quota cleared
  store_quota-wallet user [] r = cleared-wallet user r
  store_quota-wallet user (s ∷ ss) r =
      get-put_subs_other (wallet user.id) (s ∷ ss) _ (λ k. refl)
      ∙ doc.get-zadd (wallet user.id) user.id (map scored (s ∷ ss)) _
      ∙ cleared-wallet user r

  store_quota-member :
      (user : User) (ss : List Subscription) (r : R) (k : ℕ)
      → member k (redis.zrange user.id (store_quota redis user ss r)) ≡ is_some (get sub_id k ss)
  unfolding store_quota cleared
  store_quota-member user [] r k = ap (member k) (zrange-cleared user r) ∙ unfold get in refl
  store_quota-member user (s ∷ ss) r k =
      ap (member k) (zrange-put_subs user.id (s ∷ ss) _)
      ∙ doc.member-zadd k user.id user.id (map scored (s ∷ ss)) _
      ∙ scored_only user.id (member k (map id_of (map scored (s ∷ ss)))) _
          (ap (member k) (zrange-cleared user r))
      ∙ member-scored k (s ∷ ss)

  store_quota-amount :
      (user : User) (ss : List Subscription) (r : R) (k : ℕ) (s : Subscription)
      → IsKeyed sub_id ss
      → get sub_id k ss ≡ some s
      → redis.get (subq k) (store_quota redis user ss r) ≡ some s.remaining_cents
  unfolding store_quota
  store_quota-amount user [] r k s u h = unfold get in cc
  store_quota-amount user (x ∷ ss) r k s u h = get-put_subs k (x ∷ ss) s _ u h

  -- After the pipeline, Redis holds what the database holds about the user.
  store_quota-Mirrors :
      (db : Db) (now : Datetime) (user : User) (r : R)
      → IsKeyed sub_id db.subscriptions
      → Mirrors redis db now user
          (store_quota redis user (filter (is_current user.id now) db.subscriptions) r)
  store_quota-Mirrors db now user r u =
      let p = is_current user.id now in
      let rows = filter p db.subscriptions in
      let keyed = filter-IsKeyed sub_id p db.subscriptions u in
      record {
        wallet_held = store_quota-wallet user rows r;
        listed = λ sid h. elim (Option-cases (get sub_id sid rows)) [
          | inl gone ↦
              absurd (empty (sym (store_quota-member user rows r sid ∙ ap is_some gone) ∙ h))
          | inr (s, found) ↦
              let (row, current) = get-filter_sound sub_id p sid db.subscriptions s u found in
              (s, row, current, store_quota-amount user rows r sid s keyed found)
        ];
        complete = λ sid s row current.
            store_quota-member user rows r sid
            ∙ ap is_some (get-filter-some sub_id p sid db.subscriptions s u row current);
      }
    where
      empty : false ≡ true → ⊥
      empty e = cc

  -- A hydration that gets the lock makes Redis hold what the database holds about the user's funds.
  pub hydrate_user_quota-Mirrors :
      (db : Db) (now : Datetime) (user : User) (r : R)
      → IsKeyed sub_id db.subscriptions
      → get user_id user.id db.users ≡ some user
      → redis.get (hydr_lock user.id) r ≡ none
      → Mirrors redis db now user (hydrate_user_quota redis now db user.id r)
  unfolding hydrate_user_quota hydrate_found
  hydrate_user_quota-Mirrors db now user r u row free =
      rw (free, row) (store_quota-Mirrors db now user (redis.put (hydr_lock user.id) (pos 1) r) u)

  -- The write of the key's counter leaves the rest.
  put-kused-Mirrors :
      (db : Db) (now : Datetime) (user : User) (r : R) (kid ws : ℕ) (v : ℤ)
      → Mirrors redis db now user r
      → Mirrors redis db now user (redis.put (kused kid ws) v r)
  put-kused-Mirrors db now user r kid ws v m = record {
    wallet_held = doc.get-put (wallet user.id) (kused kid ws) v r ∙ m.wallet_held;
    listed = λ sid h.
        let (s, row, current, amount) =
          m.listed sid (sym (ap (member sid) (doc.zrange-put user.id (kused kid ws) v r)) ∙ h) in
        (s, row, current, doc.get-put (subq sid) (kused kid ws) v r ∙ amount);
    complete = λ sid s row current.
        ap (member sid) (doc.zrange-put user.id (kused kid ws) v r) ∙ m.complete sid s row current;
  }

  -- Both hydrations together, for a key with a row.
  pub hydrated :
      (db : Db) (now : Datetime) (user : User) (key : ApiKey) (ws : ℕ) (r : R)
      → IsKeyed sub_id db.subscriptions
      → get user_id user.id db.users ≡ some user
      → get key_id key.id db.api_keys ≡ some key
      → redis.get (hydr_lock user.id) r ≡ none
      → let r' = hydrate_key_used redis db key.id ws (hydrate_user_quota redis now db user.id r) in
        Mirrors redis db now user r' × (redis.get (kused key.id ws) r' ≡ some key.used_cents)
  unfolding hydrate_key_used store_used
  hydrated db now user key ws r u row held free =
      let r' = hydrate_user_quota redis now db user.id r in
      rw held (
        put-kused-Mirrors db now user r' key.id ws key.used_cents
            (hydrate_user_quota-Mirrors db now user r u row free),
        doc.get-put (kused key.id ws) (kused key.id ws) key.used_cents r' ∙ (ground arith),
      )
