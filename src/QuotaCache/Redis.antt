-- ===== src/QuotaCache/Redis.antt =====
-- The commands of Redis that api/app/services/quota_cache.py uses, as an interface. Times to live are
-- left out: a key that has expired is one that `delete` removed.
use llmxy.Prelude.{
  ℕ, ℤ, ◌+ℤ◌, pos, ◌≡◌, Option, none, some, List, [], Bool, false, ◌==◌, ◌&&◌, ◌||◌, or_else,
  if◌then◌else◌, member, map,
}

-- `wallet:{uid}`, `subq:{sid}`, `kused:{kid}:w{ws}` and `qhydr:{uid}`.
pub data Key : Type 0 where
  wallet subq hydr_lock : ℕ → Key
  kused : ℕ → ℕ → Key

abbrev pub same_key : Key → Key → Bool
same_key (wallet a) (wallet b) = a == b
same_key (wallet a) (subq b) = false
same_key (wallet a) (hydr_lock b) = false
same_key (wallet a) (kused b w) = false
same_key (subq a) (wallet b) = false
same_key (subq a) (subq b) = a == b
same_key (subq a) (hydr_lock b) = false
same_key (subq a) (kused b w) = false
same_key (hydr_lock a) (wallet b) = false
same_key (hydr_lock a) (subq b) = false
same_key (hydr_lock a) (hydr_lock b) = a == b
same_key (hydr_lock a) (kused b w) = false
same_key (kused a v) (wallet b) = false
same_key (kused a v) (subq b) = false
same_key (kused a v) (hydr_lock b) = false
same_key (kused a v) (kused b w) = (a == b) && (v == w)

-- GET, SET, DEL and INCRBY on integers; ZRANGE 0 -1, ZADD, ZREM and DEL on the sorted set
-- `usubs:{uid}`, whose members are subscription ids.
pub record Redis (R : Type 0) : Type 0 where
  pub get : Key → R → Option ℤ
  pub put : Key → ℤ → R → R
  pub delete : Key → R → R
  pub incr_by : Key → ℤ → R → R
  pub zrange : ℕ → R → List ℕ
  pub zadd : ℕ → List (ℕ × ℕ) → R → R
  pub zrem : ℕ → ℕ → R → R
  pub zdel : ℕ → R → R

abbrev pub id_of : ℕ × ℕ → ℕ
id_of p = p.0

-- What the commands are documented to do.
pub record Documented {R : Type 0} (redis : Redis R) : Type 0 where
  pub get-put :
      (j k : Key) (v : ℤ) (r : R)
      → redis.get j (redis.put k v r) ≡ (if same_key k j then some v else redis.get j r)
  pub get-delete :
      (j k : Key) (r : R)
      → redis.get j (redis.delete k r) ≡ (if same_key k j then none else redis.get j r)
  pub get-incr_by :
      (j k : Key) (v : ℤ) (r : R)
      → redis.get j (redis.incr_by k v r)
        ≡ (if same_key k j then some (or_else (redis.get k r) (pos 0) +ℤ v) else redis.get j r)
  pub get-zadd :
      (j : Key) (u : ℕ) (ps : List (ℕ × ℕ)) (r : R)
      → redis.get j (redis.zadd u ps r) ≡ redis.get j r
  pub get-zrem : (j : Key) (u s : ℕ) (r : R) → redis.get j (redis.zrem u s r) ≡ redis.get j r
  pub get-zdel : (j : Key) (u : ℕ) (r : R) → redis.get j (redis.zdel u r) ≡ redis.get j r
  pub zrange-put :
      (u : ℕ) (k : Key) (v : ℤ) (r : R) → redis.zrange u (redis.put k v r) ≡ redis.zrange u r
  pub zrange-delete :
      (u : ℕ) (k : Key) (r : R) → redis.zrange u (redis.delete k r) ≡ redis.zrange u r
  pub zrange-incr_by :
      (u : ℕ) (k : Key) (v : ℤ) (r : R) → redis.zrange u (redis.incr_by k v r) ≡ redis.zrange u r
  pub zrange-zdel :
      (u v : ℕ) (r : R)
      → redis.zrange u (redis.zdel v r) ≡ (if v == u then [] else redis.zrange u r)
  pub member-zadd :
      (s u v : ℕ) (ps : List (ℕ × ℕ)) (r : R)
      → member s (redis.zrange u (redis.zadd v ps r)) ≡ (
          if v == u
          then member s (map id_of ps) || member s (redis.zrange u r)
          else member s (redis.zrange u r))
  pub member-zrem :
      (s u v t : ℕ) (r : R)
      → member s (redis.zrange u (redis.zrem v t r))
        ≡ (if (v == u) && (t == s) then false else member s (redis.zrange u r))
