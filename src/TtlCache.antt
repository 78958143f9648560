-- ===== src/TtlCache.antt =====
-- The in-process cache of api/app/core/ttl_cache.py. The ordered dict is the list of its entries,
-- the least recently used first; time is the monotonic clock's, in ticks. `same` is the equality of
-- the keys.
pub mod Refines
pub mod Lru
mod Examples
use llmxy.Prelude.{
  ℕ, ◌+◌, Option, none, some, List, [], ◌∷◌, ◌++◌, Bool, true, false, not, ltb, leb, if◌then◌else◌,
  filter, length,
}

pub record Entry (K V : Type 0) : Type 0 where
  pub key : K
  pub expires_at : ℕ
  pub value : V

pub record Cache (K V : Type 0) : Type 0 where
  pub entries : List (Entry K V)
  pub maxsize : ℕ
  pub ttl : ℕ

-- `while len(self._data) > self._maxsize: self._data.popitem(last=False)`
unfoldable pub evict : {A : Type 0} → ℕ → List A → List A
evict maxsize [] = []
evict maxsize (e ∷ es) = elim (ltb maxsize (length (e ∷ es))) [
  | true ↦ evict maxsize es
  | false ↦ e ∷ es
]

module _ {K V : Type 0} (same : K → K → Bool) where
  unfoldable pub find : K → List (Entry K V) → Option (Entry K V)
  find k [] = none
  find k (e ∷ es) = if same e.key k then some e else find k es

  -- `del self._data[key]`, and nothing if the key is absent
  unfoldable pub remove : K → List (Entry K V) → List (Entry K V)
  remove k es = filter (λ e. not (same e.key k)) es

  -- What `get` returns for an entry, with the entries that it leaves.
  unfoldable pub read : ℕ → K → List (Entry K V) → Option (Entry K V) → Option V × List (Entry K V)
  unfolding remove
  read now k es none = (none, es)
  read now k es (some e) =
      if leb e.expires_at now then (none, remove k es) else (some e.value, remove k es ++ e ∷ [])

  unfoldable pub get : ℕ → K → Cache K V → Option V × Cache K V
  unfolding read find
  get now k c =
      let (value, rest) = read now k c.entries (find k c.entries) in
      (value, record c { entries = rest })

  -- A key that is present moves to the end, where its entry is replaced; another one is appended.
  unfoldable pub set : ℕ → K → V → Cache K V → Cache K V
  unfolding remove evict
  set now k v c =
      let entry : Entry K V = record { key = k; expires_at = now + c.ttl; value = v } in
      record c { entries = evict c.maxsize (remove k c.entries ++ entry ∷ []) }

  unfoldable pub pop : K → Cache K V → Cache K V
  unfolding remove
  pop k c = record c { entries = remove k c.entries }

unfoldable pub clear : {K V : Type 0} → Cache K V → Cache K V
clear c = record c { entries = [] }

unfoldable pub new_cache : {K V : Type 0} → ℕ → ℕ → Cache K V
new_cache maxsize ttl = record { entries = []; maxsize = maxsize; ttl = ttl }
