-- ===== src/TtlCache/Lru.antt =====
-- The size of the cache, what stays in it, and what the eviction drops.
use llmxy.Prelude.{
  ℕ, ◌+◌, ◌≤◌, ◌<◌, ◌≡◌, ◌↔◌, refl, arith, none, some, List, [], ◌∷◌, ◌++◌, Bool, true, not, ltb,
  leb, length, Bool-cases, Option-cases, inl, inr, ap, ◌∙◌, length-append, length-filter_le, All,
}
use llmxy.Table.Laws.{filter-passes}
use llmxy.TtlCache.{Entry, Cache, evict, find, remove, read, get, set, pop, clear, new_cache}
use llmxy.TtlCache.Refines.{Op, apply, apply_all, getting, setting, popping, clearing, evict_go}

pub length-evict : {A : Type 0} (n : ℕ) (es : List A) → length (evict n es) ≤ n
length-evict n [] = unfold evict in omega arith
length-evict n (e ∷ es) = elim (Bool-cases (ltb n (length (e ∷ es)))) [
  | inl long ↦ rw (evict_go n e es, long) (length-evict n es)
  | inr fits ↦ rw (evict_go n e es, fits) (ground (arith, fits))
]

-- A list that fits is left as it is.
evict_fits : {A : Type 0} (n : ℕ) (es : List A) → length es ≤ n → evict n es ≡ es
evict_fits n [] h = unfold evict in refl
evict_fits n (e ∷ es) h = rw (evict_go n e es) (ground arith)

module _ {K V : Type 0} (same : K → K → Bool) where
  find_absent : (k : K) (es : List (Entry K V)) → find same k es ≡ none → remove same k es ≡ es
  unfolding find remove
  find_absent k [] h = refl
  find_absent k (e ∷ es) h = ground (arith, find_absent k es)

  length-remove_hit :
      (k : K) (es : List (Entry K V)) (e : Entry K V)
      → find same k es ≡ some e
      → length (remove same k es) + 1 ≤ length es
  unfolding find remove
  length-remove_hit k [] e h = ground arith
  length-remove_hit k (x ∷ es) e h =
      ground (arith, length-remove_hit k es e, length-filter_le (λ y. not (same y.key k)) es)

  length-read :
      (now : ℕ) (k : K) (es : List (Entry K V))
      → length (read same now k es (find same k es)).1 ≤ length es
  unfolding read
  length-read now k es = elim (Option-cases (find same k es)) [
    | inl missing ↦ rw missing (omega arith)
    | inr (e, found) ↦
        let less = length-remove_hit k es e found in
        elim (Bool-cases (leb e.expires_at now)) [
          | inl late ↦ rw (found, late) (omega (arith, less))
          | inr early ↦
              rw (found, early) (omega (arith, less, length-append (remove same k es) (e ∷ [])))
        ]
  ]

  apply-IsBounded :
      (n : ℕ) (o : Op K V) (c : Cache K V)
      → (length c.entries ≤ n) × (c.maxsize ≡ n)
      → (length (apply same o c).entries ≤ n) × ((apply same o c).maxsize ≡ n)
  unfolding apply get set pop clear remove
  apply-IsBounded n (getting now k) c h = (omega (arith, h.0, length-read now k c.entries), h.1)
  apply-IsBounded n (setting now k v) c h = (rw (h.1) (length-evict n _), h.1)
  apply-IsBounded n (popping k) c h =
      (omega (arith, h.0, length-filter_le (λ e. not (same e.key k)) c.entries), h.1)
  apply-IsBounded n clearing c h = (omega arith, h.1)

  apply_all-IsBounded :
      (n : ℕ) (os : List (Op K V)) (c : Cache K V)
      → (length c.entries ≤ n) × (c.maxsize ≡ n)
      → length (apply_all same os c).entries ≤ n
  unfolding apply_all
  apply_all-IsBounded n [] c h = h.0
  apply_all-IsBounded n (o ∷ os) c h =
      apply_all-IsBounded n os (apply same o c) (apply-IsBounded n o c h)

  find-last :
      (k : K) (es : List (Entry K V)) (e : Entry K V)
      → All (λ x. not (same x.key k) ≡ true) es
      → same e.key k ≡ true
      → find same k (es ++ e ∷ []) ≡ some e
  unfolding find
  find-last k [] e others own = rw own refl
  find-last k (x ∷ es) e others own = ground (arith, find-last k es e others.1 own)

  find-evict :
      (n : ℕ) (k : K) (es : List (Entry K V)) (e : Entry K V)
      → 1 ≤ n
      → All (λ x. not (same x.key k) ≡ true) es
      → same e.key k ≡ true
      → find same k (evict n (es ++ e ∷ [])) ≡ some e
  find-evict n k [] e h others own =
      rw (evict_fits n (e ∷ []) (ground arith)) (unfold find in rw own refl)
  find-evict n k (x ∷ es) e h others own = elim (Bool-cases (ltb n (length (x ∷ es ++ e ∷ [])))) [
    | inl long ↦ rw (evict_go n x (es ++ e ∷ []), long) (find-evict n k es e h others.1 own)
    | inr fits ↦ rw (evict_go n x (es ++ e ∷ []), fits) (find-last k (x ∷ es) e others own)
  ]

  -- A sequence of operations on a new cache never leaves more than `maxsize` entries.
  pub length-apply_all :
      (maxsize ttl : ℕ) (os : List (Op K V))
      → length (apply_all same os (new_cache maxsize ttl)).entries ≤ maxsize
  unfolding new_cache
  length-apply_all maxsize ttl os =
      apply_all-IsBounded maxsize os (new_cache maxsize ttl) (omega arith, refl)

  -- In a full cache a new key takes the place of the entry that was used least recently.
  pub set-full :
      (now : ℕ) (k : K) (v : V) (c : Cache K V) (oldest : Entry K V) (others : List (Entry K V))
      → c.entries ≡ oldest ∷ others
      → length c.entries ≡ c.maxsize
      → find same k c.entries ≡ none
      → (set same now k v c).entries
        ≡ others ++ record { key = k; expires_at = now + c.ttl; value = v } ∷ []
  unfolding set
  set-full now k v c oldest others shape full absent =
      let entry : Entry K V = record { key = k; expires_at = now + c.ttl; value = v } in
      let size = length-append others (entry ∷ []) in
      let long : ltb c.maxsize (length (oldest ∷ others ++ entry ∷ [])) ≡ true =
        ground (arith, ap length shape, full, size) in
      rw
        (
          find_absent k c.entries absent ∙ shape,
          evict_go c.maxsize oldest (others ++ entry ∷ []),
          long,
        )
        (evict_fits c.maxsize (others ++ entry ∷ []) (ground (arith, ap length shape, full, size)))

  module _ (lawful : (a b : K) → (same a b ≡ true) ↔ (a ≡ b)) where
    -- A value that was set is read back until its time is over, if the cache holds anything at all
    -- and `same` decides the equality of keys.
    pub get-set :
        (now later : ℕ) (k : K) (v : V) (c : Cache K V)
        → 1 ≤ c.maxsize
        → later < now + c.ttl
        → (get same later k (set same now k v c)).0 ≡ some v
    unfolding get set read remove
    get-set now later k v c h l =
        let entry : Entry K V = record { key = k; expires_at = now + c.ttl; value = v } in
        let found =
          find-evict c.maxsize k (remove same k c.entries) entry h (filter-passes _ c.entries)
            ((lawful k k).1 refl) in
        rw found (ground arith)
