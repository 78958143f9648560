-- ===== src/TtlCache/Refines.antt =====
-- The cache against a map that forgets nothing: a hit is always the last value set.
use mathlib.Core.Path.{subst}
use llmxy.Prelude.{
  ℕ, ◌+◌, ◌<◌, ◌≡◌, ◌↔◌, refl, arith, Option, none, some, List, [], ◌∷◌, Bool, true, false, not,
  ltb, leb, if◌then◌else◌, length, All, All-append, Bool-cases, Option-cases, inl, inr, sym, ◌∙◌,
  some_inj, All-weaken, All-both,
}
use llmxy.Table.Laws.{filter-All, filter-passes}
use llmxy.TtlCache.{Entry, Cache, evict, find, remove, read, get, set, pop, clear, new_cache}

-- What a client does with a cache.
pub data Op (K V : Type 0) : Type 0 where
  getting : ℕ → K → Op K V
  setting : ℕ → K → V → Op K V
  popping : K → Op K V
  clearing : Op K V

pub evict_go :
    {A : Type 0} (n : ℕ) (e : A) (es : List A)
    → evict n (e ∷ es) ≡ (if ltb n (length (e ∷ es)) then evict n es else e ∷ es)
unfolding evict
evict_go n e es = ground arith

evict-All : {A : Type 0} (P : A → Type 0) (n : ℕ) (es : List A) → All P es → All P (evict n es)
evict-All P n [] h = unfold evict in h
evict-All P n (e ∷ es) h = elim (Bool-cases (ltb n (length (e ∷ es)))) [
  | inl long ↦ rw (evict_go n e es, long) (evict-All P n es h.1)
  | inr fits ↦ rw (evict_go n e es, fits) h
]

module _ {K V : Type 0} (same : K → K → Bool) where
  unfoldable pub apply : Op K V → Cache K V → Cache K V
  apply (getting now k) c = (get same now k c).1
  apply (setting now k v) c = set same now k v c
  apply (popping k) c = pop same k c
  apply clearing c = clear c

  unfoldable pub apply_all : List (Op K V) → Cache K V → Cache K V
  apply_all [] c = c
  apply_all (o ∷ os) c = apply_all os (apply o c)

  -- The last value that was set for the key, with its expiry, unless it was popped or cleared since.
  unfoldable pub last_set : ℕ → K → List (Op K V) → Option (ℕ × V) → Option (ℕ × V)
  last_set ttl k [] m = m
  last_set ttl k (getting now j ∷ os) m = last_set ttl k os m
  last_set ttl k (setting now j v ∷ os) m =
      last_set ttl k os (if same j k then some (now + ttl, v) else m)
  last_set ttl k (popping j ∷ os) m = last_set ttl k os (if same j k then none else m)
  last_set ttl k (clearing ∷ os) m = last_set ttl k os none

  -- An entry under the key is the one that the map holds.
  abbrev pub Agrees : K → Option (ℕ × V) → List (Entry K V) → Type 0
  Agrees k m es = All (λ e. same e.key k ≡ true → m ≡ some (e.expires_at, e.value)) es

  module _ (lawful : (a b : K) → (same a b ≡ true) ↔ (a ≡ b)) where
    removed-Agrees :
        (k j : K) (m m' : Option (ℕ × V)) (es : List (Entry K V))
        → Agrees k m es
        → (same j k ≡ false → m' ≡ m)
        → Agrees k m' (remove same j es)
    unfolding remove
    removed-Agrees k j m m' es h stays =
        All-weaken _ _ (remove same j es) other
          (All-both _ _ (remove same j es) (filter-All _ _ es h) (filter-passes _ es))
      where
        other :
            (e : Entry K V)
            → (same e.key k ≡ true → m ≡ some (e.expires_at, e.value)) × (not (same e.key j) ≡ true)
            → same e.key k ≡ true
            → m' ≡ some (e.expires_at, e.value)
        other e (old, differs) h = elim (Bool-cases (same j k)) [
          | inl hit ↦ absurd (clash (rw (together hit) at differs))
          | inr miss ↦ stays miss ∙ old h
        ]
          where
            clash : false ≡ true → ⊥
            clash v = cc

            together : same j k ≡ true → same e.key j ≡ true
            together hit = (lawful e.key j).1 ((lawful e.key k).0 h ∙ sym ((lawful j k).0 hit))

    set-Agrees :
        (now : ℕ) (k j : K) (v : V) (m : Option (ℕ × V)) (c : Cache K V)
        → Agrees k m c.entries
        → Agrees k (if same j k then some (now + c.ttl, v) else m) (set same now j v c).entries
    unfolding set
    set-Agrees now k j v m c h = evict-All _ c.maxsize _ (
        All-append _ (remove same j c.entries) _
          (removed-Agrees k j m _ c.entries h (λ miss. rw miss refl)) ((λ hit. rw hit refl), tt))

    find-Agrees :
        (k j : K) (m : Option (ℕ × V)) (es : List (Entry K V))
        → Agrees k m es
        → (e : Entry K V) → find same j es ≡ some e
        → same e.key k ≡ true
        → m ≡ some (e.expires_at, e.value)
    unfolding find
    find-Agrees k j m [] h e f s = absurd (clash f)
      where
        clash : none ≡ some e → ⊥
        clash v = cc
    find-Agrees k j m (x ∷ es) h e f s = elim (Bool-cases (same x.key j)) [
      | inl hit ↦ at_found e (some_inj (rw hit at f)) s
      | inr miss ↦ find-Agrees k j m es h.1 e (rw miss at f) s
    ]
      where
        at_found : (e : Entry K V) → x ≡ e → same e.key k ≡ true → m ≡ some (e.expires_at, e.value)
        at_found e same_entry s =
            subst (λ y. same y.key k ≡ true → m ≡ some (y.expires_at, y.value)) same_entry h.0 s

    find-key :
        (k : K) (es : List (Entry K V)) (e : Entry K V)
        → find same k es ≡ some e
        → same e.key k ≡ true
    unfolding find
    find-key k [] e f = absurd (clash f)
      where
        clash : none ≡ some e → ⊥
        clash v = cc
    find-key k (x ∷ es) e f = elim (Bool-cases (same x.key k)) [
      | inl hit ↦ subst (λ y. same y.key k ≡ true) (some_inj (rw hit at f)) hit
      | inr miss ↦ find-key k es e (rw miss at f)
    ]

    read-Agrees :
        (now : ℕ) (k j : K) (m : Option (ℕ × V)) (es : List (Entry K V))
        → Agrees k m es
        → Agrees k m (read same now j es (find same j es)).1
    unfolding read
    read-Agrees now k j m es h = elim (Option-cases (find same j es)) [
      | inl missing ↦ rw missing h
      | inr (e, found) ↦
          let rest = removed-Agrees k j m m es h (λ miss. refl) in
          elim (Bool-cases (leb e.expires_at now)) [
            | inl late ↦ rw (found, late) rest
            | inr early ↦
                rw (found, early)
                  (All-append _ (remove same j es) _ rest (find-Agrees k j m es h e found, tt))
          ]
    ]

    apply-Agrees :
        (k : K) (o : Op K V) (os : List (Op K V)) (m : Option (ℕ × V)) (c : Cache K V)
        → Agrees k m c.entries
        → (m' : Option (ℕ × V)) × Agrees k m' (apply o c).entries
          × (last_set c.ttl k (o ∷ os) m ≡ last_set (apply o c).ttl k os m')
    unfolding apply last_set get pop clear set
    apply-Agrees k (getting now j) os m c h = (m, read-Agrees now k j m c.entries h, refl)
    apply-Agrees k (setting now j v) os m c h = (_, set-Agrees now k j v m c h, refl)
    apply-Agrees k (popping j) os m c h =
        let m' : Option (ℕ × V) = if same j k then none else m in
        (m', removed-Agrees k j m m' c.entries h (λ miss. rw miss refl), refl)
    apply-Agrees k clearing os m c h = (none, tt, refl)

    apply_all-Agrees :
        (k : K) (os : List (Op K V)) (m : Option (ℕ × V)) (c : Cache K V)
        → Agrees k m c.entries
        → Agrees k (last_set c.ttl k os m) (apply_all os c).entries
    unfolding apply_all last_set
    apply_all-Agrees k [] m c h = h
    apply_all-Agrees k (o ∷ os) m c h =
        let (m', agrees, same_last) = apply-Agrees k o os m c h in
        rw same_last (apply_all-Agrees k os m' (apply o c) agrees)

    hit-Agrees :
        (now : ℕ) (k : K) (m : Option (ℕ × V)) (es : List (Entry K V)) (v : V)
        → Agrees k m es
        → (read same now k es (find same k es)).0 ≡ some v
        → (t : ℕ) × (m ≡ some (t, v)) × (now < t)
    unfolding read
    hit-Agrees now k m es v h r = elim (Option-cases (find same k es)) [
      | inl missing ↦ absurd (clash (rw missing at r))
      | inr (e, found) ↦
          let agrees = find-Agrees k k m es h e found (find-key k es e found) in
          elim (Bool-cases (leb e.expires_at now)) [
            | inl late ↦ absurd (clash (rw (found, late) at r))
            | inr early ↦
                let value = some_inj (rw (found, early) at r) in
                (e.expires_at, rw (← value) agrees, ground (arith, early))
          ]
    ]
      where
        clash : none ≡ some v → ⊥
        clash v = cc

    -- If `same` decides the equality of keys, then after any sequence of operations on a new cache,
    -- a `get` that returns a value returns the one that was last set for its key, whose time to live
    -- has not run out, and the key was neither popped nor cleared since.
    pub get-last_set :
        (maxsize ttl now : ℕ) (k : K) (os : List (Op K V)) (v : V)
        → (get same now k (apply_all os (new_cache maxsize ttl))).0 ≡ some v
        → (t : ℕ) × (last_set ttl k os none ≡ some (t, v)) × (now < t)
    unfolding new_cache
    get-last_set maxsize ttl now k os v h =
        hit-Agrees now k _ (apply_all os (new_cache maxsize ttl)).entries v
          (apply_all-Agrees k os none (new_cache maxsize ttl) (unfold new_cache in tt))
          (unfold get in h)
