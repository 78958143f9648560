-- ===== src/QuotaCache/Memory.antt =====
-- A Redis in memory, which behaves as the commands are documented.
use llmxy.Prelude.{
  ℕ, ℤ, pos, ◌≡◌, refl, arith, Option, none, some, List, [], ◌∷◌, ◌++◌, false, ◌==◌, ◌&&◌, ◌||◌,
  not, or_else, if◌then◌else◌, member, map, filter, ◌+ℤ◌,
}
use llmxy.QuotaCache.Redis.{Redis, Documented, Key, same_key, id_of}

pub record Memory : Type 0 where
  pub values : Key → Option ℤ
  pub sets : ℕ → List ℕ

abbrev pub empty : Memory
empty = record { values = λ k. none; sets = λ u. [] }

abbrev set_value : Key → Option ℤ → Memory → Memory
set_value k v r = record r { values = λ j. if same_key k j then v else r.values j }

abbrev set_members : ℕ → List ℕ → Memory → Memory
set_members u xs r = record r { sets = λ v. if u == v then xs else r.sets v }

abbrev pub memory : Redis Memory
memory = record {
  get = λ j r. r.values j;
  put = λ k v r. set_value k (some v) r;
  delete = λ k r. set_value k none r;
  incr_by = λ k v r. set_value k (some (or_else (r.values k) (pos 0) +ℤ v)) r;
  zrange = λ u r. r.sets u;
  zadd = λ u ps r. set_members u (map id_of ps ++ r.sets u) r;
  zrem = λ u s r. set_members u (filter (λ x. not (s == x)) (r.sets u)) r;
  zdel = λ u r. set_members u [] r;
}

member-append : (s : ℕ) (xs ys : List ℕ) → member s (xs ++ ys) ≡ (member s xs || member s ys)
member-append s [] ys = refl
member-append s (x ∷ xs) ys = ground (arith, member-append s xs ys)

member-remove :
    (s t : ℕ) (xs : List ℕ)
    → member s (filter (λ x. not (t == x)) xs) ≡ (if t == s then false else member s xs)
member-remove s t [] = ground arith
member-remove s t (x ∷ xs) = ground (arith, member-remove s t xs)

zadd_case :
    (s u v : ℕ) (ps : List (ℕ × ℕ)) (sets : ℕ → List ℕ)
    → member s (if v == u then map id_of ps ++ sets v else sets u)
      ≡ (if v == u then member s (map id_of ps) || member s (sets u) else member s (sets u))
zadd_case s u v ps sets = ground (arith, member-append s (map id_of ps) (sets v))

zrem_case :
    (s u v t : ℕ) (sets : ℕ → List ℕ)
    → member s (if v == u then filter (λ x. not (t == x)) (sets v) else sets u)
      ≡ (if (v == u) && (t == s) then false else member s (sets u))
zrem_case s u v t sets = ground (arith, member-remove s t (sets v))

pub memory-Documented : Documented memory
memory-Documented = record {
  get-put = λ j k v r. refl;
  get-delete = λ j k r. refl;
  get-incr_by = λ j k v r. refl;
  get-zadd = λ j u ps r. refl;
  get-zrem = λ j u s r. refl;
  get-zdel = λ j u r. refl;
  zrange-put = λ u k v r. refl;
  zrange-delete = λ u k r. refl;
  zrange-incr_by = λ u k v r. refl;
  zrange-zdel = λ u v r. refl;
  member-zadd = λ s u v ps r. zadd_case s u v ps r.sets;
  member-zrem = λ s u v t r. zrem_case s u v t r.sets;
}
