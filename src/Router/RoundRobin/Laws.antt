-- ===== src/Router/RoundRobin/Laws.antt =====
-- The rotation is fair, and every model stands in it once.
use native.Mathlib.Nat.{mod-add-mod, add-mod_left, mod-eq_of_lt}
use llmxy.Prelude.{
  ◌==◌, ℕ, zero, suc, ◌+◌, ◌-◌, ◌%◌, ◌≤◌, ◌<◌, ◌≡◌, refl, sym, ap, ◌∙◌, arith, Option, none, some,
  List, [], ◌∷◌, true, false, if◌then◌else◌, length, get_elem?, member, leb, Bool-cases, inl, inr,
}
use llmxy.Table.{get, IsKeyed}
use llmxy.Router.Targets.{Candidate}
use llmxy.Router.RoundRobin.{unique_pairs, next_cursor, pick_at, round_robin_pick}

-- The process's cursors after `n` requests to the policy, none of which reached Redis.
unfoldable pub cursors_after : ℕ → ℕ → List Candidate → (ℕ → ℕ) → ℕ → ℕ
cursors_after zero id ps cursors = cursors
cursors_after (suc n) id ps cursors =
    cursors_after n id ps ((round_robin_pick none id cursors ps).1)

-- Some step below `n` from the cursor lands on `j`.
reaches : (c n j : ℕ) → j < n → (i : ℕ) × (i < n) × ((c + i) % n ≡ j)
reaches c n j h = elim (Bool-cases (leb (c % n) j)) [
  | inl ahead ↦
      let steps : c % n + (j - c % n) ≡ j = ground (arith, ahead) in
      (
        j - c % n,
        omega arith,
        sym (mod-add-mod c n (j - c % n)) ∙ ap (λ x. x % n) steps ∙ mod-eq_of_lt h,
      )
  | inr behind ↦
      let steps : c % n + (n + j - c % n) ≡ n + j = ground (arith, behind, mod_lt c n) in
      (
        n + j - c % n,
        ground (arith, behind),
        sym (mod-add-mod c n (n + j - c % n))
            ∙ ap (λ x. x % n) steps
            ∙ add-mod_left n j
            ∙ mod-eq_of_lt h,
      )
]
  where
    mod_lt : (c n : ℕ) → 1 ≤ n → c % n < n
    mod_lt c n h = omega arith

-- The pick for a cursor.
pick_at_turn :
    (reply : Option ℕ) (id : ℕ) (cursors : ℕ → ℕ) (us : List Candidate)
    → 1 ≤ length us
    → ((pick_at reply id cursors us).0
        ≡ get_elem? us ((next_cursor reply id cursors).0 % length us))
      × ((pick_at reply id cursors us).1 ≡ (next_cursor reply id cursors).1)
unfolding pick_at
pick_at_turn reply id cursors [] h = absurd (omega arith)
pick_at_turn reply id cursors (p ∷ ps) h = (refl, refl)

cursors_after_self :
    (n id : ℕ) (ps : List Candidate) (cursors : ℕ → ℕ)
    → 1 ≤ length (unique_pairs [] ps)
    → cursors_after n id ps cursors id ≡ cursors id + n
unfolding cursors_after round_robin_pick
cursors_after_self zero id ps cursors h = omega arith
cursors_after_self (suc n) id ps cursors h =
    let turn = (pick_at_turn none id cursors (unique_pairs [] ps) h).1 in
    rw turn (cursors_after_self n id ps _ h ∙ (unfold next_cursor in ground arith))

abbrev pub model_of : Candidate → ℕ
model_of p = p.model.id

seen-absent :
    (seen : List ℕ) (ps : List Candidate) (k : ℕ)
    → member k seen ≡ true
    → get model_of k (unique_pairs seen ps) ≡ none
unfolding unique_pairs get
seen-absent seen [] k h = refl
seen-absent seen (p ∷ ps) k h =
    ground (arith, seen-absent seen ps k h, seen-absent (p.model.id ∷ seen) ps k)

unique_go :
    (seen : List ℕ) (p : Candidate) (ps : List Candidate)
    → unique_pairs seen (p ∷ ps) ≡ (
        if member p.model.id seen
        then unique_pairs seen ps
        else p ∷ unique_pairs (p.model.id ∷ seen) ps)
unfolding unique_pairs
unique_go seen p ps = ground arith

unique_pairs-IsKeyed :
    (seen : List ℕ) (ps : List Candidate) → IsKeyed model_of (unique_pairs seen ps)
unique_pairs-IsKeyed seen [] = unfold unique_pairs in tt
unique_pairs-IsKeyed seen (p ∷ ps) = elim (Bool-cases (member p.model.id seen)) [
  | inl old ↦ rw (unique_go seen p ps, old) (unique_pairs-IsKeyed seen ps)
  | inr fresh ↦
      rw (unique_go seen p ps, fresh)
        (
          seen-absent (p.model.id ∷ seen) ps p.model.id (ground arith),
          unique_pairs-IsKeyed (p.model.id ∷ seen) ps,
        )
]

get-unique_pairs :
    (seen : List ℕ) (ps : List Candidate) (k : ℕ)
    → member k seen ≡ false
    → get model_of k (unique_pairs seen ps) ≡ get model_of k ps
unfolding unique_pairs get
get-unique_pairs seen [] k h = refl
get-unique_pairs seen (p ∷ ps) k h =
    ground (arith, get-unique_pairs seen ps k h, get-unique_pairs (p.model.id ∷ seen) ps k)

-- The rotation holds each model once, and for each model of a candidate its first candidate.
pub unique_pairs_lem :
    (ps : List Candidate)
    → IsKeyed model_of (unique_pairs [] ps)
      × ((k : ℕ) → get model_of k (unique_pairs [] ps) ≡ get model_of k ps)
unique_pairs_lem ps = (unique_pairs-IsKeyed [] ps, λ k. get-unique_pairs [] ps k refl)

-- A row that a table finds stands at some place of it.
place_of :
    (k : ℕ) (us : List Candidate) (p : Candidate)
    → get model_of k us ≡ some p
    → (j : ℕ) × (j < length us) × (get_elem? us j ≡ some p)
unfolding get
place_of k [] p h = cc
place_of k (u ∷ us) p h = elim (Bool-cases (u.model.id == k)) [
  | inl here ↦ (0, omega arith, rw here at h)
  | inr later ↦
      let (j, inside, is) = place_of k us p (rw later at h) in (suc j, omega (arith, inside), is)
]

-- Each place of the rotation has its turn.
turn_of :
    (start id j : ℕ) (cursors : ℕ → ℕ) (ps : List Candidate)
    → j < length (unique_pairs [] ps)
    → ((i : ℕ) × (i < length (unique_pairs [] ps))
        × ((round_robin_pick (some (suc (start + i))) id cursors ps).0
            ≡ get_elem? (unique_pairs [] ps) j))
      × ((i : ℕ) × (i < length (unique_pairs [] ps))
          × ((round_robin_pick none id (cursors_after i id ps cursors) ps).0
              ≡ get_elem? (unique_pairs [] ps) j))
unfolding round_robin_pick next_cursor
turn_of start id j cursors ps h =
    let us = unique_pairs [] ps in
    let (i, lt_i, lands) = reaches start (length us) j h in
    let (k, lt_k, lands') = reaches (cursors id) (length us) j h in
    (
      (
        i,
        lt_i,
        (pick_at_turn (some (suc (start + i))) id cursors us (omega arith)).0
            ∙ ap (get_elem? us) (ap (λ x. x % length us) (omega arith) ∙ lands),
      ),
      (
        k,
        lt_k,
        (pick_at_turn none id (cursors_after k id ps cursors) us (omega arith)).0
            ∙ ap (get_elem? us) (
                ap (λ x. x % length us) (cursors_after_self k id ps cursors (omega arith))
                ∙ lands'),
      ),
    )

-- The candidate is picked by one of `n` consecutive requests, of which Redis gives the first the
-- number after `start`, and by one of `n` that start from the process's cursors.
abbrev pub HasTurn : ℕ → ℕ → (ℕ → ℕ) → List Candidate → ℕ → Candidate → Type 0
HasTurn start id cursors ps n p =
    ((i : ℕ) × (i < n) × ((round_robin_pick (some (suc (start + i))) id cursors ps).0 ≡ some p))
    × ((i : ℕ) × (i < n)
        × ((round_robin_pick none id (cursors_after i id ps cursors) ps).0 ≡ some p))

-- Some list `us` has each model of a candidate once, with the first candidate of the model, and
-- nothing else. In as many consecutive requests as `us` is long, which is the number of distinct
-- models, the first candidate of each model is picked, wherever the cursor starts: with Redis's
-- counter, which gives the next number to each request, and with the process's own cursor when Redis
-- does not answer.
pub round_robin_pick-fair :
    (start id : ℕ) (cursors : ℕ → ℕ) (ps : List Candidate)
    → (us : List Candidate) × IsKeyed model_of us
      × ((k : ℕ) → get model_of k us ≡ get model_of k ps)
      × ((k : ℕ) (p : Candidate)
          → get model_of k ps ≡ some p
          → HasTurn start id cursors ps (length us) p)
round_robin_pick-fair start id cursors ps =
    let us = unique_pairs [] ps in
    (
      us,
      unique_pairs-IsKeyed [] ps,
      λ k. get-unique_pairs [] ps k refl,
      λ k p h.
          let (j, inside, is) = place_of k us p (get-unique_pairs [] ps k refl ∙ h) in
          let ((i, lt_i, a), (l, lt_l, b)) = turn_of start id j cursors ps inside in
          ((i, lt_i, a ∙ is), (l, lt_l, b ∙ is)),
    )
