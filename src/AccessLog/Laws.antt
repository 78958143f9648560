-- ===== src/AccessLog/Laws.antt =====
-- The buffers against the whole log of each node.
use llmxy.Prelude.{
  ℕ, zero, suc, ◌-◌, ◌≤◌, min, List, [], ◌∷◌, ◌++◌, true, false, ◌≡◌, refl, sym, ap, ◌∙◌, arith,
  Bool-cases, inl, inr, length, length-append, ltb, leb, if◌then◌else◌, String, str_eq, eq_iff,
}
use llmxy.AccessLog.{
  Buffers, max_lines_per_node, find, put, drop_extra, push, lines_of, append, drop, slice_last,
  tail, clear,
}

-- The last `n` lines.
unfoldable pub recent : ℕ → List String → List String
recent n [] = []
recent n (x ∷ xs) = let rest = recent n xs in if leb (suc (length xs)) n then x ∷ xs else rest

recent-all : (n : ℕ) (xs : List String) → length xs ≤ n → recent n xs ≡ xs
unfolding recent
recent-all n [] h = refl
recent-all n (x ∷ xs) h = ground (arith, h)

push-recent :
    (n : ℕ) (l : String) (xs : List String)
    → 1 ≤ n
    → push n l (recent n xs) ≡ recent n (xs ++ (l ∷ []))
unfolding push drop_extra recent
push-recent n l [] h = ground (arith, h)
push-recent n l (x ∷ xs) h = elim (Bool-cases (leb (suc (length xs)) n)) [
  | inl fits ↦
      let room : length xs ≤ n = ground (arith, fits) in
      let long = length-append xs (l ∷ []) in
      (elim (Bool-cases (leb (suc (length (xs ++ (l ∷ [])))) n)) [
        | inl both ↦
            let free : ltb n (suc (length (xs ++ (l ∷ [])))) ≡ false = ground (arith, both) in
            rw (fits, both, free) refl
        | inr full ↦
            let over : ltb n (suc (length (xs ++ (l ∷ [])))) ≡ true = ground (arith, full) in
            let kept : length (xs ++ (l ∷ [])) ≤ n = ground (arith, fits, long) in
            rw (fits, full, over) (sym (recent-all n (xs ++ (l ∷ [])) kept))
      ])
  | inr more ↦
      let long : leb (suc (length (xs ++ (l ∷ [])))) n ≡ false =
        ground (arith, more, length-append xs (l ∷ [])) in
      rw (more, long) (push-recent n l xs h)
]

drop-recent : (n : ℕ) (xs : List String) → drop (length xs - n) xs ≡ recent n xs
unfolding drop recent
drop-recent n [] = rw none_left refl
  where
    none_left : 0 - n ≡ 0
    none_left = omega arith
drop-recent n (x ∷ xs) = elim (Bool-cases (leb (suc (length xs)) n)) [
  | inl fits ↦ let gone : suc (length xs) - n ≡ 0 = ground (arith, fits) in rw (fits, gone) refl
  | inr more ↦
      let left : suc (length xs) - n ≡ suc (length xs - n) = ground (arith, more) in
      rw (more, left) (drop-recent n xs)
]

recent-recent : (n m : ℕ) (xs : List String) → recent n (recent m xs) ≡ recent (min n m) xs
unfolding recent
recent-recent n m [] = refl
recent-recent n m (x ∷ xs) = ground (arith, recent-recent n m xs, recent-all m xs)

pub data Call : Type 0 where
  appended : String → String → Call
  cleared : String → Call

unfoldable pub step : Call → Buffers → Buffers
unfolding append clear
step (appended id line) bs = append id line bs
step (cleared id) bs = clear id bs

unfoldable pub run : List Call → Buffers → Buffers
unfolding step
run [] bs = bs
run (c ∷ cs) bs = run cs (step c bs)

unfoldable pub logged : String → Call → List String → List String
logged id (appended k line) xs = if str_eq id k then xs ++ (line ∷ []) else xs
logged id (cleared k) xs = if str_eq id k then [] else xs

-- The whole log of a node since it was last cleared.
unfoldable pub log_of : String → List Call → List String → List String
unfolding logged
log_of id [] xs = xs
log_of id (c ∷ cs) xs = log_of id cs (logged id c xs)

other : (id k j : String) → str_eq id j ≡ true → str_eq k j ≡ false → str_eq id k ≡ false
other id k j is apart = elim (Bool-cases (str_eq id k)) [
  | inl same ↦ let there : str_eq k j ≡ true = rw (sym ((eq_iff id k).0 same)) is in ground arith
  | inr done ↦ done
]

find-put :
    (id k : String) (buf : List String) (bs : Buffers)
    → lines_of (find id (put k buf bs)) ≡ (if str_eq id k then buf else lines_of (find id bs))
unfolding find put
find-put id k buf [] = elim (Bool-cases (str_eq id k)) [
  | inl is ↦ rw is refl
  | inr apart' ↦ rw apart' refl
]
find-put id k buf ((j, old) ∷ rest) = elim (Bool-cases (str_eq k j)) [
  | inl same ↦
      let is : k ≡ j = (eq_iff k j).0 same in
      rw (same, is) (elim (Bool-cases (str_eq id j)) [ inl a ↦ rw a refl | inr a ↦ rw a refl ])
  | inr apart ↦ (elim (Bool-cases (str_eq id j)) [
    | inl is ↦ rw (apart, is, other id k j is apart) refl
    | inr apart' ↦ rw (apart, apart') (find-put id k buf rest)
  ])
]

find-clear :
    (id k : String) (bs : Buffers)
    → lines_of (find id (clear k bs)) ≡ (if str_eq id k then [] else lines_of (find id bs))
unfolding find clear
find-clear id k [] = elim (Bool-cases (str_eq id k)) [
  | inl is ↦ rw is refl
  | inr apart' ↦ rw apart' refl
]
find-clear id k ((j, old) ∷ rest) = elim (Bool-cases (str_eq k j)) [
  | inl same ↦
      let is : k ≡ j = (eq_iff k j).0 same in
      rw same (
        find-clear id k rest
        ∙ rw is (elim (Bool-cases (str_eq id j)) [ inl a ↦ rw a refl | inr a ↦ rw a refl ]))
  | inr apart ↦ (elim (Bool-cases (str_eq id j)) [
    | inl is ↦ rw (apart, is, other id k j is apart) refl
    | inr apart' ↦ rw (apart, apart') (find-clear id k rest)
  ])
]

step-recent :
    (id : String) (c : Call) (bs : Buffers) (xs : List String)
    → str_eq id "" ≡ false
    → lines_of (find id bs) ≡ recent max_lines_per_node xs
    → lines_of (find id (step c bs)) ≡ recent max_lines_per_node (logged id c xs)
unfolding step append logged
step-recent id (appended k line) bs xs named h = elim (Bool-cases (str_eq k "")) [
  | inl blank ↦
      let apart : str_eq id k ≡ false = rw ((eq_iff k "").0 blank) named in rw (blank, apart) h
  | inr full ↦ rw full (
      find-put id k (push max_lines_per_node line (lines_of (find k bs))) bs
      ∙ (elim (Bool-cases (str_eq id k)) [
        | inl same ↦
            let here : lines_of (find k bs) ≡ recent max_lines_per_node xs =
              rw (sym ((eq_iff id k).0 same)) h in
            rw (same, here) (push-recent max_lines_per_node line xs (omega arith))
        | inr apart ↦ rw apart h
      ]))
]
step-recent id (cleared k) bs xs named h = find-clear id k bs ∙ (elim (Bool-cases (str_eq id k)) [
  | inl same ↦ rw same (unfold recent in refl)
  | inr apart ↦ rw apart h
])

run-recent :
    (id : String) (calls : List Call) (bs : Buffers) (xs : List String)
    → str_eq id "" ≡ false
    → lines_of (find id bs) ≡ recent max_lines_per_node xs
    → lines_of (find id (run calls bs)) ≡ recent max_lines_per_node (log_of id calls xs)
unfolding run log_of
run-recent id [] bs xs named h = h
run-recent id (c ∷ cs) bs xs named h =
    run-recent id cs (step c bs) (logged id c xs) named (step-recent id c bs xs named h)

tail-recent :
    (id : String) (n : ℕ) (bs : Buffers) → 1 ≤ n → tail id n bs ≡ recent n (lines_of (find id bs))
unfolding tail slice_last
tail-recent id zero bs h = ground arith
tail-recent id (suc n) bs h = elim (Bool-cases (leb (length (lines_of (find id bs))) (suc n))) [
  | inl fits ↦ rw fits (sym (recent-all (suc n) (lines_of (find id bs)) (ground (arith, fits))))
  | inr more ↦ rw more (drop-recent (suc n) (lines_of (find id bs)))
]

-- For a node with a name and at least one line asked for, whatever lines the nodes append and whichever
-- buffers are cleared in between, the tail is the last lines of the node's whole log since it was
-- cleared: as many as are asked for, but 500 at most.
pub tail-run :
    (id : String) (n : ℕ) (calls : List Call)
    → str_eq id "" ≡ false
    → 1 ≤ n
    → tail id n (run calls []) ≡ recent (min n max_lines_per_node) (log_of id calls [])
tail-run id n calls named some_lines =
    tail-recent id n (run calls []) some_lines
    ∙ ap (recent n) (run-recent id calls [] [] named (unfold find recent in refl))
    ∙ recent-recent n max_lines_per_node (log_of id calls [])
