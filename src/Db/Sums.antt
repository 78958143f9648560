-- ===== src/Db/Sums.antt =====
-- The cents in a table, and how an UPDATE of one row moves them.
use llmxy.Prelude.{
  ℕ, ℤ, pos, ◌+ℤ◌, int_laws, some, List, [], ◌∷◌, ◌≡◌, ◌==◌, arith, ◌++◌, Bool-cases, ==_iff, inl,
  inr,
}
use llmxy.Models.{User, Subscription, Source}
use llmxy.Table.{get, update, IsKeyed}
use llmxy.Table.Laws.{update_absent}

-- The sum of a number over the rows.
unfoldable pub total {ℓ} : {A : Type ℓ} → (A → ℤ) → List A → ℤ
total f [] = pos 0
total f (r ∷ rs) = f r +ℤ total f rs

abbrev pub remaining_of : Subscription → ℤ
remaining_of s = s.remaining_cents

abbrev pub balance_of : User → ℤ
balance_of u = u.balance_cents

abbrev pub amount_of : Source × ℤ → ℤ
amount_of b = b.1

-- Moving the number of the one row with the key moves the sum as much.
pub total-update {ℓ} :
    {A : Type ℓ} (key : A → ℕ) (f : A → ℤ) (g : A → A) (k : ℕ) (rs : List A) (r : A)
    → IsKeyed key rs
    → get key k rs ≡ some r
    → total f (update key k g rs) +ℤ f r ≡ total f rs +ℤ f (g r)
unfolding total get update
total-update key f g k [] r u e = cc
total-update key f g k (x ∷ rs) r u e = elim (Bool-cases (key x == k)) [
  | inl same ↦
      let id : key x ≡ k = (==_iff (key x) k).0 same in
      let row : x ≡ r = ground arith in
      rw (same, update_absent key k g rs (rw (← id) u.0), ← row) (omega int_laws)
  | inr other ↦
      let rest : get key k rs ≡ some r = ground arith in
      let ih = total-update key f g k rs r u.1 rest in rw other (grind (int_laws, ih))
]

pub total-append {ℓ} :
    {A : Type ℓ} (f : A → ℤ) (xs ys : List A) → total f (xs ++ ys) ≡ total f xs +ℤ total f ys
unfolding total
total-append f [] ys = omega int_laws
total-append f (x ∷ xs) ys = rw (total-append f xs ys) (omega int_laws)
