-- ===== src/Table.antt =====
-- Tables of rows with a primary key: `db.get`, and an UPDATE of the row with a given key.
pub mod Laws
use llmxy.Prelude.{ℕ, Option, none, some, List, [], ◌∷◌, ◌==◌, if◌then◌else◌, ◌≡◌}

module _ {ℓ} {A : Type ℓ} (key : A → ℕ) where
  unfoldable pub get : ℕ → List A → Option A
  get k [] = none
  get k (r ∷ rs) = if key r == k then some r else get k rs

  -- UPDATE ... SET ... WHERE id = k
  unfoldable pub update : ℕ → (A → A) → List A → List A
  update k f [] = []
  update k f (r ∷ rs) = (if key r == k then f r else r) ∷ update k f rs

  -- No key stands in two rows.
  abbrev pub IsKeyed : List A → Type ℓ
  IsKeyed [] = Unit
  IsKeyed (r ∷ rs) = (get (key r) rs ≡ none) × IsKeyed rs
