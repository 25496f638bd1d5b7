-- ===== src/Database/Table.antt =====
-- A table is the list of its rows, newest first. SELECT … WHERE is `find?` or `keep` of the
-- prelude; here are ORDER BY, UPDATE … WHERE, DELETE … WHERE and what relates them.
pub mod Laws
use recording.Prelude.{ℕ, ◌+◌, Bool, not, List, [], ◌∷◌, Option, none, some, if◌then◌else◌, keep}

module _ {ℓ} {A : Type ℓ} where
  unfoldable pub update : (A → Bool) → (A → A) → List A → List A
  update p f [] = []
  update p f (x ∷ xs) = (if p x then f x else x) ∷ update p f xs

  unfoldable pub affected : (A → Bool) → List A → ℕ
  affected p [] = 0
  affected p (x ∷ xs) = (if p x then 1 else 0) + affected p xs

  unfoldable pub delete : (A → Bool) → List A → List A
  delete p = keep (λ x. not (p x))

  unfoldable pub insert_ordered : (A → A → Bool) → A → List A → List A
  insert_ordered before x [] = x ∷ []
  insert_ordered before x (y ∷ ys) =
      let rest = insert_ordered before x ys in if before y x then y ∷ rest else x ∷ y ∷ ys

  -- ORDER BY, by the strict order `before`.
  unfoldable pub order_by : (A → A → Bool) → List A → List A
  unfolding insert_ordered
  order_by before [] = []
  order_by before (x ∷ xs) = insert_ordered before x (order_by before xs)

  -- LIMIT 1.
  abbrev pub first? : List A → Option A
  first? [] = none
  first? (x ∷ xs) = some x
