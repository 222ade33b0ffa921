-- ===== src/Rows.antt =====
-- The clauses of SQL's SELECT on lists of rows: WHERE, ORDER BY, and LIMIT with OFFSET.
use e5renew.Prelude.{Bool, List, [], ◌∷◌, if◌then◌else◌, take, drop}
use e5renew.Prelude.Int.{ℤ, pos, negsuc}
use e5renew.Text.{codes}
use e5renew.Failure.{other, Result, ok, err}

module _ {ℓ} {A : Type ℓ} where
  unfoldable pub keep : (A → Bool) → List A → List A
  keep p [] = []
  keep p (x ∷ xs) = let rest = keep p xs in if p x then x ∷ rest else rest

  -- ORDER BY: a stable insertion sort
  unfoldable pub insert_by : (A → A → Bool) → A → List A → List A
  insert_by le x [] = x ∷ []
  insert_by le x (y ∷ ys) = let rest = insert_by le x ys in if le x y then x ∷ y ∷ ys else y ∷ rest

  unfoldable pub order_by : (A → A → Bool) → List A → List A
  unfolding insert_by
  order_by le [] = []
  order_by le (x ∷ xs) = insert_by le x (order_by le xs)

  -- LIMIT … OFFSET …, where both engines refuse negative numbers
  unfoldable pub page_of : ℤ → ℤ → List A → Result (List A)
  page_of (pos limit) (pos offset) rows = ok (take limit (drop offset rows))
  page_of (pos limit) (negsuc offset) rows = err (other (codes "negative LIMIT or OFFSET"))
  page_of (negsuc limit) offset rows = err (other (codes "negative LIMIT or OFFSET"))
