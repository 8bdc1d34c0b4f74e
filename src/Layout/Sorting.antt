-- ===== src/Layout/Sorting.antt =====
-- `sort` of the language: a stable sort. `le a b` says that the comparison of `a` and `b` is not
-- positive.
use flowscape.Base.{Bool, List, [], ◌∷◌, if◌then◌else◌}

module _ {A : Type 0} (le : A → A → Bool) where
  unfoldable pub insert : A → List A → List A
  insert x [] = x ∷ []
  insert x (y ∷ ys) = let rest = insert x ys in if le x y then x ∷ y ∷ ys else y ∷ rest

  unfoldable pub sort_by : List A → List A
  unfolding insert
  sort_by [] = []
  sort_by (x ∷ xs) = insert x (sort_by xs)
