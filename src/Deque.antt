-- ===== src/Deque.antt =====
-- What a deque promises: a list, its top at the front and its bottom at the end.
use parallel_operations_tool.Prelude.{◌≡◌, refl, Option, none, some, List, [], ◌∷◌, ◌++◌}

module _ {ℓ} {A : Type ℓ} where
  unfoldable pub push : List A → A → List A
  push xs x = xs ++ (x ∷ [])

  unfoldable pub pop_top : List A → Option A × List A
  pop_top [] = (none, [])
  pop_top (x ∷ xs) = (some x, xs)

  -- The last element, and the list without it.
  unfoldable pub pop_bottom : List A → Option A × List A
  pop_bottom [] = (none, [])
  pop_bottom (x ∷ []) = (some x, [])
  pop_bottom (x ∷ y ∷ xs) = let (o, ys) = pop_bottom (y ∷ xs) in (o, x ∷ ys)

  pub pop_bottom-snoc : (xs : List A) (x : A) → pop_bottom (xs ++ (x ∷ [])) ≡ (some x, xs)
  unfolding pop_bottom
  pop_bottom-snoc [] x = refl
  pop_bottom-snoc (y ∷ []) x = refl
  pop_bottom-snoc (y ∷ z ∷ xs) x = rw (pop_bottom-snoc (z ∷ xs) x)
