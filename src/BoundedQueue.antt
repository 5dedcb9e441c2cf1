-- ===== src/BoundedQueue.antt =====
-- What a bounded queue promises: a list of at most `cap` messages, oldest first.
use parallel_operations_tool.Prelude.{
  ℕ, ◌≡◌, arith, ◌==◌, if◌then◌else◌, Bool, true, false, Option, none, some, List, [], ◌∷◌, ◌++◌,
  length,
}

module _ {ℓ} {A : Type ℓ} where
  unfoldable pub push : ℕ → List A → A → Bool × List A
  push cap xs x = if length xs == cap then (false, xs) else (true, xs ++ (x ∷ []))

  unfoldable pub pop : List A → Option A × List A
  pop [] = (none, [])
  pop (x ∷ xs) = (some x, xs)

-- A client's calls in order, and what each returns.
pub data Op {ℓ} (A : Type ℓ) : Type ℓ where
  put : A → Op A
  get : Op A

pub data Reply {ℓ} (A : Type ℓ) : Type ℓ where
  accepted : Bool → Reply A
  popped : Option A → Reply A

module _ {ℓ} {A : Type ℓ} where
  unfoldable pub run : ℕ → List A → List (Op A) → List (Reply A)
  run cap xs [] = []
  run cap xs (put x ∷ ops) = let (b, ys) = push cap xs x in accepted b ∷ run cap ys ops
  run cap xs (get ∷ ops) = let (o, ys) = pop xs in popped o ∷ run cap ys ops

module _ {ℓ} {A : Type ℓ} where
  -- What a successful call tells of the queue.
  pub push-true :
      (cap : ℕ) (xs : List A) (x : A) {ys : List A}
      → push cap xs x ≡ (true, ys)
      → ys ≡ xs ++ (x ∷ [])
  unfolding push
  push-true cap xs x h = ground arith

  pub pop-some : (xs : List A) {x : A} {ys : List A} → pop xs ≡ (some x, ys) → xs ≡ x ∷ ys
  unfolding pop
  pop-some xs h = ground arith

  pub pop-none : (xs : List A) {ys : List A} → pop xs ≡ (none, ys) → xs ≡ []
  unfolding pop
  pop-none xs h = ground arith
