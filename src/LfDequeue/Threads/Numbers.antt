-- ===== src/LfDequeue/Threads/Numbers.antt =====
-- Lists of the numbers of pushes, and the operations of the list with two ends on them.
use parallel_operations_tool.Prelude.{
  ℕ, zero, suc, ◌+◌, ◌-◌, ◌≤◌, ◌<◌, ◌≡◌, refl, ap, ap₂, ◌∙◌, some, List, [], ◌∷◌, ◌++◌, arith,
  update, update_self, update_ne,
}
use parallel_operations_tool.Deque

-- The numbers of `n` indices from `a` on.
abbrev pub numbers_from : (ℕ → ℕ) → ℕ → ℕ → List ℕ
numbers_from f a zero = []
numbers_from f a (suc n) = f a ∷ numbers_from f (a + 1) n

pub numbers_from-snoc :
    (f : ℕ → ℕ) (a n e : ℕ)
    → a + n ≡ e
    → numbers_from f a (suc n) ≡ numbers_from f a n ++ (f e ∷ [])
numbers_from-snoc f a zero e h = ap (λ i. f i ∷ []) (omega arith)
numbers_from-snoc f a (suc n) e h =
    ap (λ l. f a ∷ l) (numbers_from-snoc f (a + 1) n e (omega arith))

pub numbers_from-update :
    (f : ℕ → ℕ) (a n e j : ℕ) → a + n ≤ e → numbers_from (update f e j) a n ≡ numbers_from f a n
numbers_from-update f a zero e j h = refl
numbers_from-update f a (suc n) e j h =
    ap₂ ◌∷◌ (update_ne f e j a (omega arith)) (numbers_from-update f (a + 1) n e j (omega arith))

-- The first and the last one are taken.
pub numbers_from-pop_top :
    (f : ℕ → ℕ) (a t e : ℕ)
    → a ≡ t
    → t < e
    → Deque.pop_top (numbers_from f a (e - a)) ≡ (some (f t), numbers_from f (t + 1) (e - (t + 1)))
unfolding Deque.pop_top
numbers_from-pop_top f a t e same h =
    let one_more : e - a ≡ suc (e - (t + 1)) = omega (arith, same, h) in rw (one_more, same)

pub numbers_from-pop_bottom :
    (f : ℕ → ℕ) (a b e : ℕ)
    → a ≤ e
    → b ≡ e + 1
    → Deque.pop_bottom (numbers_from f a (b - a)) ≡ (some (f e), numbers_from f a (e - a))
numbers_from-pop_bottom f a b e h k =
    let one_more : b - a ≡ suc (e - a) = omega (arith, h, k) in
    rw one_more (
      ap Deque.pop_bottom (numbers_from-snoc f a (e - a) e (omega arith))
      ∙ Deque.pop_bottom-snoc (numbers_from f a (e - a)) (f e))

pub numbers_from-push :
    (f : ℕ → ℕ) (a e j : ℕ)
    → a ≤ e
    → numbers_from (update f e j) a (e + 1 - a) ≡ numbers_from f a (e - a) ++ (j ∷ [])
numbers_from-push f a e j h =
    let one_more : e + 1 - a ≡ suc (e - a) = omega arith in
    rw one_more (
      numbers_from-snoc (update f e j) a (e - a) e (omega arith)
      ∙ ap₂ ◌++◌ (numbers_from-update f a (e - a) e j (omega arith))
          (ap (λ n. n ∷ []) (update_self f e j)))

pub pop_top-cons : (xs ys : List ℕ) (j : ℕ) → Deque.pop_top xs ≡ (some j, ys) → xs ≡ j ∷ ys
unfolding Deque.pop_top
pop_top-cons [] ys j h = cc
pop_top-cons (x ∷ xs) ys j h = cc

pub pop_bottom-append :
    (xs ys : List ℕ) (j : ℕ) → Deque.pop_bottom xs ≡ (some j, ys) → xs ≡ ys ++ (j ∷ [])
unfolding Deque.pop_bottom
pop_bottom-append [] ys j h = cc
pop_bottom-append (x ∷ []) ys j h = cc
pop_bottom-append (x ∷ y ∷ xs) ys j h =
    let rest = Deque.pop_bottom (y ∷ xs) in
    let last : rest.0 ≡ some j = cc in
    let front : x ∷ rest.1 ≡ ys = cc in
    rw (← front)
      (ap (λ l. x ∷ l) (pop_bottom-append (y ∷ xs) rest.1 j (ap (λ o. (o, rest.1)) last)))
