-- ===== src/Barrier/Safety.antt =====
-- When coroutines pass the barrier, and that none is left behind.
use parallel_operations_tool.Prelude.{
  ℕ, ◌^◌, ◌≤◌, ◌<◌, ◌≡◌, ◌≢◌, ◌⊎◌, inl, inr, refl, List, [], ◌∷◌, arith, subst,
}
use parallel_operations_tool.Barrier.{waiting, passed, idle, System, Reach}
use parallel_operations_tool.Barrier.Invariant.{IsIn, Inv, Reach-Inv}

List-cases : (l : List ℕ) → (l ≡ []) ⊎ (l ≢ [])
List-cases [] = inl refl
List-cases (x ∷ xs) = inr (λ e. cc)

module _ (expected n : ℕ) (s : System) (r : Reach expected n s) (small : n < 2 ^ 64) where
  inv : Inv expected s
  inv = (Reach-Inv expected n r small).0

  count_eq : s.barrier.current_count ≡ n
  count_eq = (Reach-Inv expected n r small).1

  -- With fewer than 2 ^ 64 calls of `set`, a coroutine has passed the barrier only when `set` was
  -- called at least the expected number of times.
  pub passes_full : (i : ℕ) → s.pc i ≡ passed → expected ≤ n
  passes_full i e = omega (arith, inv.full i e, count_eq)

  -- Under the same bound, once `set` was called the expected number of times and every call of it
  -- has returned, no coroutine is left suspended in the barrier.
  pub nobody_left : expected ≤ n → ((k : ℕ) → s.setters k ≡ idle) → (i : ℕ) → s.pc i ≢ waiting
  nobody_left le done i w = elim (inv.listed i w) [
    | inl m ↦ elim (List-cases s.barrier.awaiters) [
      | inl empty ↦ subst (IsIn i) empty m
      | inr ne ↦
          let (k, at) = inv.swapped ne (omega (arith, count_eq)) in
          let none : s.setters k ≡ idle = done k in cc
    ]
    | inr (k, l, at, m) ↦ let none : s.setters k ≡ idle = done k in cc
  ]
