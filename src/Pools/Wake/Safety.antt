-- ===== src/Pools/Wake/Safety.antt =====
-- No worker sleeps through a task.
use parallel_operations_tool.Prelude.{
  ℕ, ◌^◌, ◌<◌, ◌≡◌, ◌≢◌, ◌⊎◌, inl, inr, refl, subst, List, [], ◌∷◌,
}
use parallel_operations_tool.Pools.Wake.{idle, blocked, System, Reach}
use parallel_operations_tool.Pools.Wake.Invariant.{IsAwake, InCall, SomeAwake, Reach-Inv}

module _ {T : Type 0} where
  List-cases : (ts : List T) → (ts ≡ []) ⊎ (ts ≢ [])
  List-cases [] = inl refl
  List-cases (t ∷ ts) = inr (λ e. cc)

  -- On at least one worker and with fewer than 2 ^ 64 submissions, while there is a task in the
  -- queue some call of `derived_execute` is not done, or some worker will look into the queue again
  -- without being woken.
  pub task_attended :
      (n k : ℕ) (s : System T)
      → 0 < n
      → Reach n k s
      → k < 2 ^ 64
      → s.tasks ≢ []
      → InCall s ⊎ SomeAwake n s
  task_attended n k s pos r small ne = (Reach-Inv n k pos r small).0.attended ne

  -- Under the same bounds, when every call is done and every worker is blocked, the queue is empty.
  pub asleep_empty :
      (n k : ℕ) (s : System T)
      → 0 < n
      → Reach n k s
      → k < 2 ^ 64
      → ((i : ℕ) → s.submitters i ≡ idle)
      → ((j : ℕ) → j < n → (seen : ℕ) × (s.workers j ≡ blocked seen))
      → s.tasks ≡ []
  asleep_empty n k s pos r small done asleep = elim (List-cases s.tasks) [
    | inl empty ↦ empty
    | inr ne ↦ elim (task_attended n k s pos r small ne) [
      | inl (i, busy) ↦ absurd (busy (done i))
      | inr (j, lt, awake) ↦
          let (seen, e) = asleep j lt in absurd (subst (IsAwake s.notifier) e awake)
    ]
  ]
