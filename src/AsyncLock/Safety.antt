-- ===== src/AsyncLock/Safety.antt =====
-- What coroutines can rely on, in every state that they can reach: fewer than 2 ^ 31 of them.
use parallel_operations_tool.Prelude.{
  ℕ, ◌^◌, ◌<◌, ◌≡◌, ◌≢◌, ◌⊎◌, refl, Option, some, true, List, [], ◌∷◌, arith, weight-le-sum_of,
  weights-le-sum_of, sum_of-pos, dec_lt, ap, ◌∙◌, length,
}
use parallel_operations_tool.BoundedQueue
use parallel_operations_tool.LfQueue.{capacity}
use parallel_operations_tool.AsyncLock.{
  Waiter, waiter, Pc, outside, arriving, waiting, enqueuing, scheduled, critical, handing, System,
  Step, enqueue, dequeue, Reach,
}
use parallel_operations_tool.AsyncLock.Invariant.{counted, token, waits, entries, Reach-Inv}

-- A coroutine that is counted, holds no token and does not wait is pushing itself.
enqueuing_of_counted :
    (p : Pc)
    → 0 < counted p
    → waits p ≡ 0
    → token p ≡ 0
    → (executor : Option ℕ) × (p ≡ enqueuing executor)
enqueuing_of_counted outside c w t = absurd (omega arith)
enqueuing_of_counted (arriving executor) c w t = absurd (omega arith)
enqueuing_of_counted (enqueuing executor) c w t = (executor, refl)
enqueuing_of_counted waiting c w t = absurd (omega arith)
enqueuing_of_counted scheduled c w t = absurd (omega arith)
enqueuing_of_counted critical c w t = absurd (omega arith)
enqueuing_of_counted handing c w t = absurd (omega arith)

push_nil : (w : Waiter) → BoundedQueue.push capacity [] w ≡ (true, w ∷ [])
unfolding BoundedQueue.push
push_nil w = refl

pop_cons : (w : Waiter) (ws : List Waiter) → BoundedQueue.pop (w ∷ ws) ≡ (some w, ws)
unfolding BoundedQueue.pop
pop_cons w ws = refl

not-cons-eq_self : (w : Waiter) (ws : List Waiter) → ws ≢ w ∷ ws
not-cons-eq_self w ws e = omega (arith, ap length e)

module _ {n : ℕ} {s : System} (few : n < 2 ^ 31) (r : Reach n s) where
  open (Reach-Inv few r) use {state_sum, one_token, queued, others}

  one_holder : (i j : ℕ) → i < j → j < n → 0 < token (s.pc i) → 0 < token (s.pc j) → ⊥
  one_holder i j h k p q = omega (arith, one_token, weights-le-sum_of token n s.pc i j h k)

  holder_inside : (i : ℕ) → 0 < token (s.pc i) → i < n
  holder_inside i h = ground (arith, others i)

  pub token_unique : (i j : ℕ) → 0 < token (s.pc i) → 0 < token (s.pc j) → i ≡ j
  token_unique i j p q = elim (dec_lt i j) [
    | yes h ↦ absurd (one_holder i j h (holder_inside j q) p q)
    | no h ↦ elim (dec_lt j i) [
      | yes k ↦ absurd (one_holder j i k (holder_inside i p) q p)
      | no k ↦ omega arith
    ]
  ]

  -- Two coroutines never hold the lock at once.
  pub mutual_exclusion : (i j : ℕ) → s.pc i ≡ critical → s.pc j ≡ critical → i ≡ j
  mutual_exclusion i j p q = token_unique i j (ground arith) (ground arith)

  -- No wake-up is lost: while a coroutine waits, exactly the coroutine that owes it a wake-up
  -- exists: one that holds the lock, has been handed it, or looks for its successor.
  pub waiter_has_waker :
      (i : ℕ)
      → s.pc i ≡ waiting
      → (j : ℕ) × (j ≢ i) × ((s.pc j ≡ critical) ⊎ (s.pc j ≡ scheduled) ⊎ (s.pc j ≡ handing))
  waiter_has_waker i h =
      let lt : i < n = ground (arith, others i) in
      let (j, inside, w) =
        sum_of-pos token n s.pc
          (ground (arith, one_token, state_sum, weight-le-sum_of counted n s.pc i lt)) in
      (j, ground arith, ground arith)

  -- A coroutine stands in the queue once while it waits, and otherwise not at all.
  pub queue_exact : (i : ℕ) → entries i s.lock.queue ≡ waits (s.pc i)
  queue_exact i = queued i

  -- While one coroutine looks for its successor with the queue empty, another is pushing itself.
  successor :
      (i : ℕ)
      → s.pc i ≡ handing
      → s.lock.queue ≡ []
      → (k : ℕ) × (k < n) × ((executor : Option ℕ) × (s.pc k ≡ enqueuing executor))
  successor i h e =
      let lt : i < n = ground (arith, others i) in
      let (k, inside, c) =
        sum_of-pos counted n s.pc
          (ground (arith, one_token, state_sum, weight-le-sum_of token n s.pc i lt)) in
      let idle : token (s.pc k) ≡ 0 = ground (arith, token_unique i k) in
      (k, inside, enqueuing_of_counted (s.pc k) c (ground (arith, queued k)) idle)

  -- A coroutine that looks for its successor is never stuck: it can pop one, or another coroutine
  -- can push itself.
  pub handing_progress :
      (i : ℕ) → s.pc i ≡ handing → (t : System) × Step n s t × (t.lock.queue ≢ s.lock.queue)
  handing_progress i h = go s.lock.queue refl
    where
      lt : i < n
      lt = ground (arith, others i)

      go :
          (q : List Waiter)
          → s.lock.queue ≡ q
          → (t : System) × Step n s t × (t.lock.queue ≢ s.lock.queue)
      go [] e =
          let (k, inside, some_executor) = successor i h e in
          let (executor, at) = some_executor in
          (
            _,
            enqueue k inside at (
                ap (λ q. BoundedQueue.push capacity q (waiter k executor)) e
                ∙ push_nil (waiter k executor)),
            λ same. ground arith,
          )
      go (w ∷ ws) e = (
        _,
        dequeue i lt h (ap BoundedQueue.pop e ∙ pop_cons w ws),
        λ same. not-cons-eq_self w ws (same ∙ e),
      )
