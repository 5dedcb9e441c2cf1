-- ===== src/LfQueue/Client.antt =====
-- A client's calls on one queue, against the bounded queue.
use parallel_operations_tool.Prelude.{
  ℕ, suc, ◌+◌, ◌<◌, ◌≤◌, ◌≡◌, refl, ap, Option, some, none, List, [], ◌∷◌, length, arith, ◌>>=◌,
}
use parallel_operations_tool.BoundedQueue
use parallel_operations_tool.BoundedQueue.{Op, put, get, Reply, accepted, popped}
use parallel_operations_tool.LfQueue.{capacity, limit, LfQueue, push, pop}
use parallel_operations_tool.LfQueue.Refine.{IsValid, contents, Refines, push-Refines, pop-Refines}

module _ {A : Type 0} where
  -- The calls in order; `none` if a call runs out of fuel.
  unfoldable pub run : ℕ → LfQueue A → List (Op A) → Option (List (Reply A))
  run fuel q [] = some []
  run fuel q (put x ∷ ops) = do
    (b, q') ← push fuel q x
    replies ← run fuel q' ops
    some (accepted b ∷ replies)
  run fuel q (get ∷ ops) = do
    (o, q') ← pop fuel q
    replies ← run fuel q' ops
    some (popped o ∷ replies)

  -- What a call that refines its specification leads to.
  Refines-eq :
      {R : Type 0} {n : ℕ} (m : Option (R × LfQueue A)) (spec : R × List A)
      → Refines n m spec
      → (q : LfQueue A) × (m ≡ some (spec.0, q))
        × IsValid q
        × (q.enqueue_pos ≤ n)
        × (contents q ≡ spec.1)
  Refines-eq none spec h = elim h [ ]
  Refines-eq (some (r, q)) spec (v, le, e) =
      (q, ap (λ x. some (x, q)) (ap (λ p. p.0) e), v, le, ap (λ p. p.1) e)

  -- No sequence of calls tells a valid queue from the bounded queue of its contents, as long as the
  -- positions stay below `limit`; each call needs one round of its loop.
  pub run_refines :
      (fuel : ℕ) (ops : List (Op A)) {q : LfQueue A}
      → IsValid q
      → q.enqueue_pos + length ops < limit
      → run (suc fuel) q ops ≡ some (BoundedQueue.run capacity (contents q) ops)
  unfolding run BoundedQueue.run
  run_refines fuel [] v lim = refl
  run_refines fuel (put x ∷ ops) {q} v lim =
      let (q', e, v', le, c) =
        Refines-eq _ (BoundedQueue.push capacity (contents q) x)
          (push-Refines fuel x v (omega arith)) in
      rw (e, run_refines fuel ops v' (omega arith), c)
  run_refines fuel (get ∷ ops) {q} v lim =
      let (q', e, v', le, c) = Refines-eq _ (BoundedQueue.pop (contents q)) (pop-Refines fuel v) in
      rw (e, run_refines fuel ops v' (omega arith), c)
