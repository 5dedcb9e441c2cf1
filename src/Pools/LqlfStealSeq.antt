-- ===== src/Pools/LqlfStealSeq.antt =====
-- `thread_pool_executor_lqlf_steal_seq`: a lock-free queue for each thread, and a worker
-- whose queue is empty looks into all the others.
use parallel_operations_tool.Prelude.{
  ℕ, zero, suc, ◌+◌, ◌-◌, Bool, true, Option, none, some, List, [], ◌∷◌,
}
use parallel_operations_tool.Pools.{
  Local, Submitted, Turn, init_local, submit_local, shutdown_local, turn_local, put_bounded,
  take_or, steal_seq, set_tasks,
}

module _ {ℓ} {T : Type ℓ} where
  unfoldable pub init : ℕ → Local (List T)
  init num_threads = init_local [] num_threads

  unfoldable pub derived_execute : Local (List T) → T → Submitted (Local (List T))
  derived_execute p func = submit_local (put_bounded func) p

  unfoldable pub shutdown : Local (List T) → Local (List T)
  shutdown p = shutdown_local p

  -- The loop over the other queues, which have no locks.
  unfoldable pub steal : ℕ → Local (List T) → Option T × Local (List T)
  steal i p = steal_seq (λ j. true) i 1 (p.queues - 1) p

  -- The loop of `try_steal` over the queues from `i` on, `n` of them: the task that it runs, if any.
  unfoldable pub steal_from : ℕ → ℕ → Local (List T) → Option T × Local (List T)
  steal_from i zero p = (none, p)
  steal_from i (suc n) p =
      let rest = steal_from (i + 1) n p in
      elim (p.contexts i).tasks [ [] ↦ rest | (t ∷ ts) ↦ (some t, set_tasks p i ts) ]

  unfoldable pub try_steal : Local (List T) → Option T × Local (List T)
  try_steal p = steal_from 0 p.queues p

  -- A round of `worker_loop` of the worker `i`.
  unfoldable pub turn : Bool → Bool → ℕ → Local (List T) → Turn T × Local (List T)
  turn stop stop_again i p = turn_local (take_or (steal)) stop stop_again i p
