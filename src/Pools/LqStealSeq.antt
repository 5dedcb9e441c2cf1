-- ===== src/Pools/LqStealSeq.antt =====
-- `thread_pool_executor_lq_steal_seq`: a queue for each thread, and a worker whose queue is
-- empty looks into all the others.
use parallel_operations_tool.Prelude.{ℕ, ◌-◌, Bool, Option, List, []}
use parallel_operations_tool.Pools.{
  Local, Submitted, Turn, init_local, submit_local, shutdown_local, turn_local, put_last, take_or,
  steal_seq,
}

module _ {ℓ} {T : Type ℓ} where
  unfoldable pub init : ℕ → Local (List T)
  init num_threads = init_local [] num_threads

  unfoldable pub derived_execute : Local (List T) → T → Submitted (Local (List T))
  derived_execute p func = submit_local (put_last func) p

  unfoldable pub shutdown : Local (List T) → Local (List T)
  shutdown p = shutdown_local p

  -- The loop over the other queues. `is_free j` says whether `try_to_lock` gets the lock of queue `j`.
  unfoldable pub steal : (ℕ → Bool) → ℕ → Local (List T) → Option T × Local (List T)
  steal is_free i p = steal_seq is_free i 1 (p.queues - 1) p

  -- A round of `worker_loop` of the worker `i`.
  unfoldable pub turn : (ℕ → Bool) → Bool → Bool → ℕ → Local (List T) → Turn T × Local (List T)
  turn is_free stop stop_again i p = turn_local (take_or (steal is_free)) stop stop_again i p
