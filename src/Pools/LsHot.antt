-- ===== src/Pools/LsHot.antt =====
-- `thread_pool_executor_ls_hot`: a deque for each thread.
use parallel_operations_tool.Prelude.{ℕ, Bool, List, []}
use parallel_operations_tool.Pools.{
  Local, Submitted, Turn, init_local, submit_local, shutdown_local, turn_local, put_hot, take_own,
}

module _ {ℓ} {T : Type ℓ} where
  unfoldable pub init : ℕ → Local (List T)
  init num_threads = init_local [] num_threads

  -- `runs` is the `run_count` of the coroutine, or 0 where there is none.
  unfoldable pub derived_execute : Local (List T) → ℕ → T → Submitted (Local (List T))
  derived_execute p runs func = submit_local (put_hot runs func) p

  unfoldable pub shutdown : Local (List T) → Local (List T)
  shutdown p = shutdown_local p

  -- A round of `worker_loop` of the worker `i`.
  unfoldable pub turn : Bool → Bool → ℕ → Local (List T) → Turn T × Local (List T)
  turn stop stop_again i p = turn_local take_own stop stop_again i p
