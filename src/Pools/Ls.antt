-- ===== src/Pools/Ls.antt =====
-- `thread_pool_executor_ls`: a stack for each thread.
use parallel_operations_tool.Prelude.{ℕ, Bool, List, []}
use parallel_operations_tool.Pools.{
  Local, Submitted, Turn, init_local, submit_local, shutdown_local, turn_local, put_first, take_own,
}

module _ {ℓ} {T : Type ℓ} where
  unfoldable pub init : ℕ → Local (List T)
  init num_threads = init_local [] num_threads

  unfoldable pub derived_execute : Local (List T) → T → Submitted (Local (List T))
  derived_execute p func = submit_local (put_first func) p

  unfoldable pub shutdown : Local (List T) → Local (List T)
  shutdown p = shutdown_local p

  -- A round of `worker_loop` of the worker `i`.
  unfoldable pub turn : Bool → Bool → ℕ → Local (List T) → Turn T × Local (List T)
  turn stop stop_again i p = turn_local take_own stop stop_again i p
