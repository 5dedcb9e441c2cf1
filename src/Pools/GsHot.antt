-- ===== src/Pools/GsHot.antt =====
-- `thread_pool_executor_gs_hot`: one deque for all threads.
use parallel_operations_tool.Prelude.{ℕ, Bool, List, []}
use parallel_operations_tool.Pools.{
  Global, Submitted, Turn, init_global, submit_global, shutdown_global, turn_global, put_hot,
  take_first,
}

module _ {ℓ} {T : Type ℓ} where
  unfoldable pub init : ℕ → Global (List T)
  init num_threads = init_global [] num_threads

  -- `runs` is the `run_count` of the coroutine, or 0 where there is none.
  unfoldable pub derived_execute : Global (List T) → ℕ → T → Submitted (Global (List T))
  derived_execute p runs func = submit_global (put_hot runs func) p

  unfoldable pub shutdown : Global (List T) → Global (List T)
  shutdown p = shutdown_global p

  -- A round of `worker_loop`.
  unfoldable pub turn : Bool → Bool → Global (List T) → Turn T × Global (List T)
  turn stop stop_again p = turn_global take_first stop stop_again p
