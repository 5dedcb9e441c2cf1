-- ===== src/Pools/Lfgq.antt =====
-- `thread_pool_executor_lfgq`: one lock-free queue for all threads.
use parallel_operations_tool.Prelude.{ℕ, Bool, List, []}
use parallel_operations_tool.Pools.{
  Global, Submitted, Turn, init_global, submit_global, shutdown_global, turn_global, put_bounded,
  take_first,
}

module _ {ℓ} {T : Type ℓ} where
  unfoldable pub init : ℕ → Global (List T)
  init num_threads = init_global [] num_threads

  unfoldable pub derived_execute : Global (List T) → T → Submitted (Global (List T))
  derived_execute p func = submit_global (put_bounded func) p

  unfoldable pub shutdown : Global (List T) → Global (List T)
  shutdown p = shutdown_global p

  -- A round of `worker_loop`.
  unfoldable pub turn : Bool → Bool → Global (List T) → Turn T × Global (List T)
  turn stop stop_again p = turn_global take_first stop stop_again p
