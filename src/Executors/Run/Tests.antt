-- ===== src/Executors/Run/Tests.antt =====
-- A coroutine of `run` on a pool with one worker, and on the inline executor.
use parallel_operations_tool.Prelude.{ℕ, zero, suc, ◌<◌, ◌≡◌, ◌≢◌, ◌≤◌, refl, [], arith}
use parallel_operations_tool.Schedule.{count}
use parallel_operations_tool.Task.{value}
use parallel_operations_tool.Executors
use parallel_operations_tool.Executors.Run.{
  Executor, queue_executor, inline_executor, enter, invoke, queued, broken, System, run, lazy_run,
  await, submit, resume, return, work, Reach, start, later, handed, called, detach,
}
use parallel_operations_tool.Executors.Run.Once.{run_once, inline-fair}
use parallel_operations_tool.Executors.Run.{move, take, call, finish}
use parallel_operations_tool.Executors.Run.Shutdown.{pool-fair, shutdown_calls_all}

record Trace {S : Type 0} (ex : Executor ℕ S) : Type 0 where
  last : System ℕ ℕ S
  reach : Reach ex last

-- The coroutine 0 is handed over, taken, called and ends; the pool is shut down and its worker returns.
shut_down : Trace (queue_executor ℕ Executors.pool 1)
shut_down = record {
  last = _;
  reach =
      later
        (later
          (later
            (later
              (later
                (later
                  (later
                    (later (later start (run 0 refl)) (
                      submit 0 _ refl (move _ (Executors.push 0 0 refl refl) refl (λ j e. e)) refl
                        refl))
                    (work _ (move _ (Executors.begin 0 (omega arith) refl) refl (λ j e. cc)) refl
                      refl))
                  (work _ (take 0 0 [] (omega arith) refl refl) refl refl))
                (resume 0 _ (call 0 0 refl) refl refl))
              (return 0 (value 9) refl))
            (work _ (finish 0 (omega arith) refl refl) refl refl))
          (work _ (move _ (Executors.shutdown 0 refl refl) refl (λ j e. e)) refl refl))
        (work _ (move _ (Executors.leave 0 (omega arith) refl refl refl) refl (λ j e. ground arith))
          refl refl);
}

returned_at : (j : ℕ) → j < 1 → shut_down.last.executor.queue.workers j ≡ Executors.returned
unfolding shut_down
returned_at zero l = refl
returned_at (suc j) l = absurd (omega arith)

shutdown_calls_all_example :
    (shut_down.last.runs 0 ≢ queued)
    × (shut_down.last.runs 0 ≢ handed)
    × (count 0 shut_down.last.executor.queue.accepted ≡ count 0 shut_down.last.invoked)
    × (count 0 shut_down.last.executor.queue.accepted ≤ 1)
shutdown_calls_all_example = shutdown_calls_all 1 0 shut_down.reach (omega arith) returned_at

-- The coroutine 3 of `lazy_run` is awaited and called inside of `derived_execute`.
inline_call : Trace (inline_executor ℕ)
inline_call = record {
  last = _;
  reach =
      later
        (later (later (later start (lazy_run 3 refl)) (await 3 refl))
          (submit 3 _ refl (enter 3) refl refl))
        (resume 3 _ (invoke 3 [] refl) refl refl);
}

run_once_example :
    (inline_call.last.runs 3 ≢ broken)
    × (count 3 inline_call.last.invoked ≡ 1)
    × (inline_call.last.run_count 3 ≡ 1)
unfolding inline_call
run_once_example = run_once (inline_executor ℕ) inline-fair 3 inline_call.reach

pool_test :
    (shut_down.last.runs 0 ≢ broken)
    × (count 0 shut_down.last.invoked ≡ 1)
    × (shut_down.last.run_count 0 ≡ 1)
unfolding shut_down
pool_test = run_once (queue_executor ℕ Executors.pool 1) (pool-fair 1) 0 shut_down.reach

-- A function of `run_detached` runs inside of another one on the inline executor.
nested_call : Trace (inline_executor ℕ)
nested_call = record {
  last = _;
  reach =
      later
        (later
          (later (later start (detach 1 _ refl (enter 1) refl refl))
            (resume 1 _ (invoke 1 [] refl) refl refl))
          (detach 2 _ refl (enter 2) refl refl))
        (resume 2 _ (invoke 2 [] refl) refl refl);
}

nested_test : (nested_call.last.runs 1 ≡ called) × (nested_call.last.runs 2 ≡ called)
unfolding nested_call
nested_test = (refl, refl)
