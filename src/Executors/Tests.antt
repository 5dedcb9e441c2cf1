-- ===== src/Executors/Tests.antt =====
-- Runs of a pool with one worker, and of one with two threads of their own queues.
use parallel_operations_tool.Prelude.{
  ℕ, ◌+◌, ◌<◌, ◌≡◌, ◌≢◌, ◌⊎◌, refl, true, [], ◌∷◌, ◌++◌, length, arith, update,
}
use parallel_operations_tool.Executors.{
  pool, idle, pushed, outside, stopping, joining, starting, awake, asleep, running, returned,
  missed, System, push, shutdown, notify_all, begin, miss, leave, take, finish, wait, start_system,
  Reach, start, later, woken,
}
use parallel_operations_tool.Executors.Safety.{
  InCall, SomeAwake, AllEnded, queue_attended, shutdown_wakes, shutdown_drains,
}
use parallel_operations_tool.Schedule.{count}
use parallel_operations_tool.Threads.Locked
use parallel_operations_tool.Executors.RoundRobin
use parallel_operations_tool.Executors.RoundRobin.{Pool, locked, new_pool, turns}
use parallel_operations_tool.Executors.RoundRobin.Turns.{indices_in_turn, under_way}

-- A task is pushed while the worker waits.
abbrev attended : System ℕ
attended = record (start_system pool) {
  tasks = 7 ∷ [];
  workers = update (update (λ j. starting) 0 awake) 0 asleep;
  submitters = update (λ i. idle) 0 pushed;
  accepted = 7 ∷ [];
}

attended-Reach : Reach pool 1 attended
attended-Reach =
    later (later (later start (begin 0 (omega arith) refl)) (wait 0 (omega arith) refl refl refl))
      (push 0 7 refl refl)

queue_attended_example :
    InCall pool 1 attended ⊎ SomeAwake 1 attended.workers ⊎ AllEnded 1 attended.workers
queue_attended_example = queue_attended pool 1 attended-Reach (λ e. cc)

-- One task is run, and the pool is shut down.
abbrev shut : System ℕ
shut = record (start_system pool) {
  stop = true;
  workers =
      update (λ j. woken (update (update (update (λ j. starting) 0 awake) 0 running) 0 awake j)) 0
        returned;
  submitters = update (λ i. idle) 0 pushed;
  closers = update (update (λ k. outside) 0 stopping) 0 joining;
  accepted = 7 ∷ [];
  taken = 7 ∷ [];
}

shut-Reach : Reach pool 1 shut
shut-Reach =
    later
      (later
        (later
          (later
            (later (later (later start (push 0 7 refl refl)) (begin 0 (omega arith) refl))
              (take 0 7 [] (omega arith) refl refl))
            (finish 0 (omega arith) refl))
          (shutdown 0 refl refl))
        (notify_all 0 refl))
      (leave 0 (omega arith) refl refl refl)

shutdown_drains_example :
    (shut.accepted ≡ shut.taken ++ shut.tasks)
    × ((j : ℕ) → j < 1 → shut.workers j ≡ returned → shut.accepted ≡ shut.taken)
shutdown_drains_example = shutdown_drains 1 shut-Reach

shutdown_wakes_example : shut.workers 0 ≢ asleep
shutdown_wakes_example = shutdown_wakes pool 1 shut-Reach 0 0 refl (omega arith)

-- The pool is shut down before its thread has taken `worker_loop`: the destructor of the thread asks
-- it to stop, and the accepted task is never run.
abbrev dropped : System ℕ
dropped = record (start_system pool) {
  tasks = 7 ∷ [];
  stop = true;
  workers = update (λ j. woken starting) 0 missed;
  submitters = update (λ i. idle) 0 pushed;
  closers = update (update (λ k. outside) 0 stopping) 0 joining;
  accepted = 7 ∷ [];
}

dropped_test : Reach pool 1 dropped
dropped_test =
    later
      (later (later (later start (push 0 7 refl refl)) (shutdown 0 refl refl)) (notify_all 0 refl))
      (miss 0 0 (omega arith) refl refl)

abbrev first_thread : Locked.System ℕ
first_thread = record Locked.start_system {
  queue = 7 ∷ [];
  callers = update (λ i. Locked.idle) 0 Locked.pushed;
  accepted = 7 ∷ [];
}

-- One task is submitted, to the first of two threads.
abbrev one_task : Pool (Locked.System ℕ)
one_task = record (new_pool (locked ℕ) 2 1) {
  threads = update (λ j. Locked.start_system) 0 first_thread;
  next_thread_idx = 1;
  submitters =
      update
        (update (update (λ i. RoundRobin.outside) 0 RoundRobin.checked) 0 (RoundRobin.chosen 0)) 0
        (RoundRobin.calling 0);
  choices = 0 ∷ [];
  submitted = 0 ∷ [];
}

one_task-Reach : RoundRobin.Reach (locked ℕ) 2 1 1 one_task
one_task-Reach =
    RoundRobin.later
      (RoundRobin.draw
        (RoundRobin.later RoundRobin.start (RoundRobin.check 0 (omega arith) refl refl))
        (RoundRobin.choose 0 refl))
      (RoundRobin.submit 0 0 7 first_thread refl refl (Locked.push 0 7 refl tt) refl)

indices_in_turn_example :
    ((j : ℕ)
      → count j (turns (locked ℕ) 2 1 1)
        ≡ length (one_task.threads j).accepted + under_way (locked ℕ) 2 1 j one_task)
    × ((j : ℕ) → Locked.Reach (one_task.threads j))
indices_in_turn_example = indices_in_turn (locked ℕ) 2 1 1 one_task-Reach (omega arith)
