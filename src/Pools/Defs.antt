-- ===== src/Pools/Defs.antt =====
-- The state of an executor with one queue for all threads and of one with a queue for each thread,
-- and the parts of their functions that do not depend on the queue.
use parallel_operations_tool.Prelude.{
  ℕ, zero, suc, ◌+◌, ◌%◌, ◌==◌, leb, if◌then◌else◌, Bool, true, false, Option, none, some, List, [],
  ◌∷◌, ◌++◌, update, add_size, ltb,
}
use parallel_operations_tool.BoundedQueue
use parallel_operations_tool.LfQueue.{capacity}

-- `m_notifier`, `m_stop` and `m_threads.size()`; `Q` is the queue, stack or deque of tasks.
pub record Global {ℓ} (Q : Type ℓ) : Type ℓ where
  pub tasks : Q
  pub notifier : ℕ
  pub stop : Bool
  pub threads : ℕ

-- `thread_context`
pub record Context {ℓ} (Q : Type ℓ) : Type ℓ where
  pub tasks : Q
  pub notifier : ℕ

-- `m_contexts`, one for each of its `queues` indices, and the index of the next submission.
pub record Local {ℓ} (Q : Type ℓ) : Type ℓ where
  pub contexts : ℕ → Context Q
  pub queues : ℕ
  pub next_thread_idx : ℕ
  pub stop : Bool
  pub threads : ℕ

-- What a submission comes to: `stopped` is the `runtime_error`, `no_thread` a division by zero, and
-- `full` a lock-free queue without room, where the caller yields and tries again.
pub data Submitted {ℓ} (S : Type ℓ) : Type ℓ where
  accepted : S → Submitted S
  stopped no_thread full : Submitted S

-- What a round of a worker does: run a task, wait for its notifier to leave a value, or return.
pub data Turn {ℓ} (T : Type ℓ) : Type ℓ where
  run : T → Turn T
  wait : (value : ℕ) → Turn T
  quit : Turn T

module _ {ℓ} {Q : Type ℓ} where
  unfoldable pub init_global : Q → ℕ → Global Q
  init_global empty num_threads = record {
    tasks = empty;
    notifier = 0;
    stop = false;
    threads = num_threads;
  }

  unfoldable pub init_local : Q → ℕ → Local Q
  init_local empty num_threads = record {
    contexts = λ i. record { tasks = empty; notifier = 0 };
    queues = num_threads;
    next_thread_idx = 0;
    stop = false;
    threads = num_threads;
  }

  abbrev pub put_global : Global Q → Q → Global Q
  put_global p q = record p { tasks = q; notifier = add_size p.notifier 1 }

  -- `derived_execute` with one queue; `put` is what it does under the lock.
  unfoldable pub submit_global : (Q → Option Q) → Global Q → Submitted (Global Q)
  submit_global put p =
      if p.stop
      then stopped
      else elim (put p.tasks) [ none ↦ full | some q ↦ accepted (put_global p q) ]

  -- `m_next_thread_idx.fetch_add(1) % m_threads.size()`
  abbrev pub next_queue : Local Q → ℕ
  next_queue p = p.next_thread_idx % p.threads

  abbrev pub put_local : Local Q → Q → Local Q
  put_local p q = record p {
    contexts =
        update p.contexts (next_queue p)
          (record { tasks = q; notifier = add_size (p.contexts (next_queue p)).notifier 1 });
    next_thread_idx = add_size p.next_thread_idx 1;
  }

  -- `derived_execute` with a queue for each thread. Where the queue is full the index is chosen
  -- already, and the caller waits for this queue.
  unfoldable pub submit_local : (Q → Option Q) → Local Q → Submitted (Local Q)
  submit_local put p =
      if p.stop
      then stopped
      else if p.threads == 0
      then no_thread
      else elim (put (p.contexts (next_queue p)).tasks) [
        | none ↦ full
        | some q ↦ accepted (put_local p q)
      ]

  -- The threads are told to stop, woken, joined and removed; the tasks stay in the queue.
  unfoldable pub shutdown_global : Global Q → Global Q
  shutdown_global p =
      if p.stop
      then p
      else record p { stop = true; notifier = add_size p.notifier p.threads; threads = 0 }

  unfoldable pub shutdown_local : Local Q → Local Q
  shutdown_local p = if p.stop then p else record p {
    stop = true;
    contexts = λ i. record (p.contexts i) { notifier = add_size (p.contexts i).notifier 1 };
    threads = 0;
  }

  abbrev pub set_tasks : Local Q → ℕ → Q → Local Q
  set_tasks p i q = record p {
    contexts = update p.contexts i (record (p.contexts i) { tasks = q });
  }

  -- A round of `worker_loop`, with what `st.stop_requested()` says at its start and before the wait.
  unfoldable pub turn_global {κ} :
      {T : Type κ} → (Q → Option T × Q) → Bool → Bool → Global Q → Turn T × Global Q
  turn_global take stop stop_again p =
      if stop
      then (quit, p)
      else let (task, q) = take p.tasks in
        elim task [
          | some t ↦ (run t, record p { tasks = q })
          | none ↦ (if stop_again then quit else wait p.notifier, record p { tasks = q })
        ]

  -- The same for the worker `i`; `take` may look into the other queues.
  unfoldable pub turn_local {κ} :
      {T : Type κ}
      → (ℕ → Local Q → Option T × Local Q)
      → Bool
      → Bool
      → ℕ
      → Local Q
      → Turn T × Local Q
  turn_local take stop stop_again i p =
      if stop
      then (quit, p)
      else let (task, p') = take i p in
        elim task [
          | some t ↦ (run t, p')
          | none ↦ (if stop_again then quit else wait (p.contexts i).notifier, p')
        ]

module _ {ℓ} {T : Type ℓ} where
  -- `tasks.front()` and `tasks.pop()` of a queue, `top()` and `pop()` of a stack, if not empty.
  unfoldable pub take_first : List T → Option T × List T
  take_first [] = (none, [])
  take_first (t ∷ ts) = (some t, ts)

  -- Taking from the worker's own queue.
  unfoldable pub take_own : ℕ → Local (List T) → Option T × Local (List T)
  unfolding take_first
  take_own i p = let (task, q) = take_first (p.contexts i).tasks in (task, set_tasks p i q)

  -- `emplace` on a queue, and on a stack.
  abbrev pub put_last : T → List T → Option (List T)
  put_last f tasks = some (tasks ++ (f ∷ []))

  abbrev pub put_first : T → List T → Option (List T)
  put_first f tasks = some (f ∷ tasks)

  -- The deque of the executors that look at a coroutine's `run_count`: up to ten runs go first.
  abbrev pub put_hot : ℕ → T → List T → Option (List T)
  put_hot runs f tasks = if leb runs 10 then some (f ∷ tasks) else some (tasks ++ (f ∷ []))

  -- `lfqueue::push` and `pop`, as the bounded queue that they implement.
  abbrev pub put_bounded : T → List T → Option (List T)
  put_bounded f tasks =
      let (room, q) = BoundedQueue.push capacity tasks f in if room then some q else none

  -- One queue after the other, from `(i + k) % queues` on for `n` rounds. A queue whose lock is taken
  -- is passed over.
  unfoldable pub steal_seq : (ℕ → Bool) → ℕ → ℕ → ℕ → Local (List T) → Option T × Local (List T)
  steal_seq is_free i k zero p = (none, p)
  steal_seq is_free i k (suc n) p =
      let target = (i + k) % p.queues in
      let rest = steal_seq is_free i (k + 1) n p in
      if is_free target
      then elim (p.contexts target).tasks [ [] ↦ rest | (t ∷ ts) ↦ (some t, set_tasks p target ts) ]
      else rest

  -- The worker's own queue, and then the steal.
  unfoldable pub take_or :
      (ℕ → Local (List T) → Option T × Local (List T))
      → ℕ
      → Local (List T)
      → Option T × Local (List T)
  take_or steal i p = elim (p.contexts i).tasks [
    | [] ↦ if ltb 1 p.queues then steal i p else (none, p)
    | (t ∷ ts) ↦ (some t, set_tasks p i ts)
  ]
