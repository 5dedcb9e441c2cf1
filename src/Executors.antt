-- ===== src/Executors.antt =====
-- The executors with one queue under a mutex: `thread_pool_executor_gq` and `thread_pool_executor_lfgq`
-- of include/pot/executors/thread_pool_executor.h, and `thread_executor` of
-- src/executors/thread_executor.cpp, with `n` workers. A block under the mutex is one step.
pub mod Safety
pub mod Blocks
pub mod RoundRobin
pub mod Run
mod Tests
use parallel_operations_tool.Prelude.{
  ℕ, ◌<◌, ◌≡◌, ◌≢◌, Bool, true, false, List, [], ◌∷◌, ◌++◌, update,
}

-- The pools refuse tasks after a shutdown and shut down once; the executor with one thread of its
-- own, for which `n` is 1, does neither. Both pools wait and take tasks in the same way.
pub data Kind : Type 0 where
  pool single : Kind

-- A caller of `derived_execute`: outside, and between the block with the lock and `notify_one`.
pub data Submitter : Type 0 where
  idle pushed : Submitter

-- A caller of `shutdown`: outside, before the notification, joining the threads, and returned.
pub data Closer : Type 0 where
  outside stopping joining closed : Closer

-- A worker: before `worker_loop`, at the head of its loop or woken, in `wait`, in a task, returned
-- from `worker_loop`, and ended by its thread without having run it.
pub data Worker : Type 0 where
  starting awake asleep running returned missed : Worker

-- `accepted` and `taken` record the tasks that were put into the queue and taken from it.
pub record System (T : Type 0) : Type 0 where
  pub tasks : List T
  pub stop : Bool
  pub workers : ℕ → Worker
  pub submitters : ℕ → Submitter
  pub closers : ℕ → Closer
  pub accepted : List T
  pub taken : List T

abbrev pub Accepts : Kind → Bool → Type 0
Accepts pool stop = stop ≡ false
Accepts single stop = Unit

-- `notify_all` on one worker. With one worker it is what `notify_one` does.
abbrev pub woken : Worker → Worker
woken asleep = awake
woken w = w

-- The thread is done with `worker_loop`.
abbrev pub IsEnded : Worker → Type 0
IsEnded returned = Unit
IsEnded missed = Unit
IsEnded _ = ⊥

-- A wait may also end without a notification. A thread of a pool gets `worker_loop` as its first
-- task, and may see the request to stop of its own destructor, in `m_threads.clear()`, before it.
pub data Step {T : Type 0} (kind : Kind) (n : ℕ) (s : System T) : System T → Type 0 where
  push :
      (i : ℕ) (t : T)
      → s.submitters i ≡ idle
      → Accepts kind s.stop
      → Step kind n s (record s {
        tasks = s.tasks ++ (t ∷ []);
        submitters = update s.submitters i pushed;
        accepted = s.accepted ++ (t ∷ []);
      })
  refuse : (i : ℕ) → s.submitters i ≡ idle → kind ≡ pool → s.stop ≡ true → Step kind n s s
  notify_worker :
      (i j : ℕ)
      → s.submitters i ≡ pushed
      → j < n
      → s.workers j ≡ asleep
      → Step kind n s
          (record s { submitters = update s.submitters i idle; workers = update s.workers j awake })
  notify_nobody :
      (i : ℕ)
      → s.submitters i ≡ pushed
      → ((j : ℕ) → j < n → s.workers j ≢ asleep)
      → Step kind n s (record s { submitters = update s.submitters i idle })
  shutdown :
      (k : ℕ)
      → s.closers k ≡ outside
      → Accepts kind s.stop
      → Step kind n s (record s { stop = true; closers = update s.closers k stopping })
  shutdown_again :
      (k : ℕ)
      → s.closers k ≡ outside
      → kind ≡ pool
      → s.stop ≡ true
      → Step kind n s (record s { closers = update s.closers k closed })
  notify_all :
      (k : ℕ)
      → s.closers k ≡ stopping
      → Step kind n s
          (record s { workers = λ j. woken (s.workers j); closers = update s.closers k joining })
  join :
      (k : ℕ)
      → s.closers k ≡ joining
      → ((j : ℕ) → j < n → IsEnded (s.workers j))
      → Step kind n s (record s { closers = update s.closers k closed })
  begin :
      (j : ℕ)
      → j < n
      → s.workers j ≡ starting
      → Step kind n s (record s { workers = update s.workers j awake })
  miss :
      (j k : ℕ)
      → j < n
      → s.workers j ≡ starting
      → s.closers k ≡ joining
      → Step kind n s (record s { workers = update s.workers j missed })
  wake :
      (j : ℕ)
      → j < n
      → s.workers j ≡ asleep
      → Step kind n s (record s { workers = update s.workers j awake })
  wait :
      (j : ℕ)
      → j < n
      → s.workers j ≡ awake
      → s.stop ≡ false
      → s.tasks ≡ []
      → Step kind n s (record s { workers = update s.workers j asleep })
  leave :
      (j : ℕ)
      → j < n
      → s.workers j ≡ awake
      → s.stop ≡ true
      → s.tasks ≡ []
      → Step kind n s (record s { workers = update s.workers j returned })
  take :
      (j : ℕ) (t : T) (ts : List T)
      → j < n
      → s.workers j ≡ awake
      → s.tasks ≡ t ∷ ts
      → Step kind n s (record s {
        tasks = ts;
        workers = update s.workers j running;
        taken = s.taken ++ (t ∷ []);
      })
  finish :
      (j : ℕ)
      → j < n
      → s.workers j ≡ running
      → Step kind n s (record s { workers = update s.workers j awake })

-- The threads of a pool start outside `worker_loop`, the thread of the other executor in it.
abbrev pub first : Kind → Worker
first pool = starting
first single = awake

abbrev pub start_system : {T : Type 0} → Kind → System T
start_system kind = record {
  tasks = [];
  stop = false;
  workers = λ j. first kind;
  submitters = λ i. idle;
  closers = λ k. outside;
  accepted = [];
  taken = [];
}

pub data Reach {T : Type 0} (kind : Kind) (n : ℕ) : System T → Type 0 where
  start : Reach kind n (start_system kind)
  later : {s t : System T} → Reach kind n s → Step kind n s t → Reach kind n t
