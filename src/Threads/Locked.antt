-- ===== src/Threads/Locked.antt =====
-- `thread` of include/pot/threads/thread.h, a step at a time: a block under the mutex of `run` is one
-- step, and the worker gives the mutex back where it waits.
use parallel_operations_tool.Prelude.{
  ℕ, ◌≡◌, ◌≢◌, ◌⊎◌, Bool, true, false, List, [], ◌∷◌, ◌++◌, update,
}
use parallel_operations_tool.Threads.{Stopper, requested, joining, joined, after_notify}
use parallel_operations_tool.Threads

-- A caller of `run`: outside, and between the block with the lock and `notify_one`.
pub data Caller : Type 0 where
  idle pushed : Caller

-- `worker_loop`: at the `while`, before the lock, and then with the mutex: before the predicate of
-- `wait`, behind it where it failed or held. Without the mutex again: in `wait`, in the task, and
-- returned.
pub data Worker : Type 0 where
  testing locking holding blocking taking asleep running exited : Worker

-- The mutex is not the worker's.
abbrev pub IsFree : Worker → Type 0
IsFree holding = ⊥
IsFree blocking = ⊥
IsFree taking = ⊥
IsFree _ = Unit

-- `accepted` and `taken` record the tasks that were put into the queue and taken from it.
pub record System (T : Type 0) : Type 0 where
  pub queue : List T
  pub stop : Bool
  pub worker : Worker
  pub callers : ℕ → Caller
  pub stoppers : ℕ → Stopper
  pub accepted : List T
  pub taken : List T

-- A wait may also end without a notification.
pub data Step {T : Type 0} (s : System T) : System T → Type 0 where
  push :
      (i : ℕ) (t : T)
      → s.callers i ≡ idle
      → IsFree s.worker
      → Step s (record s {
        queue = s.queue ++ (t ∷ []);
        callers = update s.callers i pushed;
        accepted = s.accepted ++ (t ∷ []);
      })
  notify_one :
      (i : ℕ)
      → s.callers i ≡ pushed
      → s.worker ≡ asleep
      → Step s (record s { callers = update s.callers i idle; worker = locking })
  notify_nobody :
      (i : ℕ)
      → s.callers i ≡ pushed
      → s.worker ≢ asleep
      → Step s (record s { callers = update s.callers i idle })
  request :
      (k : ℕ) (joins : Bool)
      → s.stoppers k ≡ Threads.idle
      → Step s (record s { stop = true; stoppers = update s.stoppers k (requested joins) })
  notify_all :
      (k : ℕ) (joins : Bool)
      → s.stoppers k ≡ requested joins
      → s.worker ≡ asleep
      → Step s (record s { worker = locking; stoppers = update s.stoppers k (after_notify joins) })
  notify_all_nobody :
      (k : ℕ) (joins : Bool)
      → s.stoppers k ≡ requested joins
      → s.worker ≢ asleep
      → Step s (record s { stoppers = update s.stoppers k (after_notify joins) })
  join :
      (k : ℕ)
      → s.stoppers k ≡ joining
      → s.worker ≡ exited
      → Step s (record s { stoppers = update s.stoppers k joined })
  wake : s.worker ≡ asleep → Step s (record s { worker = locking })
  find_stop : s.worker ≡ testing → s.stop ≡ true → Step s (record s { worker = exited })
  find_no_stop : s.worker ≡ testing → s.stop ≡ false → Step s (record s { worker = locking })
  lock : s.worker ≡ locking → Step s (record s { worker = holding })
  satisfied :
      s.worker ≡ holding → (s.stop ≡ true) ⊎ (s.queue ≢ []) → Step s (record s { worker = taking })
  unsatisfied :
      s.worker ≡ holding → s.stop ≡ false → s.queue ≡ [] → Step s (record s { worker = blocking })
  block : s.worker ≡ blocking → Step s (record s { worker = asleep })
  leave : s.worker ≡ taking → s.stop ≡ true → s.queue ≡ [] → Step s (record s { worker = exited })
  take :
      (t : T) (ts : List T)
      → s.worker ≡ taking
      → s.queue ≡ t ∷ ts
      → Step s (record s { queue = ts; worker = running; taken = s.taken ++ (t ∷ []) })
  take_nothing :
      s.worker ≡ taking → s.stop ≡ false → s.queue ≡ [] → Step s (record s { worker = testing })
  finish : s.worker ≡ running → Step s (record s { worker = testing })

-- The constructor, and nobody there.
abbrev pub start_system : {T : Type 0} → System T
start_system = record {
  queue = [];
  stop = false;
  worker = testing;
  callers = λ i. idle;
  stoppers = λ k. Threads.idle;
  accepted = [];
  taken = [];
}

pub data Reach {T : Type 0} : System T → Type 0 where
  start : Reach start_system
  later : {s t : System T} → Reach s → Step s t → Reach t
