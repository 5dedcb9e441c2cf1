-- ===== src/Threads/LockFree.antt =====
-- `thread_lf` of include/pot/threads/thread.h, a shared access at a time. Of the lock-free queue the
-- positions that calls of `push` have won are in their order, each with its task and whether the call has
-- published it: `pop` takes the first one only when it is published. A `push` that finds the queue full
-- changes nothing and is tried again.
use parallel_operations_tool.Prelude.{
  ℕ, ◌<◌, ◌≡◌, ◌≢◌, Bool, true, false, List, [], ◌∷◌, ◌++◌, update, length, ◌==◌, if◌then◌else◌,
}
use parallel_operations_tool.LfQueue.{capacity}
use parallel_operations_tool.Threads.{Stopper, requested, announced, joining, joined, after_notify}
use parallel_operations_tool.Threads

-- A caller of `run`: outside, in `push` with a position won and not published, behind the push, and
-- behind the store to `m_has_work`.
pub data Caller : Type 0 where
  idle claiming pushed stored : Caller

-- `worker_loop`: before the first `pop`, before the test for a stop, before the store of `false`,
-- before the second `pop`, before the store of `true`, before `wait`, blocked in it, in the task,
-- and returned.
pub data Worker : Type 0 where
  popping checking clearing rechecking restoring waiting asleep running exited : Worker

-- A position of the queue, won by the caller `i` or published.
pub data Entry (T : Type 0) : Type 0 where
  claimed : (i : ℕ) (t : T) → Entry T
  published : (t : T) → Entry T

module _ {T : Type 0} where
  abbrev pub task_of : Entry T → T
  task_of (claimed i t) = t
  task_of (published t) = t

  abbrev publish_entry : ℕ → Entry T → Entry T
  publish_entry i (claimed j t) = if j == i then published t else claimed j t
  publish_entry i (published t) = published t

  -- The caller `i` has no more than one position that is not published.
  abbrev pub publish_by : ℕ → List (Entry T) → List (Entry T)
  publish_by i [] = []
  publish_by i (e ∷ es) = publish_entry i e ∷ publish_by i es

  -- `pop` finds nothing: no position is won, or the first one is not published.
  abbrev pub IsUnready : List (Entry T) → Type 0
  IsUnready [] = Unit
  IsUnready (claimed i t ∷ es) = Unit
  IsUnready (published t ∷ es) = ⊥

pub record System (T : Type 0) : Type 0 where
  pub queue : List (Entry T)
  pub has_work : Bool
  pub stop : Bool
  pub worker : Worker
  pub callers : ℕ → Caller
  pub stoppers : ℕ → Stopper
  pub accepted : List T
  pub taken : List T

-- A notification ends the wait of a worker that is blocked while `m_has_work` is true; while it is
-- false the worker goes on waiting.
pub data Step {T : Type 0} (s : System T) : System T → Type 0 where
  push :
      (i : ℕ) (t : T)
      → s.callers i ≡ idle
      → length s.queue < capacity
      → Step s (record s {
        queue = s.queue ++ (claimed i t ∷ []);
        callers = update s.callers i claiming;
        accepted = s.accepted ++ (t ∷ []);
      })
  publish :
      (i : ℕ)
      → s.callers i ≡ claiming
      → Step s (record s { queue = publish_by i s.queue; callers = update s.callers i pushed })
  store :
      (i : ℕ)
      → s.callers i ≡ pushed
      → Step s (record s { has_work = true; callers = update s.callers i stored })
  notify :
      (i : ℕ)
      → s.callers i ≡ stored
      → s.worker ≡ asleep
      → s.has_work ≡ true
      → Step s (record s { callers = update s.callers i idle; worker = popping })
  notify_vain :
      (i : ℕ)
      → s.callers i ≡ stored
      → s.worker ≡ asleep
      → s.has_work ≡ false
      → Step s (record s { callers = update s.callers i idle })
  notify_nobody :
      (i : ℕ)
      → s.callers i ≡ stored
      → s.worker ≢ asleep
      → Step s (record s { callers = update s.callers i idle })
  request :
      (k : ℕ) (joins : Bool)
      → s.stoppers k ≡ Threads.idle
      → Step s (record s { stop = true; stoppers = update s.stoppers k (requested joins) })
  store_all :
      (k : ℕ) (joins : Bool)
      → s.stoppers k ≡ requested joins
      → Step s (record s { has_work = true; stoppers = update s.stoppers k (announced joins) })
  notify_all :
      (k : ℕ) (joins : Bool)
      → s.stoppers k ≡ announced joins
      → s.worker ≡ asleep
      → s.has_work ≡ true
      → Step s (record s { worker = popping; stoppers = update s.stoppers k (after_notify joins) })
  notify_all_vain :
      (k : ℕ) (joins : Bool)
      → s.stoppers k ≡ announced joins
      → s.worker ≡ asleep
      → s.has_work ≡ false
      → Step s (record s { stoppers = update s.stoppers k (after_notify joins) })
  notify_all_nobody :
      (k : ℕ) (joins : Bool)
      → s.stoppers k ≡ announced joins
      → s.worker ≢ asleep
      → Step s (record s { stoppers = update s.stoppers k (after_notify joins) })
  join :
      (k : ℕ)
      → s.stoppers k ≡ joining
      → s.worker ≡ exited
      → Step s (record s { stoppers = update s.stoppers k joined })
  pop :
      (t : T) (ts : List (Entry T))
      → s.worker ≡ popping
      → s.queue ≡ published t ∷ ts
      → Step s (record s { queue = ts; worker = running; taken = s.taken ++ (t ∷ []) })
  pop_nothing : s.worker ≡ popping → IsUnready s.queue → Step s (record s { worker = checking })
  find_stop : s.worker ≡ checking → s.stop ≡ true → Step s (record s { worker = exited })
  find_no_stop : s.worker ≡ checking → s.stop ≡ false → Step s (record s { worker = clearing })
  clear : s.worker ≡ clearing → Step s (record s { has_work = false; worker = rechecking })
  pop_again :
      (t : T) (ts : List (Entry T))
      → s.worker ≡ rechecking
      → s.queue ≡ published t ∷ ts
      → Step s (record s { queue = ts; worker = restoring; taken = s.taken ++ (t ∷ []) })
  pop_nothing_again :
      s.worker ≡ rechecking → IsUnready s.queue → Step s (record s { worker = waiting })
  restore : s.worker ≡ restoring → Step s (record s { has_work = true; worker = running })
  block : s.worker ≡ waiting → s.has_work ≡ false → Step s (record s { worker = asleep })
  go_on : s.worker ≡ waiting → s.has_work ≡ true → Step s (record s { worker = popping })
  finish : s.worker ≡ running → Step s (record s { worker = popping })

-- The constructor, and nobody there.
abbrev pub start_system : {T : Type 0} → System T
start_system = record {
  queue = [];
  has_work = false;
  stop = false;
  worker = popping;
  callers = λ i. idle;
  stoppers = λ k. Threads.idle;
  accepted = [];
  taken = [];
}

pub data Reach {T : Type 0} : System T → Type 0 where
  start : Reach start_system
  later : {s t : System T} → Reach s → Step s t → Reach t
