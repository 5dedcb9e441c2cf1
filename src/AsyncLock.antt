-- ===== src/AsyncLock.antt =====
-- include/pot/sync/async_lock.h: a lock that coroutines await, a shared access at a time.
-- The queue of waiters is taken as a bounded queue; a push or a pop that fails is tried again.
pub mod Invariant
pub mod Safety
pub mod Guards
mod Tests
mod GuardTests
use parallel_operations_tool.Prelude.{
  ℕ, ◌+◌, ◌-◌, ◌%◌, ◌^◌, ◌<◌, ◌≡◌, ◌≢◌, Option, none, some, true, false, List, [], ◌∷◌, update,
}
use parallel_operations_tool.BoundedQueue
use parallel_operations_tool.LfQueue.{capacity}

-- `queue_type`: the coroutine, and the executor that it asked to be resumed on, if any. The
-- pointer to its `task_meta` is found by the coroutine.
pub record Waiter : Type 0 where
  pub handle : ℕ
  pub executor : Option ℕ

-- `m_state`, an `int` of 32 bits, and `m_queue`; `run_count` is that of each coroutine's promise.
pub record AsyncLock : Type 0 where
  pub state : ℕ
  pub queue : List Waiter
  pub run_count : ℕ → ℕ

-- `fetch_add(1)` and `fetch_sub(1)` on `int` wrap.
abbrev pub add_one : ℕ → ℕ
add_one n = (n + 1) % 2 ^ 32

abbrev pub sub_one : ℕ → ℕ
sub_one n = (n + 2 ^ 32 - 1) % 2 ^ 32

-- Where a coroutine stands.
pub data Pc : Type 0 where
  outside : Pc
  arriving : (executor : Option ℕ) → Pc  -- in `await_suspend`, before the `fetch_add` of `m_state`
  enqueuing : (executor : Option ℕ) → Pc  -- in the loop around `m_queue.push`
  waiting : Pc  -- suspended, in the queue
  scheduled : Pc  -- handed to its executor, not resumed yet
  critical : Pc  -- holds a `scoped_lock_guard`
  handing : Pc  -- in the loop around `m_queue.pop` of `unlock`

pub record System : Type 0 where
  pub lock : AsyncLock
  pub pc : ℕ → Pc

-- The entry that coroutine `i` pushes.
abbrev pub waiter : ℕ → Option ℕ → Waiter
waiter i executor = record { handle = i; executor = executor }

-- `run_detached_meta` schedules the handle on its executor; with no executor `handle.resume()`
-- runs it at once, and `await_resume` makes the guard.
abbrev pub resumed : Option ℕ → Pc
resumed none = critical
resumed (some executor) = scheduled

-- One step of one of `n` coroutines. The body of a critical section is left out.
pub data Step (n : ℕ) (s : System) : System → Type 0 where
  -- `co_await lock(executor)`
  suspend :
      (i : ℕ) (executor : Option ℕ)
      → i < n
      → s.pc i ≡ outside
      → Step n s (record {
        lock = record (s.lock) { run_count = update s.lock.run_count i (s.lock.run_count i + 1) };
        pc = update s.pc i (arriving executor);
      })
  acquire :
      (i : ℕ) {executor : Option ℕ}
      → i < n
      → s.pc i ≡ arriving executor
      → s.lock.state ≡ 0
      → Step n s (record {
        lock = record (s.lock) { state = add_one s.lock.state };
        pc = update s.pc i critical;
      })
  contend :
      (i : ℕ) {executor : Option ℕ}
      → i < n
      → s.pc i ≡ arriving executor
      → s.lock.state ≢ 0
      → Step n s (record {
        lock = record (s.lock) { state = add_one s.lock.state };
        pc = update s.pc i (enqueuing executor);
      })
  enqueue :
      (i : ℕ) {executor : Option ℕ} {queue : List Waiter}
      → i < n
      → s.pc i ≡ enqueuing executor
      → BoundedQueue.push capacity s.lock.queue (waiter i executor) ≡ (true, queue)
      → Step n s (record { lock = record (s.lock) { queue = queue }; pc = update s.pc i waiting })
  -- The push fails, and the coroutine's thread yields and tries again.
  yield_push :
      (i : ℕ) {executor : Option ℕ} {queue : List Waiter}
      → i < n
      → s.pc i ≡ enqueuing executor
      → BoundedQueue.push capacity s.lock.queue (waiter i executor) ≡ (false, queue)
      → Step n s s
  -- The executor resumes the handle.
  resume :
      (i : ℕ) → i < n → s.pc i ≡ scheduled → Step n s (record s { pc = update s.pc i critical })
  -- `~scoped_lock_guard`, with nobody waiting
  leave :
      (i : ℕ)
      → i < n
      → s.pc i ≡ critical
      → s.lock.state ≡ 1
      → Step n s (record {
        lock = record (s.lock) { state = sub_one s.lock.state };
        pc = update s.pc i outside;
      })
  hand_over :
      (i : ℕ)
      → i < n
      → s.pc i ≡ critical
      → s.lock.state ≢ 1
      → Step n s (record {
        lock = record (s.lock) { state = sub_one s.lock.state };
        pc = update s.pc i handing;
      })
  dequeue :
      (i : ℕ) {w : Waiter} {queue : List Waiter}
      → i < n
      → s.pc i ≡ handing
      → BoundedQueue.pop s.lock.queue ≡ (some w, queue)
      → Step n s (record {
        lock = record (s.lock) { queue = queue };
        pc = update (update s.pc i outside) w.handle (resumed w.executor);
      })
  -- The pop fails, and the thread yields and tries again.
  yield_pop :
      (i : ℕ) {queue : List Waiter}
      → i < n
      → s.pc i ≡ handing
      → BoundedQueue.pop s.lock.queue ≡ (none, queue)
      → Step n s s

abbrev pub start_state : System
start_state = record {
  lock = record { state = 0; queue = []; run_count = λ i. 0 };
  pc = λ i. outside;
}

pub data Reach (n : ℕ) : System → Type 0 where
  start : Reach n start_state
  later : {s t : System} → Reach n s → Step n s t → Reach n t
