-- ===== src/Barrier.antt =====
-- include/pot/coroutines/async_barrier.h: `async_barrier`, with `await_ready`, `await_suspend` and `set`
-- as steps of coroutines and of callers of `set` that share it.
pub mod Invariant
pub mod Safety
mod Tests
use parallel_operations_tool.Prelude.{
  ℕ, ◌+◌, ◌≤◌, ◌<◌, ◌≡◌, ◌≢◌, List, [], ◌∷◌, ◌++◌, update, add_size, ◌==◌, if◌then◌else◌,
}

-- A coroutine that awaits the barrier once: before `await_ready`, before `await_suspend`, in the list of
-- awaiters, and behind the barrier.
pub data Pc : Type 0 where
  outside suspending waiting passed : Pc

-- A caller of `set`: outside, before it takes the list, and with what is left of the list it took.
pub data Setter : Type 0 where
  idle swapping : Setter
  resuming : (to_resume : List ℕ) → Setter

pub record Barrier : Type 0 where
  pub current_count : ℕ
  pub awaiters : List ℕ

pub record System : Type 0 where
  pub barrier : Barrier
  pub pc : ℕ → Pc
  pub setters : ℕ → Setter

-- `count == expected_count`, with the count after the increment.
abbrev pub after_add : ℕ → ℕ → Setter
after_add expected count = if count == expected then swapping else idle

-- One step but the increment of `set`. The test and the push of `await_suspend` are under the mutex.
pub data Step (expected : ℕ) (s : System) : System → Type 0 where
  find_full :
      (i : ℕ)
      → s.pc i ≡ outside
      → expected ≤ s.barrier.current_count
      → Step expected s (record s { pc = update s.pc i passed })
  find_open :
      (i : ℕ)
      → s.pc i ≡ outside
      → s.barrier.current_count < expected
      → Step expected s (record s { pc = update s.pc i suspending })
  resume_self :
      (i : ℕ)
      → s.pc i ≡ suspending
      → expected ≤ s.barrier.current_count
      → Step expected s (record s { pc = update s.pc i passed })
  push_back :
      (i : ℕ)
      → s.pc i ≡ suspending
      → s.barrier.current_count < expected
      → Step expected s (record s {
        barrier = record (s.barrier) { awaiters = s.barrier.awaiters ++ (i ∷ []) };
        pc = update s.pc i waiting;
      })
  swap :
      (k : ℕ)
      → s.setters k ≡ swapping
      → Step expected s (record s {
        barrier = record (s.barrier) { awaiters = [] };
        setters = update s.setters k (resuming s.barrier.awaiters);
      })
  resume :
      (k h : ℕ) (hs : List ℕ)
      → s.setters k ≡ resuming (h ∷ hs)
      → Step expected s
          (record s { pc = update s.pc h passed; setters = update s.setters k (resuming hs) })
  finish :
      (k : ℕ)
      → s.setters k ≡ resuming []
      → Step expected s (record s { setters = update s.setters k idle })

-- `current_count.fetch_add(1) + 1` and the test.
pub data Add (expected : ℕ) (s : System) : System → Type 0 where
  add :
      (k : ℕ)
      → s.setters k ≡ idle
      → Add expected s (record s {
        barrier = record (s.barrier) { current_count = add_size s.barrier.current_count 1 };
        setters = update s.setters k (after_add expected (add_size s.barrier.current_count 1));
      })

-- The constructor, and nobody there.
abbrev pub start_state : System
start_state = record {
  barrier = record { current_count = 0; awaiters = [] };
  pc = λ i. outside;
  setters = λ k. idle;
}

-- The states with `n` calls of `set`.
pub data Reach (expected : ℕ) : ℕ → System → Type 0 where
  start : Reach expected 0 start_state
  later : {n : ℕ} {s t : System} → Reach expected n s → Step expected s t → Reach expected n t
  set : {n : ℕ} {s t : System} → Reach expected n s → Add expected s t → Reach expected (n + 1) t
