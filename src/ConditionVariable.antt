-- ===== src/ConditionVariable.antt =====
-- include/pot/coroutines/async_condition_variable.h: `async_condition_variable`, with `await_ready`,
-- `await_suspend` and `await_resume` as steps of coroutines, and `set`, `stop` and `reset` as steps of
-- their callers.
pub mod Invariant
mod Tests
use parallel_operations_tool.Prelude.{ℕ, ◌≡◌, ◌⊎◌, Bool, true, false, List, [], ◌∷◌, ◌++◌, update}

-- A coroutine that awaits the variable: before `await_ready`, before the exchange that puts it at the
-- head of the list, suspended, before `await_resume`, and behind it.
pub data Pc : Type 0 where
  outside pushing waiting resuming passed : Pc

-- A caller of `set` or `stop`: outside, before the exchange of `set`, with what is left of the list
-- that it took, and before the exchange of `stop`.
pub data Caller : Type 0 where
  idle swapping stopping : Caller
  resumes : (list : List ℕ) → Caller

-- `m_awaiter_head` as the list of the coroutines that it leads to, the last one first. `dropped` records
-- those in the lists that `stop` took out, which nothing points to any more.
pub record System : Type 0 where
  pub set_state : Bool
  pub head : List ℕ
  pub dropped : List ℕ
  pub pc : ℕ → Pc
  pub callers : ℕ → Caller

abbrev pub IsIn : ℕ → List ℕ → Type 0
IsIn i [] = ⊥
IsIn i (x ∷ xs) = (i ≡ x) ⊎ IsIn i xs

-- The loop of `await_suspend` retries its exchange until it puts the coroutine before the list that
-- it has read. The constructor's argument is the state at the start.
pub data Step (s : System) : System → Type 0 where
  find_set :
      (i : ℕ)
      → s.pc i ≡ outside
      → s.set_state ≡ true
      → Step s (record s { pc = update s.pc i resuming })
  find_unset :
      (i : ℕ)
      → s.pc i ≡ outside
      → s.set_state ≡ false
      → Step s (record s { pc = update s.pc i pushing })
  push :
      (i : ℕ)
      → s.pc i ≡ pushing
      → Step s (record s { head = i ∷ s.head; pc = update s.pc i waiting })
  reset :
      (i : ℕ)
      → s.pc i ≡ resuming
      → Step s (record s { set_state = false; pc = update s.pc i passed })
  again : (i : ℕ) → s.pc i ≡ passed → Step s (record s { pc = update s.pc i outside })
  set :
      (k : ℕ)
      → s.callers k ≡ idle
      → Step s (record s { set_state = true; callers = update s.callers k swapping })
  swap :
      (k : ℕ)
      → s.callers k ≡ swapping
      → Step s (record s { head = []; callers = update s.callers k (resumes s.head) })
  resume :
      (k i : ℕ) (list : List ℕ)
      → s.callers k ≡ resumes (i ∷ list)
      → Step s
          (record s { pc = update s.pc i resuming; callers = update s.callers k (resumes list) })
  finish :
      (k : ℕ) → s.callers k ≡ resumes [] → Step s (record s { callers = update s.callers k idle })
  stop :
      (k : ℕ)
      → s.callers k ≡ idle
      → Step s (record s { set_state = false; callers = update s.callers k stopping })
  drop_list :
      (k : ℕ)
      → s.callers k ≡ stopping
      → Step s
          (record s { head = []; dropped = s.head ++ s.dropped; callers = update s.callers k idle })
  reset_state : Step s (record s { set_state = false })

abbrev pub start_state : Bool → System
start_state initial = record {
  set_state = initial;
  head = [];
  dropped = [];
  pc = λ i. outside;
  callers = λ k. idle;
}

pub data Reach (initial : Bool) : System → Type 0 where
  start : Reach initial (start_state initial)
  later : {s t : System} → Reach initial s → Step s t → Reach initial t
