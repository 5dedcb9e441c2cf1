-- ===== src/Parsections.antt =====
-- include/pot/algorithms/parsections.h: `parsections`, and `when_all` for a container of
-- include/pot/coroutines/when_all.h, on which it waits. The functions and the executor are parameters:
-- any section may end with any exception, and the executor may refuse any task.
pub mod Safety
pub mod Ends
mod Tests
use parallel_operations_tool.Prelude.{
  ℕ, zero, suc, ◌<◌, ◌+◌, ◌≡◌, Option, none, some, List, [], ◌∷◌, update,
}

-- The task of a section, by what became of its function: not there yet, in the executor, called,
-- at its final suspension point before the store of `m_ready`, also with an exception, behind that
-- store, and refused by the executor, whose exception the task then has.
pub data Section (E : Type 0) : Type 0 where
  absent submitted running : Section E
  ending ended : (o : Option E) → Section E
  refused : (e : E) → Section E

-- `parsections`: at the call of `run` for a section, in the loop of `when_all` at a task, returned,
-- left by an exception of a task, and left by `std::bad_function_call`.
pub data Main (E : Type 0) : Type 0 where
  submitting awaiting : (k : ℕ) → Main E
  returned : Main E
  threw : (k : ℕ) (e : E) → Main E
  threw_early : (k : ℕ) → Main E

-- What `co_await` of the task throws.
abbrev pub exception : {E : Type 0} → Section E → Option E
exception absent = none
exception submitted = none
exception running = none
exception (ending o) = none
exception (ended o) = o
exception (refused e) = some e

-- `invoked` records the sections whose function was called, the last one first.
pub record System (E : Type 0) : Type 0 where
  pub sections : ℕ → Section E
  pub main : Main E
  pub invoked : List ℕ

-- The sections are numbered below `n`. A refused task ends inside of `run`, a task that ends wakes
-- the coroutine that waits for it. When the task is found at its final suspension point and `m_ready` is
-- not stored yet, `wait` calls the empty `meta.steal` (task.h).
pub data Step {E : Type 0} (n : ℕ) (s : System E) : System E → Type 0 where
  emplace :
      (k : ℕ)
      → s.main ≡ submitting k
      → k < n
      → Step n s (record s { sections = update s.sections k submitted; main = submitting (k + 1) })
  refuse :
      (k : ℕ) (e : E)
      → s.main ≡ submitting k
      → k < n
      → Step n s
          (record s { sections = update s.sections k (refused e); main = submitting (k + 1) })
  wait : s.main ≡ submitting n → Step n s (record s { main = awaiting 0 })
  invoke :
      (i : ℕ)
      → s.sections i ≡ submitted
      → Step n s (record s { sections = update s.sections i running; invoked = i ∷ s.invoked })
  finish :
      (i : ℕ) (o : Option E)
      → s.sections i ≡ running
      → Step n s (record s { sections = update s.sections i (ending o) })
  store_ready :
      (i : ℕ) (o : Option E)
      → s.sections i ≡ ending o
      → Step n s (record s { sections = update s.sections i (ended o) })
  find_early :
      (k : ℕ) (o : Option E)
      → s.main ≡ awaiting k
      → k < n
      → s.sections k ≡ ending o
      → Step n s (record s { main = threw_early k })
  advance :
      (k : ℕ)
      → s.main ≡ awaiting k
      → k < n
      → s.sections k ≡ ended none
      → Step n s (record s { main = awaiting (k + 1) })
  rethrow :
      (k : ℕ) (e : E)
      → s.main ≡ awaiting k
      → k < n
      → exception (s.sections k) ≡ some e
      → Step n s (record s { main = threw k e })
  return : s.main ≡ awaiting n → Step n s (record s { main = returned })

-- At the call of `parsections`.
abbrev pub start_system : {E : Type 0} → System E
start_system = record { sections = λ i. absent; main = submitting 0; invoked = [] }

-- The states after `k` steps.
pub data Reach {E : Type 0} (n : ℕ) : ℕ → System E → Type 0 where
  start : Reach n 0 start_system
  later : {k : ℕ} {s t : System E} → Reach n k s → Step n s t → Reach n (suc k) t
