-- ===== src/Executors/Run.antt =====
-- include/pot/executors/executor.h: `run` and `lazy_run`, whose coroutine `do_run` goes on in the executor
-- by its `schedule_awaiter`; `run_detached`, which include/pot/coroutines/resume_on.h calls with the
-- coroutine that awaits; and include/pot/executors/inline_executor.h. What they use of an executor is a
-- parameter, filled below by those with one queue and by the inline one.
pub mod Once
pub mod Shutdown
mod Tests
use parallel_operations_tool.Prelude.{
  ℕ, zero, suc, ◌+◌, ◌≡◌, refl, List, [], ◌∷◌, ◌++◌, update, Option, none, some, ◌<◌,
}
use parallel_operations_tool.Task.{Outcome}
use parallel_operations_tool.Executors

-- An executor: its steps, the tasks that it has accepted, and in `taken` those whose call has begun, the
-- last one last.
pub record Executor (T S : Type 0) : Type 1 where
  pub Step : S → S → Type 0
  pub accepted : S → List T
  pub taken : S → List T
  pub start : S
  pub Reaches : S → Type 0
  pub start_accepted : accepted start ≡ []
  pub start_taken : taken start ≡ []
  pub start-Reaches : Reaches start
  pub step-Reaches : (s t : S) → Reaches s → Step s t → Reaches t

-- An executor with one queue and its workers outside the mutex: `hands` are the tasks that they have
-- taken out and not called yet, and `called` those whose call has begun.
pub record Calls (T : Type 0) : Type 0 where
  pub queue : Executors.System T
  pub hands : ℕ → Option T
  pub called : List T

-- A worker takes a task under the mutex, calls it behind that block, and goes on when it has returned.
pub data CallStep {T : Type 0} (kind : Executors.Kind) (n : ℕ) (s : Calls T)
    : Calls T → Type 0 where
  move :
      (u : Executors.System T)
      → Executors.Step kind n s.queue u
      → u.taken ≡ s.queue.taken
      → ((j : ℕ) → s.queue.workers j ≡ Executors.running → u.workers j ≡ Executors.running)
      → CallStep kind n s (record s { queue = u })
  take :
      (j : ℕ) (t : T) (ts : List T)
      → j < n
      → s.queue.workers j ≡ Executors.awake
      → s.queue.tasks ≡ t ∷ ts
      → CallStep kind n s (record s {
        queue = record (s.queue) {
          tasks = ts;
          workers = update s.queue.workers j Executors.running;
          taken = s.queue.taken ++ (t ∷ []);
        };
        hands = update s.hands j (some t);
      })
  call :
      (j : ℕ) (t : T)
      → s.hands j ≡ some t
      → CallStep kind n s
          (record s { hands = update s.hands j none; called = s.called ++ (t ∷ []) })
  finish :
      (j : ℕ)
      → j < n
      → s.queue.workers j ≡ Executors.running
      → s.hands j ≡ none
      → CallStep kind n s (record s {
        queue = record (s.queue) { workers = update s.queue.workers j Executors.awake };
      })

abbrev pub no_calls : {T : Type 0} → Executors.Kind → Calls T
no_calls kind = record { queue = Executors.start_system kind; hands = λ j. none; called = [] }

pub data CallReach {T : Type 0} (kind : Executors.Kind) (n : ℕ) : Calls T → Type 0 where
  start : CallReach kind n (no_calls kind)
  later : {s t : Calls T} → CallReach kind n s → CallStep kind n s t → CallReach kind n t

abbrev pub queue_executor : (T : Type 0) → Executors.Kind → ℕ → Executor T (Calls T)
queue_executor T kind n = record {
  Step = CallStep kind n;
  accepted = λ s. s.queue.accepted;
  taken = λ s. s.called;
  start = no_calls kind;
  Reaches = CallReach kind n;
  start_accepted = refl;
  start_taken = refl;
  start-Reaches = CallReach.start;
  step-Reaches = λ s t r step. CallReach.later r step;
}

-- `inline_executor`: `pending` are the calls of `derived_execute` that are about to call their task,
-- the innermost one first.
pub record Inline (T : Type 0) : Type 0 where
  pub pending : List T
  pub accepted : List T
  pub taken : List T

pub data InlineStep {T : Type 0} (s : Inline T) : Inline T → Type 0 where
  enter :
      (t : T)
      → InlineStep s (record s { pending = t ∷ s.pending; accepted = s.accepted ++ (t ∷ []) })
  invoke :
      (t : T) (ts : List T)
      → s.pending ≡ t ∷ ts
      → InlineStep s (record s { pending = ts; taken = s.taken ++ (t ∷ []) })

pub data InlineReach {T : Type 0} : Inline T → Type 0 where
  start : InlineReach (record { pending = []; accepted = []; taken = [] })
  later : {s t : Inline T} → InlineReach s → InlineStep s t → InlineReach t

abbrev pub inline_executor : (T : Type 0) → Executor T (Inline T)
inline_executor T = record {
  Step = InlineStep;
  accepted = λ s. s.accepted;
  taken = λ s. s.taken;
  start = record { pending = []; accepted = []; taken = [] };
  Reaches = InlineReach;
  start_accepted = refl;
  start_taken = refl;
  start-Reaches = InlineReach.start;
  step-Reaches = λ s t r step. InlineReach.later r step;
}

-- A coroutine of `do_run`: not there, made by `lazy_run` and not awaited, before `derived_execute` in
-- `schedule_awaiter`, suspended, in the function, awaiting the task that the function has returned,
-- ended, also with an exception of the function, ended behind that await, ended with the exception of an executor that refuses
-- it, and resumed where it is not suspended, which is undefined. A function of `run_detached` has no
-- coroutine: it is handed to the executor, called, and has returned.
pub data Run (A E : Type 0) : Type 0 where
  absent created scheduling queued calling waiting broken : Run A E
  ended awaited : (o : Outcome A E) → Run A E
  refused : (e : E) → Run A E
  handed called left : Run A E

-- `h.resume()`, and `std::invoke` of `run_detached`.
abbrev pub resumed : {A E : Type 0} → Run A E → Run A E
resumed queued = calling
resumed handed = called
resumed _ = broken

-- The coroutine `i` hands its resumption, the task `i`, to the executor, as `run_detached` does with
-- its function. `invoked` records the calls of
-- functions, and `run_count` is that of each `task_meta`.
pub record System (A E S : Type 0) : Type 0 where
  pub executor : S
  pub runs : ℕ → Run A E
  pub run_count : ℕ → ℕ
  pub invoked : List ℕ

module _ {A E S : Type 0} (ex : Executor ℕ S) where
  abbrev pub put_run : System A E S → ℕ → Run A E → System A E S
  put_run s i r = record s { runs = update s.runs i r }

  abbrev pub count_run : System A E S → ℕ → System A E S
  count_run s i = record s { run_count = update s.run_count i (s.run_count i + 1) }

  -- The executor has accepted the function and is in the state `u`.
  abbrev pub run_detached : System A E S → ℕ → S → System A E S
  run_detached s i u = record (put_run s i handed) { executor = u }

  -- `return` is also the end of a coroutine whose function has returned a task that is ready. On another
  -- task `await_suspend` counts one more run.
  pub data Step (s : System A E S) : System A E S → Type 0 where
    run : (i : ℕ) → s.runs i ≡ absent → Step s (put_run s i scheduling)
    lazy_run : (i : ℕ) → s.runs i ≡ absent → Step s (put_run s i created)
    await : (i : ℕ) → s.runs i ≡ created → Step s (put_run s i scheduling)
    submit :
        (i : ℕ) (u : S)
        → s.runs i ≡ scheduling
        → ex.Step s.executor u
        → ex.accepted u ≡ ex.accepted s.executor ++ (i ∷ [])
        → ex.taken u ≡ ex.taken s.executor
        → Step s (record (put_run (count_run s i) i queued) { executor = u })
    refuse :
        (i : ℕ) (e : E) → s.runs i ≡ scheduling → Step s (put_run (count_run s i) i (refused e))
    resume :
        (i : ℕ) (u : S)
        → ex.Step s.executor u
        → ex.accepted u ≡ ex.accepted s.executor
        → ex.taken u ≡ ex.taken s.executor ++ (i ∷ [])
        → Step s
            (record (put_run s i (resumed (s.runs i))) { executor = u; invoked = i ∷ s.invoked })
    return : (i : ℕ) (o : Outcome A E) → s.runs i ≡ calling → Step s (put_run s i (ended o))
    return_task : (i : ℕ) → s.runs i ≡ calling → Step s (put_run (count_run s i) i waiting)
    await_task : (i : ℕ) (o : Outcome A E) → s.runs i ≡ waiting → Step s (put_run s i (awaited o))
    detach :
        (i : ℕ) (u : S)
        → s.runs i ≡ absent
        → ex.Step s.executor u
        → ex.accepted u ≡ ex.accepted s.executor ++ (i ∷ [])
        → ex.taken u ≡ ex.taken s.executor
        → Step s (run_detached s i u)
    leave : (i : ℕ) → s.runs i ≡ called → Step s (put_run s i left)
    work :
        (u : S)
        → ex.Step s.executor u
        → ex.accepted u ≡ ex.accepted s.executor
        → ex.taken u ≡ ex.taken s.executor
        → Step s (record s { executor = u })

  abbrev pub start_system : System A E S
  start_system = record {
    executor = ex.start;
    runs = λ i. absent;
    run_count = λ i. 0;
    invoked = [];
  }

  pub data Reach : System A E S → Type 0 where
    start : Reach start_system
    later : {s t : System A E S} → Reach s → Step s t → Reach t
