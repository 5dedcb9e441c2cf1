-- ===== src/Executors/RoundRobin.antt =====
-- include/pot/executors/thread_pool_executor.h: `thread_pool_executor_lq` and
-- `thread_pool_executor_lflq`, which give their tasks in turn to threads with queues of their own,
-- `thread` and `thread_lf` of include/pot/threads/thread.h. What the pools use of a thread is a
-- parameter, filled below by both.
pub mod Turns
use parallel_operations_tool.Prelude.{
  ℕ, zero, suc, ◌+◌, ◌%◌, ◌^◌, ◌<◌, ◌≡◌, ◌⊎◌, refl, sym, ap, ap₂, ◌∙◌, subst, arith, Bool, true,
  false, List, [], ◌∷◌, ◌++◌, length, length-snoc, update, update_self, update_ne, add_size,
  ℕ_discrete,
}
use parallel_operations_tool.Schedule.{count}
use parallel_operations_tool.Threads.Locked
use parallel_operations_tool.Threads.LockFree

-- A thread: its steps, whether a caller is in `run`, the tasks that calls of `run` have put into its
-- queue, and whether it was asked to stop.
pub record Thread (T S : Type 0) : Type 1 where
  pub Step : S → S → Type 0
  pub IsOutside : ℕ → S → Type 0
  pub accepted : S → List T
  pub stop : S → Bool
  pub start : S
  pub Reaches : S → Type 0
  pub start_empty : accepted start ≡ []
  pub start-Reaches : Reaches start
  pub step-Reaches : (s t : S) → Reaches s → Step s t → Reaches t

abbrev pub locked : (T : Type 0) → Thread T (Locked.System T)
locked T = record {
  Step = Locked.Step;
  IsOutside = λ i s. s.callers i ≡ Locked.idle;
  accepted = λ s. s.accepted;
  stop = λ s. s.stop;
  start = Locked.start_system;
  Reaches = Locked.Reach;
  start_empty = refl;
  start-Reaches = Locked.start;
  step-Reaches = λ s t r step. Locked.later r step;
}

abbrev pub lock_free : (T : Type 0) → Thread T (LockFree.System T)
lock_free T = record {
  Step = LockFree.Step;
  IsOutside = λ i s. s.callers i ≡ LockFree.idle;
  accepted = λ s. s.accepted;
  stop = λ s. s.stop;
  start = LockFree.start_system;
  Reaches = LockFree.Reach;
  start_empty = refl;
  start-Reaches = LockFree.start;
  step-Reaches = λ s t r step. LockFree.later r step;
}

-- A caller of `derived_execute`: outside, behind the test of `m_stop`, with its thread's index, and in
-- `run` of that thread.
pub data Submitter : Type 0 where
  outside checked : Submitter
  chosen calling : (idx : ℕ) → Submitter

-- `choices` and `submitted` record, the last one first, the indices that were drawn and those of the
-- threads that have got a task.
pub record Pool (S : Type 0) : Type 0 where
  pub threads : ℕ → S
  pub next_thread_idx : ℕ
  pub stop : Bool
  pub submitters : ℕ → Submitter
  pub choices : List ℕ
  pub submitted : List ℕ

-- `n` threads, and callers with numbers below `callers`.
module _ {T S : Type 0} (thread : Thread T S) (n callers : ℕ) where
  abbrev pub put_thread : Pool S → ℕ → S → Pool S
  put_thread s j u = record s { threads = update s.threads j u }

  abbrev pub put_submitter : Pool S → ℕ → Submitter → Pool S
  put_submitter s i c = record s { submitters = update s.submitters i c }

  -- `submit` is the step of `run` that puts the task into the queue. A thread's own steps put none
  -- there, and it is asked to stop only by `shutdown`, behind its exchange. `shutdown` ends with
  -- `m_threads.clear()`, up to which the steps go.
  pub data Step (s : Pool S) : Pool S → Type 0 where
    check :
        (i : ℕ)
        → i < callers
        → s.submitters i ≡ outside
        → s.stop ≡ false
        → Step s (put_submitter s i checked)
    refuse : (i : ℕ) → s.submitters i ≡ outside → s.stop ≡ true → Step s s
    submit :
        (i j : ℕ) (t : T) (u : S)
        → s.submitters i ≡ chosen j
        → thread.IsOutside i (s.threads j)
        → thread.Step (s.threads j) u
        → thread.accepted u ≡ thread.accepted (s.threads j) ++ (t ∷ [])
        → Step s (record (put_thread (put_submitter s i (calling j)) j u) {
          submitted = j ∷ s.submitted;
        })
    return :
        (i j : ℕ)
        → s.submitters i ≡ calling j
        → thread.IsOutside i (s.threads j)
        → Step s (put_submitter s i outside)
    move :
        (j : ℕ) (u : S)
        → j < n
        → thread.Step (s.threads j) u
        → thread.accepted u ≡ thread.accepted (s.threads j)
        → (thread.stop u ≡ thread.stop (s.threads j)) ⊎ (s.stop ≡ true)
        → Step s (put_thread s j u)
    shutdown : s.stop ≡ false → Step s (record s { stop = true })

  -- `m_next_thread_idx.fetch_add(1) % m_threads.size()`
  pub data Choose (s : Pool S) : Pool S → Type 0 where
    choose :
        (i : ℕ)
        → s.submitters i ≡ checked
        → Choose s (record (put_submitter s i (chosen (s.next_thread_idx % n))) {
          next_thread_idx = add_size s.next_thread_idx 1;
          choices = (s.next_thread_idx % n) ∷ s.choices;
        })

  abbrev pub new_pool : Pool S
  new_pool = record {
    threads = λ j. thread.start;
    next_thread_idx = 0;
    stop = false;
    submitters = λ i. outside;
    choices = [];
    submitted = [];
  }

  -- The states with `k` draws of an index.
  pub data Reach : ℕ → Pool S → Type 0 where
    start : Reach 0 new_pool
    later : {k : ℕ} {s t : Pool S} → Reach k s → Step s t → Reach k t
    draw : {k : ℕ} {s t : Pool S} → Reach k s → Choose s t → Reach (suc k) t

  -- The indices of `k` draws, the last one first.
  abbrev pub turns : ℕ → List ℕ
  turns zero = []
  turns (suc k) = (k % n) ∷ turns k
