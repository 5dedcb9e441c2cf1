-- ===== src/Pools/Wake.antt =====
-- `derived_execute` and `worker_loop` of `thread_pool_executor_gq` a shared access at a time, for any
-- number of submitting threads and `n` workers, before a shutdown.
pub mod Invariant
pub mod Safety
use native.Mathlib.Nat.{mod-eq_of_lt}
use parallel_operations_tool.Prelude.{
  ℕ, zero, suc, ◌+◌, ◌^◌, ◌≤◌, ◌<◌, ◌≡◌, ◌≢◌, ◌⊎◌, inl, inr, refl, sym, ap, ◌∙◌, subst, List, [],
  ◌∷◌, ◌++◌, arith, update, update_self, update_ne, add_size, ℕ_discrete, if◌then◌else◌, ◌==◌,
}

-- A submitting thread: before or after a call, behind the block with the lock, and behind
-- `m_notifier.fetch_add`.
pub data Submitter : Type 0 where
  idle pushed added : Submitter

-- A worker: at the head of its loop, behind the load of `m_notifier`, in a task, before `wait` and
-- blocked in it.
pub data Worker : Type 0 where
  reading running : Worker
  checking waiting blocked : (seen : ℕ) → Worker

pub record System (T : Type 0) : Type 0 where
  pub tasks : List T
  pub notifier : ℕ
  pub submitters : ℕ → Submitter
  pub workers : ℕ → Worker

abbrev pub put_submitter : {T : Type 0} → System T → ℕ → Submitter → System T
put_submitter s i c = record s { submitters = update s.submitters i c }

abbrev pub put_worker : {T : Type 0} → System T → ℕ → Worker → System T
put_worker s j c = record s { workers = update s.workers j c }

-- `notify_one` lets one go on that is blocked on another value than the present one, if there is one.
pub data Step {T : Type 0} (n : ℕ) (s : System T) : System T → Type 0 where
  push :
      (i : ℕ) (t : T)
      → s.submitters i ≡ idle
      → Step n s (record (put_submitter s i pushed) { tasks = s.tasks ++ (t ∷ []) })
  notify_worker :
      (i j seen : ℕ)
      → s.submitters i ≡ added
      → j < n
      → s.workers j ≡ blocked seen
      → seen ≢ s.notifier
      → Step n s (put_worker (put_submitter s i idle) j reading)
  notify_nobody :
      (i : ℕ)
      → s.submitters i ≡ added
      → ((j seen : ℕ) → j < n → s.workers j ≡ blocked seen → seen ≡ s.notifier)
      → Step n s (put_submitter s i idle)
  load : (j : ℕ) → j < n → s.workers j ≡ reading → Step n s (put_worker s j (checking s.notifier))
  take :
      (j seen : ℕ) (t : T) (ts : List T)
      → j < n
      → s.workers j ≡ checking seen
      → s.tasks ≡ t ∷ ts
      → Step n s (record (put_worker s j running) { tasks = ts })
  find_nothing :
      (j seen : ℕ)
      → j < n
      → s.workers j ≡ checking seen
      → s.tasks ≡ []
      → Step n s (put_worker s j (waiting seen))
  finish : (j : ℕ) → j < n → s.workers j ≡ running → Step n s (put_worker s j reading)
  block :
      (j seen : ℕ)
      → j < n
      → s.workers j ≡ waiting seen
      → seen ≡ s.notifier
      → Step n s (put_worker s j (blocked seen))
  go_on :
      (j seen : ℕ)
      → j < n
      → s.workers j ≡ waiting seen
      → seen ≢ s.notifier
      → Step n s (put_worker s j reading)

-- `m_notifier.fetch_add(1)`
pub data Add {T : Type 0} (s : System T) : System T → Type 0 where
  add :
      (i : ℕ)
      → s.submitters i ≡ pushed
      → Add s (record (put_submitter s i added) { notifier = add_size s.notifier 1 })

abbrev pub start_system : {T : Type 0} → System T
start_system = record { tasks = []; notifier = 0; submitters = λ i. idle; workers = λ j. reading }

-- The states that `n` workers and any submitters reach with `k` increments of the notifier.
pub data Reach {T : Type 0} (n : ℕ) : ℕ → System T → Type 0 where
  start : Reach n 0 start_system
  later : {k : ℕ} {s t : System T} → Reach n k s → Step n s t → Reach n k t
  notified : {k : ℕ} {s t : System T} → Reach n k s → Add s t → Reach n (k + 1) t
