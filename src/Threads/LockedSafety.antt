-- ===== src/Threads/LockedSafety.antt =====
-- What holds in every state of the thread with the mutex.
use parallel_operations_tool.Prelude.{
  ℕ, ◌≡◌, ◌≢◌, subst, true, [], ◌∷◌, ◌++◌, append_assoc, update_self, arith,
}
use parallel_operations_tool.Threads.{joined}
use parallel_operations_tool.Threads.Locked.{
  pushed, blocking, asleep, exited, IsFree, System, Step, push, notify_one, notify_nobody, request,
  notify_all, notify_all_nobody, join, wake, find_stop, find_no_stop, lock, satisfied, unsatisfied,
  block, leave, take, take_nothing, finish, Reach, start, later,
}

module _ {T : Type 0} where
  record Inv (s : System T) : Type 0 where
    order : s.accepted ≡ s.taken ++ s.queue
    blocking_empty : s.worker ≡ blocking → s.queue ≡ []
    asleep_attended : s.worker ≡ asleep → s.queue ≢ [] → (i : ℕ) × (s.callers i ≡ pushed)
    exit_stopped : s.worker ≡ exited → s.stop ≡ true
    join_exited : (k : ℕ) → s.stoppers k ≡ joined → s.worker ≡ exited

  Step-Inv : {s t : System T} → Inv s → Step s t → Inv t
  Step-Inv {s} inv (push i t e free) = record {
    order = ground (arith, append_assoc s.taken s.queue (t ∷ []));
    blocking_empty = λ b. absurd (subst IsFree b free);
    asleep_attended = λ _ _. (i, update_self s.callers i pushed);
    exit_stopped = inv.exit_stopped;
    join_exited = inv.join_exited;
  }
  Step-Inv inv (notify_one i e w) = ground arith
  Step-Inv inv (notify_nobody i e w) = ground arith
  Step-Inv inv (request k joins e) = ground arith
  Step-Inv inv (notify_all k joins e w) = ground arith
  Step-Inv inv (notify_all_nobody k joins e w) = ground arith
  Step-Inv inv (join k e w) = ground arith
  Step-Inv inv (wake e) = ground arith
  Step-Inv inv (find_stop e h) = ground arith
  Step-Inv inv (find_no_stop e h) = ground arith
  Step-Inv inv (lock e) = ground arith
  Step-Inv inv (satisfied e h) = ground arith
  Step-Inv inv (unsatisfied e h q) = ground arith
  Step-Inv inv (block e) = ground arith
  Step-Inv inv (leave e h q) = ground arith
  Step-Inv {s} inv (take u us e q) = ground (arith, append_assoc s.taken (u ∷ []) us)
  Step-Inv inv (take_nothing e h q) = ground arith
  Step-Inv inv (finish e) = ground arith

  Reach-Inv : {s : System T} → Reach s → Inv s
  Reach-Inv start = ground arith
  Reach-Inv (later r step) = Step-Inv (Reach-Inv r) step

  -- While the worker is in `wait` and there is a task in the queue, some call of `run` is before its
  -- `notify_one`, which ends the wait.
  pub asleep_attended :
      {s : System T} → Reach s → s.worker ≡ asleep → s.queue ≢ [] → (i : ℕ) × (s.callers i ≡ pushed)
  asleep_attended r = (Reach-Inv r).asleep_attended

  -- The worker takes the tasks in the order in which calls of `run` got the lock, each once; what it
  -- has not taken is in the queue. It returns only after a request to stop, and `join` returns only
  -- after the worker.
  pub taken_in_order :
      {s : System T}
      → Reach s
      → (s.accepted ≡ s.taken ++ s.queue)
        × (s.worker ≡ exited → s.stop ≡ true)
        × ((k : ℕ) → s.stoppers k ≡ joined → s.worker ≡ exited)
  taken_in_order r = let inv = Reach-Inv r in (inv.order, inv.exit_stopped, inv.join_exited)
