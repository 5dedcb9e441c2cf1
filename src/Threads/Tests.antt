-- ===== src/Threads/Tests.antt =====
-- Runs of the two threads.
use parallel_operations_tool.Prelude.{ℕ, ◌≡◌, ◌⊎◌, refl, true, [], ◌∷◌, ◌++◌, map, arith, update}
use parallel_operations_tool.Threads.{requested, joining}
use parallel_operations_tool.Threads
use parallel_operations_tool.Threads.Locked
use parallel_operations_tool.Threads.LockFree
use parallel_operations_tool.Threads.LockedSafety.{asleep_attended, taken_in_order}
use parallel_operations_tool.Threads.LockFreeSafety.{
  blocked_notified, popped_in_turn, SomePushed, SomeNotifies,
}

-- The worker waits for a task, and a task is pushed.
abbrev attended : Locked.System ℕ
attended = record Locked.start_system {
  queue = 7 ∷ [];
  worker = Locked.asleep;
  callers = update (λ i. Locked.idle) 0 Locked.pushed;
  accepted = 7 ∷ [];
}

attended-Reach : Locked.Reach attended
attended-Reach =
    Locked.later
      (Locked.later
        (Locked.later
          (Locked.later (Locked.later Locked.start (Locked.find_no_stop refl refl))
            (Locked.lock refl))
          (Locked.unsatisfied refl refl refl))
        (Locked.block refl))
      (Locked.push 0 7 refl tt)

asleep_attended_example : (i : ℕ) × (attended.callers i ≡ Locked.pushed)
asleep_attended_example = asleep_attended attended-Reach refl (λ e. cc)

taken_in_order_example :
    (attended.accepted ≡ attended.taken ++ attended.queue)
    × (attended.worker ≡ Locked.exited → attended.stop ≡ true)
    × ((k : ℕ) → attended.stoppers k ≡ Threads.joined → attended.worker ≡ Locked.exited)
taken_in_order_example = taken_in_order attended-Reach

-- `request_stop` does not hold the mutex: it comes between the worker's predicate and its wait. The
-- worker is blocked, nothing is left that would notify it, and `join` waits for it.
abbrev lost_stop : Locked.System ℕ
lost_stop = record Locked.start_system {
  stop = true;
  worker = Locked.asleep;
  stoppers = update (update (λ k. Threads.idle) 0 (requested true)) 0 joining;
}

lost_stop_test : Locked.Reach lost_stop
lost_stop_test =
    Locked.later
      (Locked.later
        (Locked.later
          (Locked.later
            (Locked.later (Locked.later Locked.start (Locked.find_no_stop refl refl))
              (Locked.lock refl))
            (Locked.unsatisfied refl refl refl))
          (Locked.request 0 true refl))
        (Locked.notify_all_nobody 0 true refl (λ e. cc)))
      (Locked.block refl)

-- A task that was pushed before the request to stop is still in the queue when the worker returns.
abbrev left_over : Locked.System ℕ
left_over = record Locked.start_system {
  queue = 7 ∷ [];
  stop = true;
  worker = Locked.exited;
  callers = update (λ i. Locked.idle) 0 Locked.pushed;
  stoppers = update (λ k. Threads.idle) 0 (requested true);
  accepted = 7 ∷ [];
}

left_over_test : Locked.Reach left_over
left_over_test =
    Locked.later
      (Locked.later (Locked.later Locked.start (Locked.push 0 7 refl tt))
        (Locked.request 0 true refl))
      (Locked.find_stop refl refl)

-- The worker of `thread_lf` waits for a task, and a task is pushed.
abbrev notified : LockFree.System ℕ
notified = record LockFree.start_system {
  queue = LockFree.claimed 0 7 ∷ [];
  worker = LockFree.asleep;
  callers = update (λ i. LockFree.idle) 0 LockFree.claiming;
  accepted = 7 ∷ [];
}

notified-Reach : LockFree.Reach notified
notified-Reach =
    LockFree.later
      (LockFree.later
        (LockFree.later
          (LockFree.later
            (LockFree.later (LockFree.later LockFree.start (LockFree.pop_nothing refl tt))
              (LockFree.find_no_stop refl refl))
            (LockFree.clear refl))
          (LockFree.pop_nothing_again refl tt))
        (LockFree.block refl refl))
      (LockFree.push 0 7 refl (omega arith))

blocked_notified_example :
    SomePushed notified ⊎ ((notified.has_work ≡ true) × SomeNotifies notified)
blocked_notified_example = blocked_notified notified-Reach refl (λ e. cc)

popped_in_turn_example :
    (notified.accepted ≡ notified.taken ++ map LockFree.task_of notified.queue)
    × (notified.worker ≡ LockFree.exited → notified.stop ≡ true)
    × ((k : ℕ) → notified.stoppers k ≡ Threads.joined → notified.worker ≡ LockFree.exited)
popped_in_turn_example = popped_in_turn notified-Reach

-- The store of `false` hides the store of `true` of a request to stop that came after the test: the
-- worker is blocked, and `join` waits for it.
abbrev hidden_stop : LockFree.System ℕ
hidden_stop = record LockFree.start_system {
  stop = true;
  worker = LockFree.asleep;
  stoppers =
      update (update (update (λ k. Threads.idle) 0 (requested true)) 0 (Threads.announced true)) 0
        joining;
}

hidden_stop_test : LockFree.Reach hidden_stop
hidden_stop_test =
    LockFree.later
      (LockFree.later
        (LockFree.later
          (LockFree.later
            (LockFree.later
              (LockFree.later
                (LockFree.later (LockFree.later LockFree.start (LockFree.pop_nothing refl tt))
                  (LockFree.find_no_stop refl refl))
                (LockFree.request 0 true refl))
              (LockFree.store_all 0 true refl))
            (LockFree.notify_all_nobody 0 true refl (λ e. cc)))
          (LockFree.clear refl))
        (LockFree.pop_nothing_again refl tt))
      (LockFree.block refl refl)

-- A task that comes, with the request to stop, between the worker's `pop` and its test is lost.
abbrev lost_task : LockFree.System ℕ
lost_task = record LockFree.start_system {
  queue = LockFree.claimed 0 7 ∷ [];
  stop = true;
  worker = LockFree.exited;
  callers = update (λ i. LockFree.idle) 0 LockFree.claiming;
  stoppers = update (λ k. Threads.idle) 0 (requested true);
  accepted = 7 ∷ [];
}

lost_task_test : LockFree.Reach lost_task
lost_task_test =
    LockFree.later
      (LockFree.later
        (LockFree.later (LockFree.later LockFree.start (LockFree.pop_nothing refl tt))
          (LockFree.push 0 7 refl (omega arith)))
        (LockFree.request 0 true refl))
      (LockFree.find_stop refl refl)

-- The call 0 has won the first position and not published it, and the call 1 has published the next one:
-- the worker's second `pop` finds nothing, and it is blocked with a task in the queue. The call 1 is still
-- before its store to `m_has_work`.
abbrev unpublished : LockFree.System ℕ
unpublished = record LockFree.start_system {
  queue = LockFree.claimed 0 7 ∷ LockFree.published 8 ∷ [];
  worker = LockFree.asleep;
  callers =
      update (update (update (λ i. LockFree.idle) 0 LockFree.claiming) 1 LockFree.claiming) 1
        LockFree.pushed;
  accepted = 7 ∷ 8 ∷ [];
}

unpublished_test : LockFree.Reach unpublished
unpublished_test =
    LockFree.later
      (LockFree.later
        (LockFree.later
          (LockFree.later
            (LockFree.later
              (LockFree.later
                (LockFree.later
                  (LockFree.later LockFree.start (LockFree.push 0 7 refl (omega arith)))
                  (LockFree.push 1 8 refl (omega arith)))
                (LockFree.publish 1 refl))
              (LockFree.pop_nothing refl tt))
            (LockFree.find_no_stop refl refl))
          (LockFree.clear refl))
        (LockFree.pop_nothing_again refl tt))
      (LockFree.block refl refl)
