-- ===== src/AsyncLock/Tests.antt =====
-- Two coroutines at one lock.
use parallel_operations_tool.Prelude.{ℕ, ◌≡◌, ◌≢◌, ◌⊎◌, refl, none, some, arith}
use parallel_operations_tool.BoundedQueue
use parallel_operations_tool.AsyncLock.{
  critical, scheduled, handing, System, suspend, acquire, contend, enqueue, hand_over, Reach, start,
  later,
}
use parallel_operations_tool.AsyncLock.Safety.{mutual_exclusion, waiter_has_waker}

record Run : Type 0 where
  last : System
  reach : Reach 2 last

-- Coroutine 0 holds the lock, and coroutine 1 waits for it, to be resumed on executor 7.
contended : Run
unfolding BoundedQueue.push
contended = record {
  last = _;
  reach =
      later
        (later
          (later
            (later (later start (suspend 0 none (omega arith) refl))
              (acquire 0 (omega arith) refl refl))
            (suspend 1 (some 7) (omega arith) refl))
          (contend 1 (omega arith) refl (omega arith)))
        (enqueue 1 (omega arith) refl refl);
}

-- Coroutine 0 leaves the section and looks for its successor.
handing_over : Run
unfolding contended
handing_over = record {
  last = _;
  reach = later contended.reach (hand_over 0 (omega arith) refl (omega arith));
}

mutual_exclusion_example : ◌≡◌ {A = ℕ} 0 0
unfolding contended
mutual_exclusion_example = mutual_exclusion (omega arith) contended.reach 0 0 refl refl

waiter_has_waker_example :
    (j : ℕ) × (j ≢ 1)
    × ((contended.last.pc j ≡ critical)
        ⊎ (contended.last.pc j ≡ scheduled)
        ⊎ (contended.last.pc j ≡ handing))
unfolding contended
waiter_has_waker_example = waiter_has_waker (omega arith) contended.reach 1 refl
