-- ===== src/AsyncLock/GuardTests.antt =====
-- Guards of include/pot/sync/async_lock.h that are moved.
use parallel_operations_tool.Prelude.{◌+◌, ◌≡◌, refl, [], ◌∷◌, arith}
use parallel_operations_tool.Schedule.{count}
use parallel_operations_tool.AsyncLock.Guards.{
  Guards, make, destroy, move_assign, Reach, start, later, holders, guards_balanced,
}

-- Two guards are made, one takes over the lock of the other, and goes.
moved_guards : (s : Guards) × Reach 2 s
moved_guards = (
  _,
  later
      (later (later (later start (make 0 7 (omega arith) refl)) (make 1 8 (omega arith) refl))
        (move_assign 0 1 (omega arith) (omega arith)))
      (destroy 0 (omega arith)),
)

guards_balanced_example :
    count 8 moved_guards.0.acquired ≡ count 8 moved_guards.0.unlocked + holders 2 8 moved_guards.0
guards_balanced_example = guards_balanced 2 8 moved_guards.1

guards_test : moved_guards.0.unlocked ≡ 8 ∷ 7 ∷ []
unfolding moved_guards
guards_test = refl
