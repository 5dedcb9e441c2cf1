-- ===== src/Threads.antt =====
-- include/pot/threads/thread.h: a thread with a queue of tasks, `thread` in Locked.antt and `thread_lf`
-- in LockFree.antt, with the calls of `run`, `request_stop` and `join` by other threads.
pub mod Locked
pub mod LockFree
pub mod LockedSafety
pub mod LockFreeSafety
mod Tests
use parallel_operations_tool.Prelude.{Bool, if◌then◌else◌}

-- A caller of `request_stop`, or of `join`, which calls it first: behind the request, behind the
-- store to `m_has_work` that `thread_lf` makes in between, and in the `join` of the standard thread.
pub data Stopper : Type 0 where
  idle joining joined : Stopper
  requested announced : (joins : Bool) → Stopper

abbrev pub after_notify : Bool → Stopper
after_notify joins = if joins then joining else idle
