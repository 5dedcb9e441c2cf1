-- ===== src/Lib.antt =====
-- A model of the Parallel Operations Toolkit (pot), C++20 coroutines, executors and algorithms on
-- them, and what makes its parts correct. Paths are from the repository's root. The headers under
-- include/pot are modelled; the C++ modules under modules/ repeat them.
--
-- Prelude.antt holds the shared names: Boolean tests and the conditional, lists over the native
-- numbers, arrays and tables of threads as families with update and weighted sums, `size_t` and
-- `intptr_t` of 64 bits with their wrap-around, and chains of options.
--
-- The parts, from the bottom:
--
-- - LfQueue.antt, include/pot/algorithms/lfqueue.h: `lfqueue`, a ring of 1024 cells with sequence
--   numbers. The file has `push` and `pop` as one thread runs them, with their retry loops on
--   fuel: one round is enough on a valid queue (LfQueue/Refine.antt), and LfQueue/Client.antt
--   compares sequences of calls with the bounded queue of BoundedQueue.antt. LfQueue/Threads.antt
--   has the same two functions a shared access at a time, for any number of threads in any order;
--   LfQueue/Invariant.antt and its children hold the invariant of that system, and
--   LfQueue/Safety.antt what follows.
--
-- - Schedule.antt: what an executor and `when_all` (include/pot/coroutines/when_all.h) do for the
--   algorithms: every submitted task makes its calls in its own order, tasks interleave in any
--   order, and the algorithm goes on when all have ended.
--
-- - Parfor.antt, include/pot/algorithms/parfor.h: `parfor`, the chunk size, the number of chunks,
--   the chunks and the calls of each. `none` is a failed assertion, a division by zero or an
--   overflow of `int64_t`.
--
-- - Parsections.antt, include/pot/algorithms/parsections.h: `parsections` with the loop of
--   `when_all` a step at a time, for functions that may throw and an executor that may refuse;
--   Parsections/Safety.antt is about what it returns or throws, Parsections/Ends.antt about its
--   steps.
--
-- - Memory.antt, include/pot/memory/coro_memory.h and the operators `new` and `delete` of the
--   promises in include/pot/coroutines/task.h: the resource of the frames, and what each resource
--   has handed out. Memory/Safety.antt is about the blocks that go back.
--
-- - ThisThread.antt, src/utils/this_thread.cpp: `set_params` and `get_params` on Linux, over a
--   record of the calls of the system; ThisThread/Laws.antt states what the manual says of these
--   and proves what follows.
--
-- - Reduce.antt, include/pot/algorithms/reduce.h: `elementwise_reduce`, its blocks, the slots
--   that the calls write, and the final loop, for every schedule of the calls. Reduce/Split.antt
--   is about the parts of a range, Reduce/Blocks.antt about the result. Reduce/Simd.antt is
--   `elementwise_reduce_simd`, with the registers of `simd_forced` as a parameter;
--   Reduce/Operation.antt says what they have to do, Reduce/Widths.antt bounds the blocks, and
--   Reduce/Lanes.antt is about the result; Reduce/Spans.antt has the overloads that compare
--   sizes.
--
-- - AsyncLock.antt, include/pot/sync/async_lock.h: `async_lock`, with `await_suspend`, `unlock`
--   and the guard as steps of coroutines that share the counter and the queue of waiters. The
--   queue is taken as the bounded queue of BoundedQueue.antt; a push or a pop that fails is tried
--   again. AsyncLock/Guards.antt is about the moves of `scoped_lock_guard`.
--
-- - Deque.antt and LfDequeue.antt, include/pot/algorithms/lfdequeue.h: `lfdequeue`, the
--   work-stealing deque: the ring buffers with `resize`, `push`, `pop`, `register_stealer`,
--   `pop_back` and `reclaim_buffers`, a call at a time. LfDequeue/Refine.antt compares them with
--   the list of Deque.antt, by LfDequeue/Valid.antt and LfDequeue/Shrink.antt on the two tests
--   for a new buffer, LfDequeue/Buffers.antt is about one ring buffer, LfDequeue/Reclaim.antt
--   about the buffers that may be deleted. LfDequeue/Threads.antt, with its state in
--   LfDequeue/Threads/State.antt, interleaves `push`, `pop` and `reclaim_buffers` of the owner
--   with `register_stealer` and `pop_back` of any number of stealers, a shared access at a time:
--   LfDequeue/Threads/Claims.antt compares each step with the operations of the list, by
--   LfDequeue/Threads/Effects.antt and LfDequeue/Threads/Numbers.antt,
--   LfDequeue/Threads/Slots.antt, LfDequeue/Threads/Writes.antt and LfDequeue/Threads/Items.antt
--   are about the elements that are read, LfDequeue/Threads/Reclaim.antt about the buffers that
--   are not deleted.
--
-- - Task.antt, include/pot/coroutines/task.h: the promise of `task` and `lazy_task` with its
--   operations. Task/Protocol.antt interleaves the end of a coroutine (`final_awaiter`) with
--   `await_ready`, `await_suspend` and `await_resume` of the coroutine that awaits it, a shared
--   access at a time; Task/Invariant.antt and Task/Safety.antt are about that system.
--   Task/Handles.antt has the objects `task` and `lazy_task` and the frames that they own;
--   Task/Ownership.antt and Task/Owned.antt are about the owners, and Task/Defined.antt about
--   what is undefined.
--
-- - Pools.antt, include/pot/sandbox/thread_pool_executor.h: the twelve thread pools.
--   Pools/Defs.antt has what they share; Gq, Gs, GsHot, Gpq and Lfgq have one queue, Lq, Ls,
--   LsHot, Lflq, LqStealSeq, LqStealNeighbor and LqlfStealSeq one for each thread, and each has
--   `init` (the constructor), `derived_execute`, `shutdown` and `turn` (a round of
--   `worker_loop`). A lock-free queue is taken as the bounded queue of BoundedQueue.antt, a call
--   at a time, which LfQueue.antt is compared with for one thread. Pools/Rounds.antt and
--   Pools/Share.antt are about the placement of tasks, Pools/Stealing.antt about stealing,
--   Pools/Priority.antt about the priority queue, Pools/History.antt and Pools/Kept.antt about
--   sequences of calls, and Pools/Wake.antt about `m_notifier`, a shared access at a time and
--   before a shutdown.
--
-- - Barrier.antt, include/pot/coroutines/async_barrier.h: `async_barrier`, with `await_ready`,
--   `await_suspend` and `set` as steps of coroutines and callers of `set`; Barrier/Invariant.antt
--   and Barrier/Safety.antt are about them.
--
-- - UniqueFunction.antt, include/pot/utils/unique_function.h: `unique_function_once` with its
--   buffer and its table of functions: the constructors, the moves, `operator()`, `reset`, and
--   programs over several variables. UniqueFunction/Spec.antt is what they promise,
--   UniqueFunction/Owned.antt the refinement, UniqueFunction/Once.antt how often an object is
--   called.
--
-- - SimdAuto.antt, include/pot/simd/simd_auto.h: `simd_auto`, a vector as its lanes, with its
--   constructors, `load` and `store` on buffers, `max`, `min`, `sum`, `prod` and `operator[]`;
--   SimdAuto/Arith.antt has the operators on lanes, SimdAuto/Maths.antt the functions of
--   `<cmath>`, SimdAuto/Compare.antt the comparisons. SimdAuto/Fill.antt is about their loop.
--   SimdAuto/Lanewise.antt, SimdAuto/Relations.antt, SimdAuto/Folds.antt and
--   SimdAuto/Buffers.antt compare them with descriptions lane by lane, and SimdAuto/Unsigned.antt
--   is about unsigned scalars.
--
-- - Threads.antt, include/pot/threads/thread.h: a thread with a queue of tasks.
--   Threads/Locked.antt is `thread`, with its mutex and condition variable, and
--   Threads/LockFree.antt `thread_lf`, a shared access at a time: `run`, `request_stop`, `join`
--   and `worker_loop`; in the lock-free queue a position that is won and not yet published makes
--   `pop` find nothing. Threads/LockedSafety.antt and Threads/LockFreeSafety.antt are about them,
--   and the runs in Threads/Tests.antt show how a stop or a task is lost.
--
-- - Executors.antt, include/pot/executors/thread_pool_executor.h and
--   src/executors/thread_executor.cpp: the executors with one queue, `thread_pool_executor_gq`,
--   `thread_pool_executor_lfgq` and `thread_executor`, as one system of submitters, workers and
--   callers of `shutdown`; Executors/Blocks.antt has the blocks under the mutex of each of the
--   three, Executors/Safety.antt the invariants. Executors/RoundRobin.antt has
--   `thread_pool_executor_lq` and `thread_pool_executor_lflq`, over a record of what they use of
--   a thread that `thread` and `thread_lf` fill, and Executors/RoundRobin/Turns.antt what holds
--   of them.
--
-- - Executors/Run.antt, include/pot/executors/executor.h and src/executors/inline_executor.cpp:
--   the coroutines of `run` and `lazy_run`, which hand their resumption to an executor, and
--   `run_detached`, over a record of what they use of it that the executors with one queue and
--   the inline one fill; Executors/Run/Once.antt is about the calls of their functions,
--   Executors/Run/Shutdown.antt about a shutdown of a pool.
--
-- - ConditionVariable.antt, include/pot/coroutines/async_condition_variable.h:
--   `async_condition_variable`, with the three functions of its awaiter, `set`, `stop` and
--   `reset` as steps; ConditionVariable/Invariant.antt is about where the suspended coroutines
--   are.
--
-- - SimdForced.antt, include/pot/simd/simd_traits.h: `max_scalar` and the `min` of one register
--   for SSE, over the intrinsics as a parameter; SimdForced/Extrema.antt is about them.
--
-- Bounds. Positions of a queue are `size_t`; the theorems hold while fewer than 2 ^ 62 were given
-- out. Ranges of `parfor` end below 2 ^ 63 and arrays of a reduction are shorter than 2 ^ 62, so
-- that the conversions to `int64_t` and the sums are exact. Fewer than 2 ^ 31 coroutines use one
-- lock, so that its `int` does not overflow. A `long` of the deque stays below 2 ^ 63, and a
-- notifier below 2 ^ 64. What `new T[n]` leaves in an array is an argument, `blank`.
--
-- Atomics are sequentially consistent here; the orders that the code names (acquire, release,
-- relaxed) are not modelled. Element types are any type, operations on elements any function:
-- where a result needs algebra of them, such as an associative operation, that is a hypothesis.
-- Exceptions thrown by a caller's function are modelled for the coroutines of Task.antt and
-- Executors/Run.antt and the sections of Parsections.antt only. The indices of the deque stay
-- below 2 ^ 63. Threads of a pool are started and joined by the standard library; whether they
-- were told to stop is an argument of `turn`.
--
-- Not modelled: include/pot/algorithms/dot.h, whose functions call an overload that no header
-- declares, and include/pot/sync/sync_object.h, which does not compile; the functions of
-- include/pot/simd/simd_traits.h that call one intrinsic of the compiler each; `cpu_set` of
-- include/pot/executors/executor.h, which measures the processors; the names, numbers and waits
-- of threads in src/utils/this_thread.cpp; the macros, the clock and the traits of types under
-- include/pot/utils and include/pot/traits; src/main.cpp, a demonstration with a thread pool of
-- its own.
pub mod Prelude
pub mod BoundedQueue
pub mod LfQueue
pub mod Deque
pub mod LfDequeue
pub mod Task
pub mod Pools
pub mod AsyncLock
pub mod Barrier
pub mod UniqueFunction
pub mod Schedule
pub mod Parfor
pub mod Reduce
pub mod SimdAuto
pub mod Threads
pub mod Executors
pub mod ConditionVariable
pub mod Parsections
pub mod Memory
pub mod ThisThread
pub mod SimdForced
