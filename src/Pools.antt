-- ===== src/Pools.antt =====
-- include/pot/sandbox/thread_pool_executor.h: what its twelve executors have in common. A task is a
-- function object that is not empty. Each executor is a child, with its constructor, its
-- `derived_execute`, its `shutdown` and one round of its `worker_loop`.
pub mod Share
pub mod Gq
pub mod Gs
pub mod GsHot
pub mod Lq
pub mod Ls
pub mod LsHot
pub mod LqStealSeq
pub mod LqStealNeighbor
pub mod Gpq
pub mod Lfgq
pub mod Lflq
pub mod LqlfStealSeq
pub mod Rounds
pub mod History
pub mod Kept
pub mod Stealing
pub mod Priority
pub mod Wake
mod Tests
mod Defs
unfoldable pub use Defs.*
