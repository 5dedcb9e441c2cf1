-- ===== src/Executors/Blocks.antt =====
-- What the executors with one queue do under their mutex, as functions of `m_stop` and the queue.
use parallel_operations_tool.Prelude.{
  ◌≡◌, arith, Bool, true, false, ◌&&◌, ◌||◌, not, if◌then◌else◌, List, [], ◌∷◌, ◌++◌, Option, some,
  none, ◌↔◌,
}

-- The block of a worker ends in `wait`, returns, takes a task, or leaves `task` empty.
pub data Block (T : Type 0) : Type 0 where
  waits leaves skips : Block T
  takes : T → List T → Block T

module _ {T : Type 0} where
  abbrev empty : List T → Bool
  empty [] = true
  empty (t ∷ ts) = false

  -- `task = std::move(front()); pop();`. On an empty queue it has no meaning.
  abbrev pop_front : List T → Option (Block T)
  pop_front [] = none
  pop_front (t ∷ ts) = some (takes t ts)

  -- `worker_loop` of `thread_pool_executor_gq`, of `thread_pool_executor_lfgq`, and `thread_loop`.
  unfoldable pub gq_block : Bool → List T → Option (Block T)
  gq_block stop tasks =
      if not (stop || not (empty tasks))
      then some waits
      else (if stop && empty tasks then some leaves else pop_front tasks)

  unfoldable pub lfgq_block : Bool → List T → Option (Block T)
  lfgq_block stop tasks =
      if not (stop || not (empty tasks))
      then some waits
      else (if stop && empty tasks
          then some leaves
          else (if not (empty tasks) then pop_front tasks else some skips))

  unfoldable pub thread_block : Bool → List T → Option (Block T)
  thread_block stop tasks =
      if not (stop || not (empty tasks))
      then some waits
      else (if stop && empty tasks then some leaves else pop_front tasks)

  -- The block of `derived_execute`, where `none` is the exception.
  unfoldable pub gq_execute : Bool → List T → T → Option (List T)
  gq_execute stop tasks func = if stop then none else some (tasks ++ (func ∷ []))

  unfoldable pub lfgq_execute : Bool → List T → T → Option (List T)
  lfgq_execute stop tasks func = if stop then none else some (tasks ++ (func ∷ []))

  unfoldable pub thread_execute : Bool → List T → T → Option (List T)
  thread_execute stop tasks func = some (tasks ++ (func ∷ []))

  -- A block waits, leaves or takes a task as the steps of a worker do.
  abbrev pub WorksAs : (Bool → List T → Option (Block T)) → Type 0
  WorksAs block =
      (stop : Bool) (tasks : List T)
      → ((block stop tasks ≡ some waits) ↔ ((stop ≡ false) × (tasks ≡ [])))
        × ((block stop tasks ≡ some leaves) ↔ ((stop ≡ true) × (tasks ≡ [])))
        × ((t : T) (ts : List T) → (block stop tasks ≡ some (takes t ts)) ↔ (tasks ≡ t ∷ ts))

  -- The three loops wait, return and take a task in the same cases: they wait when the queue is empty
  -- and there is no stop, return when it is empty and there is one, and take the first task otherwise.
  pub blocks_lem : WorksAs gq_block × WorksAs lfgq_block × WorksAs thread_block
  unfolding gq_block lfgq_block thread_block
  blocks_lem = (gq, lfgq, gq)
    where
      gq : WorksAs gq_block
      gq true [] = ground arith
      gq true (t ∷ ts) = ground arith
      gq false [] = ground arith
      gq false (t ∷ ts) = ground arith

      lfgq : WorksAs lfgq_block
      lfgq true [] = ground arith
      lfgq true (t ∷ ts) = ground arith
      lfgq false [] = ground arith
      lfgq false (t ∷ ts) = ground arith
