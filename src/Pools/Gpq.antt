-- ===== src/Pools/Gpq.antt =====
-- `thread_pool_executor_gpq`: one priority queue for all threads. A `std::priority_queue` is the list
-- of its items, latest first; `top` is one that is not less than another.
use parallel_operations_tool.Prelude.{
  ℕ, ltb, ◌==◌, if◌then◌else◌, Bool, Option, none, some, List, [], ◌∷◌, add_size,
}
use parallel_operations_tool.Pools.{
  Global, Submitted, Turn, init_global, submit_global, shutdown_global, turn_global,
}

-- `task_item`
pub record Item {ℓ} (T : Type ℓ) : Type ℓ where
  pub func : T
  pub priority : ℕ
  pub sequence : ℕ

-- `work_pqueue`
pub record WorkPqueue {ℓ} (T : Type ℓ) : Type ℓ where
  pub items : List (Item T)
  pub seq_counter : ℕ

module _ {ℓ} {T : Type ℓ} where
  -- `operator<`
  abbrev pub is_less : Item T → Item T → Bool
  is_less x y =
      if x.priority == y.priority then ltb y.sequence x.sequence else ltb y.priority x.priority

  -- `top` and `pop` of an item and those of a list: a greatest one, and the others.
  unfoldable pub take_top : Item T → List (Item T) → Item T × List (Item T)
  take_top x [] = (x, [])
  take_top x (y ∷ ys) =
      let (z, zs) = take_top y ys in if is_less x z then (z, x ∷ zs) else (x, z ∷ zs)

  unfoldable pub init : ℕ → Global (WorkPqueue T)
  init num_threads = init_global (record { items = []; seq_counter = 0 }) num_threads

  -- `m_queue.tasks.push(task_item{func, priority, m_queue.seq_counter++})`
  abbrev pub put_item : ℕ → T → WorkPqueue T → Option (WorkPqueue T)
  put_item runs func q = some (record {
    items = record { func = func; priority = runs; sequence = q.seq_counter } ∷ q.items;
    seq_counter = add_size q.seq_counter 1;
  })

  -- `runs` is the `run_count` of the coroutine, or 0 where there is none.
  unfoldable pub derived_execute : Global (WorkPqueue T) → ℕ → T → Submitted (Global (WorkPqueue T))
  derived_execute p runs func = submit_global (put_item runs func) p

  unfoldable pub shutdown : Global (WorkPqueue T) → Global (WorkPqueue T)
  shutdown p = shutdown_global p

  unfoldable pub take_item : WorkPqueue T → Option T × WorkPqueue T
  take_item q = elim q.items [
    | [] ↦ (none, q)
    | (x ∷ xs) ↦ let (z, zs) = take_top x xs in (some z.func, record q { items = zs })
  ]

  -- A round of `worker_loop`.
  unfoldable pub turn : Bool → Bool → Global (WorkPqueue T) → Turn T × Global (WorkPqueue T)
  turn stop stop_again p = turn_global take_item stop stop_again p
