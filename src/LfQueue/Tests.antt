-- ===== src/LfQueue/Tests.antt =====
-- The queue at concrete inputs.
use parallel_operations_tool.Prelude.{
  ℕ, zero, suc, ◌<◌, ◌≡◌, refl, true, some, none, [], ◌∷◌, arith, get_elem?, drop,
}
use parallel_operations_tool.BoundedQueue
use parallel_operations_tool.BoundedQueue.{put, get}
use parallel_operations_tool.LfQueue.{capacity, LfQueue, init, push, push_loop, pop, pop_loop}
use parallel_operations_tool.LfQueue.Refine.{IsValid, contents}
use parallel_operations_tool.LfQueue.Client.{run, run_refines}
use parallel_operations_tool.LfQueue.Threads.{
  idle, push_start, push_ready, push_win, push_store, push_done, pop_start, pop_ready, pop_win,
  pop_take, System, pick, Reach, start, later,
}
use parallel_operations_tool.LfQueue.Safety.{cell_exclusive, popped_in_order, settled}

abbrev fresh_queue : LfQueue ℕ
unfolding init
fresh_queue = init 0

fresh-IsValid : IsValid fresh_queue
unfolding init
fresh-IsValid = record {
  behind = omega arith;
  room = omega arith;
  small = omega arith;
  full = λ p lo hi. absurd (omega arith);
  free = λ p lo hi. omega arith;
}

runs :
    run 1 fresh_queue (get ∷ put 7 ∷ put 8 ∷ get ∷ [])
    ≡ some (
        BoundedQueue.popped none
        ∷ BoundedQueue.accepted true
        ∷ BoundedQueue.accepted true
        ∷ BoundedQueue.popped (some 7)
        ∷ [])
unfolding init run push push_loop pop pop_loop
runs = refl

run_refines_example :
    run 1 fresh_queue (get ∷ put 7 ∷ get ∷ [])
    ≡ some (BoundedQueue.run capacity [] (get ∷ put 7 ∷ get ∷ []))
unfolding init
run_refines_example = run_refines 0 (get ∷ put 7 ∷ get ∷ []) fresh-IsValid (omega arith)

record Run : Type 0 where
  last : System ℕ
  reach : Reach 0 last

-- Thread 0 pushes 7.
pushed_once : Run
unfolding init
pushed_once = record {
  last = _;
  reach =
      later
        (later
          (later (later (later start (pick 0 (push_start 7))) (pick 0 (push_ready refl)))
            (pick 0 (push_win refl)))
          (pick 0 push_store))
        (pick 0 push_done);
}

-- Thread 1 then pops, up to the store of the sequence number.
popping_once : Run
unfolding init pushed_once
popping_once = record {
  last = _;
  reach =
      later
        (later (later (later pushed_once.reach (pick 1 pop_start)) (pick 1 (pop_ready refl)))
          (pick 1 (pop_win refl)))
        (pick 1 pop_take);
}

popped_in_order_example : (0 < 1) × (get_elem? {A = ℕ} (7 ∷ []) 0 ≡ some 7)
unfolding init popping_once
popped_in_order_example = popped_in_order popping_once.reach (omega arith) 1 0 7 refl

cell_exclusive_example : ◌≡◌ {A = ℕ} 1 1
unfolding init popping_once
cell_exclusive_example = cell_exclusive popping_once.reach (omega arith) 1 1 0 0 refl refl refl

-- Thread 0 looks into the empty queue.
looking : Run
unfolding init
looking = record { last = _; reach = later start (pick 0 pop_start) }

pushed_once_idle : (i : ℕ) → pushed_once.last.pc i ≡ idle
unfolding pushed_once
pushed_once_idle zero = refl
pushed_once_idle (suc i) = ground arith

settled_example :
    IsValid pushed_once.last.shared.queue
    × (contents pushed_once.last.shared.queue
        ≡ drop pushed_once.last.shared.dequeue_pos pushed_once.last.shared.pushed)
unfolding init pushed_once
settled_example = settled pushed_once.reach (omega arith) pushed_once_idle
