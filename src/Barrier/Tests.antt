-- ===== src/Barrier/Tests.antt =====
-- One coroutine that waits for one call of `set`.
use parallel_operations_tool.Prelude.{◌≢◌, refl, [], ◌∷◌, arith, update}
use parallel_operations_tool.Barrier.{
  outside, suspending, waiting, passed, idle, swapping, resuming, System, find_open, push_back,
  swap, resume, finish, add, Reach, start, later, set,
}
use parallel_operations_tool.Barrier.Safety.{nobody_left}

abbrev released : System
released = record {
  barrier = record { current_count = 1; awaiters = [] };
  pc = update (update (update (λ i. outside) 4 suspending) 4 waiting) 4 passed;
  setters =
      update (update (update (update (λ k. idle) 2 swapping) 2 (resuming (4 ∷ []))) 2 (resuming []))
        2 idle;
}

released-Reach : Reach 1 1 released
released-Reach =
    later
      (later
        (later
          (set
            (later (later start (find_open 4 refl (omega arith))) (push_back 4 refl (omega arith)))
            (add 2 refl))
          (swap 2 refl))
        (resume 2 4 [] refl))
      (finish 2 refl)

nobody_left_example : released.pc 4 ≢ waiting
nobody_left_example =
    nobody_left 1 1 released released-Reach (omega arith) (omega arith) (λ k. ground arith) 4
