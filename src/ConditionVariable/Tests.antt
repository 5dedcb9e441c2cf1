-- ===== src/ConditionVariable/Tests.antt =====
-- Runs of the condition variable.
use parallel_operations_tool.Prelude.{
  ℕ, ◌↔◌, ◌≡◌, ◌≢◌, ◌⊎◌, refl, true, false, List, [], ◌∷◌, update,
}
use parallel_operations_tool.ConditionVariable.{
  outside, pushing, waiting, idle, swapping, stopping, stop, drop_list, resumes, System, IsIn,
  find_unset, push, set, swap, finish, start_state, Reach, start, later,
}
use parallel_operations_tool.ConditionVariable.Invariant.{resumed_once, waiting_listed}

-- Two coroutines wait, and a `set` has taken their list: the one that came last is first.
abbrev taken : System
taken = record (start_state false) {
  set_state = true;
  pc = update (update (update (update (λ i. outside) 0 pushing) 0 waiting) 1 pushing) 1 waiting;
  callers = update (update (λ k. idle) 0 swapping) 0 (resumes (1 ∷ 0 ∷ []));
}

taken-Reach : Reach false taken
taken-Reach =
    later
      (later
        (later
          (later (later (later start (find_unset 0 refl refl)) (push 0 refl))
            (find_unset 1 refl refl))
          (push 1 refl))
        (set 0 refl))
      (swap 0 refl)

resumed_once_example :
    (taken.pc 1 ≡ waiting)
    × (IsIn 1 taken.head → ⊥)
    × (IsIn 1 taken.dropped → ⊥)
    × (IsIn 1 (0 ∷ []) → ⊥)
    × ((j : ℕ) (other : List ℕ) → 0 ≢ j → taken.callers j ≡ resumes other → IsIn 1 other → ⊥)
resumed_once_example = resumed_once 0 1 (0 ∷ []) taken-Reach refl

-- A coroutine waits, and a `stop` drops it: it stays suspended.
abbrev dropped_one : System
dropped_one = record (start_state false) {
  dropped = 0 ∷ [];
  pc = update (update (λ i. outside) 0 pushing) 0 waiting;
  callers = update (update (λ k. idle) 0 stopping) 0 idle;
}

dropped_one-Reach : Reach false dropped_one
dropped_one-Reach =
    later (later (later (later start (find_unset 0 refl refl)) (push 0 refl)) (stop 0 refl))
      (drop_list 0 refl)

waiting_listed_example :
    ((dropped_one.pc 0 ≡ waiting) ↔ (
      IsIn 0 dropped_one.head
      ⊎ ((k : ℕ) × (l : List ℕ) × (dropped_one.callers k ≡ resumes l) × IsIn 0 l)
      ⊎ IsIn 0 dropped_one.dropped))
    × (IsIn 0 dropped_one.dropped
        → (IsIn 0 dropped_one.head → ⊥)
          × ((k : ℕ) (l : List ℕ) → dropped_one.callers k ≡ resumes l → IsIn 0 l → ⊥))
waiting_listed_example = waiting_listed 0 dropped_one-Reach

-- A `set` comes between the test and the push: the coroutine stays suspended although the variable is
-- set and no `set` is under way.
abbrev missed : System
missed = record (start_state false) {
  set_state = true;
  head = 0 ∷ [];
  pc = update (update (λ i. outside) 0 pushing) 0 waiting;
  callers = update (update (update (λ k. idle) 0 swapping) 0 (resumes [])) 0 idle;
}

missed_test : Reach false missed
missed_test =
    later
      (later (later (later (later start (find_unset 0 refl refl)) (set 0 refl)) (swap 0 refl))
        (finish 0 refl))
      (push 0 refl)
