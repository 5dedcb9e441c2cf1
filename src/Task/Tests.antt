-- ===== src/Task/Tests.antt =====
-- A task and its awaiter in particular interleavings.
use parallel_operations_tool.Prelude.{ℕ, ◌≡◌, ◌≢◌, ◌⊎◌, refl, true, Option, none}
use parallel_operations_tool.Task.{
  null, Got, bad_function_call, fresh, set_value, exchange, store_ready, try_await, get, read,
}
use parallel_operations_tool.Task.Protocol.{
  Kind, eager, stored, found_sentinel, transferred, suspended, System, Reach, start, later,
  co_return, swap, store, notify, resume, find_busy, suspend, read_result,
}
use parallel_operations_tool.Task.Safety.{no_lost_wakeup, received_result, Delivers, ended_with}

record Run (kind : Kind) (steal : Option ℕ) : Type 0 where
  last : System ℕ ℕ
  reach : Reach kind 5 steal last

-- The awaiter suspends, and the task then returns 42 and is about to resume it.
about_to_resume : Run eager none
unfolding fresh set_value exchange store_ready try_await
about_to_resume = record {
  last = _;
  reach =
      later
        (later
          (later
            (later (later (later start (find_busy refl refl refl)) (suspend refl))
              (co_return 42 refl))
            (swap refl))
          (store refl))
        (notify refl);
}

resumed_run : Run eager none
unfolding about_to_resume get read
resumed_run = record {
  last = _;
  reach = later (later about_to_resume.reach (resume refl)) (read_result refl);
}

no_lost_wakeup_example : resumed_run.last.caller ≢ suspended
unfolding resumed_run
no_lost_wakeup_example = no_lost_wakeup resumed_run.reach refl

-- The task has swapped in the sentinel, the awaiter sees it and goes on, and the result is not
-- marked ready yet: `wait` calls the empty `steal`.
early_read : Run eager none
unfolding fresh set_value exchange try_await get
early_read = record {
  last = _;
  reach =
      later
        (later
          (later (later (later start (find_busy refl refl refl)) (co_return 42 refl)) (swap refl))
          (suspend refl))
        (read_result refl);
}

abbrev early_got : Got ℕ ℕ
early_got = bad_function_call

received_result_example :
    Delivers (ended_with early_read.reach) early_got
    ⊎ ((early_got ≡ bad_function_call)
        × (◌≡◌ {A = Option ℕ} none none)
        × (found_sentinel ≢ transferred))
unfolding early_read
received_result_example = received_result early_read.reach found_sentinel early_got refl

-- The same with the store before the read: the awaiter destroys the frame while the final awaiter
-- has still to call `m_ready.notify_all()` on the promise in it.
destroyed_before_notify :
    (s : System ℕ ℕ) × Reach eager 5 none s × (s.destroyed ≡ true) × (s.callee ≡ stored null)
unfolding fresh set_value exchange store_ready try_await get read
destroyed_before_notify = (
  _,
  later
      (later
        (later
          (later (later (later start (find_busy refl refl refl)) (co_return 42 refl)) (swap refl))
          (suspend refl))
        (store refl))
      (read_result refl),
  refl,
  refl,
)
