-- ===== src/Task/HandleTests.antt =====
-- Programs with objects `task` and `lazy_task`.
use parallel_operations_tool.Prelude.{ℕ, ◌≡◌, refl, true, none, some, List, [], ◌∷◌}
use parallel_operations_tool.Task.{fresh, set_value, store_ready, get, read, set_steal}
use parallel_operations_tool.Task.Handles.{
  suspended, finished, Frame, World, ready, create, move_construct, get_lazy, drop, ask_ready, Call,
  call, run, no_objects, release, lazy_get, await_ready,
}
use parallel_operations_tool.Task.Ownership.{Owned}
use parallel_operations_tool.Task.Owned.{one_owner}

abbrev new_frame : Frame ℕ ℕ
unfolding fresh
new_frame = record { status = suspended; promise = fresh }

-- The coroutine returns 42.
abbrev return_42 : Frame ℕ ℕ → Frame ℕ ℕ
unfolding set_value store_ready
return_42 frame = record { status = finished; promise = store_ready (set_value frame.promise 42) }

-- A lazy task is made, moved into another object, run by `get`, and both objects are destroyed.
abbrev program : List (Call ℕ ℕ)
program =
    create 0 5 new_frame ∷ move_construct 1 0 ∷ get_lazy 1 none return_42 ∷ drop 0 ∷ drop 1 ∷ []

-- Two objects of one frame after a move would be two owners; the move leaves the first one null.
abbrev moved_program : List (Call ℕ ℕ)
moved_program = create 0 5 new_frame ∷ move_construct 1 0 ∷ []

record Ends (cs : List (Call ℕ ℕ)) : Type 0 where
  world : World ℕ ℕ
  runs_to : run no_objects cs ≡ some world

program_test : Ends program
unfolding run call lazy_get release get read set_value store_ready fresh set_steal
program_test = record { world = _; runs_to = refl }

moved_test : Ends moved_program
unfolding run call
moved_test = record { world = _; runs_to = refl }

one_owner_example : Owned (moved_test.world)
one_owner_example = one_owner moved_program moved_test.runs_to

-- `await_ready` is true for a null handle, and `await_resume` then uses it.
ready_null_test : call {A = ℕ} {E = ℕ} no_objects (ask_ready 0) ≡ some (ready true, no_objects)
unfolding call await_ready
ready_null_test = refl
