-- ===== src/UniqueFunction/Tests.antt =====
-- A small program: a callable on the heap is moved twice and called, one in the buffer is replaced.
use parallel_operations_tool.Prelude.{◌≤◌, ◌≡◌, refl, true, false, none, some, List, [], ◌∷◌, arith}
use parallel_operations_tool.UniqueFunction.{
  Callable, executed, destroyed, empty, Op, construct, move_construct, move_assign, invoke, clear,
  step, run, move_from, reset, call,
}
use parallel_operations_tool.UniqueFunction.Spec
use parallel_operations_tool.UniqueFunction.Owned.{nothing, run_owned}
use parallel_operations_tool.UniqueFunction.Once.{calls, builds, called_once}

abbrev large : Callable
large = record { name = 1; inlinable = false; trivial_copy = false; trivial_destroy = false }

abbrev small : Callable
small = record { name = 2; inlinable = true; trivial_copy = false; trivial_destroy = false }

abbrev program : List Op
program =
    construct 0 large
    ∷ construct 1 small
    ∷ move_assign 1 0
    ∷ move_construct 2 1
    ∷ invoke 2
    ∷ clear 2
    ∷ []

whole_run :
    run (λ i. empty) program ≡ some (destroyed small ∷ executed large ∷ destroyed large ∷ [])
unfolding run step move_from reset call
whole_run = refl

-- A function is empty once it was called: a second call fails.
called_twice : run (λ i. empty) (construct 0 small ∷ invoke 0 ∷ invoke 0 ∷ []) ≡ none
unfolding run step move_from reset call
called_twice = refl

run_owned_example : run (λ i. empty) program ≡ Spec.run (λ i. none) program
run_owned_example = run_owned program (λ i. empty) (λ i. none) (λ i. nothing refl)

called_once_example :
    calls 1 (destroyed small ∷ executed large ∷ destroyed large ∷ []) ≤ builds 1 program
called_once_example =
    called_once 1 3 program (destroyed small ∷ executed large ∷ destroyed large ∷ []) (omega arith)
      whole_run
