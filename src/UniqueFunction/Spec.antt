-- ===== src/UniqueFunction/Spec.antt =====
-- What the operations promise: a variable owns a callable or nothing, a move hands it over, a call
-- runs it and destroys it.
use parallel_operations_tool.Prelude.{
  ℕ, ◌==◌, ◌&&◌, if◌then◌else◌, Option, none, some, List, [], ◌∷◌, ◌++◌, update,
}
use parallel_operations_tool.UniqueFunction.{
  Callable, Event, executed, destroyed, Op, construct, move_construct, move_assign, invoke, clear,
}

-- The destructor of an object in the buffer that has a trivial one need not run.
abbrev pub dropped : Option Callable → List Event
dropped none = []
dropped (some c) = if c.trivial_destroy && c.inlinable then [] else destroyed c ∷ []

abbrev pub handed_over : (ℕ → Option Callable) → ℕ → ℕ → (ℕ → Option Callable)
handed_over owners dst src = update (update owners src none) dst (owners src)

unfoldable pub step : (ℕ → Option Callable) → Op → Option (List Event × (ℕ → Option Callable))
step owners (construct i c) = elim (owners i) [
  | none ↦ some ([], update owners i (some c))
  | some d ↦ none
]
step owners (move_construct dst src) = elim (owners dst) [
  | none ↦ if dst == src then none else some ([], handed_over owners dst src)
  | some d ↦ none
]
step owners (move_assign dst src) =
    if dst == src
    then some ([], owners)
    else some (dropped (owners dst), handed_over owners dst src)
step owners (invoke i) = elim (owners i) [
  | none ↦ none
  | some c ↦ some (executed c ∷ destroyed c ∷ [], update owners i none)
]
step owners (clear i) = some (dropped (owners i), update owners i none)

unfoldable pub run : (ℕ → Option Callable) → List Op → Option (List Event)
run owners [] = some []
run owners (op ∷ ops) = elim (step owners op) [
  | none ↦ none
  | some (events, after) ↦ elim (run after ops) [ none ↦ none | some more ↦ some (events ++ more) ]
]
