-- ===== src/UniqueFunction.antt =====
-- include/pot/utils/unique_function.h: `unique_function_once`, a callable in a buffer, or on the heap
-- when it does not fit, that is called at most once.
pub mod Spec
pub mod Owned
pub mod Once
mod Tests
use parallel_operations_tool.Prelude.{
  ℕ, ◌≡◌, ◌==◌, Bool, true, false, ◌&&◌, not, if◌then◌else◌, Option, none, some, List, [], ◌∷◌,
  ◌++◌, update,
}

-- A callable object, and what its type says: `is_inlinable()` and the two type traits.
pub record Callable : Type 0 where
  pub name : ℕ
  pub inlinable : Bool
  pub trivial_copy : Bool
  pub trivial_destroy : Bool

-- `vtable`: which of its pointers are set; the functions go by `is_inlinable()` of their type.
pub record Vtable : Type 0 where
  pub has_move : Bool
  pub has_destroy : Bool
  pub inlinable : Bool

-- `m_buffer`: bytes, an object, or a pointer to one or null.
pub data Buffer : Type 0 where
  bytes : Buffer
  object : Callable → Buffer
  pointer : Option Callable → Buffer

pub record Function : Type 0 where
  pub vtbl : Option Vtable
  pub buffer : Buffer

-- What happens to an object: its call operator and its destructor run.
pub data Event : Type 0 where
  executed destroyed : Callable → Event

-- `make_vtable`
abbrev pub make_vtable : Callable → Vtable
make_vtable c = record {
  has_move = not (c.trivial_copy && c.trivial_destroy && c.inlinable);
  has_destroy = not (c.trivial_destroy && c.inlinable);
  inlinable = c.inlinable;
}

-- `build`
abbrev pub build : Callable → Buffer
build c = if c.inlinable then object c else pointer (some c)

-- The object that `inline_ptr` or `allocated_ptr` finds, if there is one.
abbrev pub target : Vtable → Buffer → Option Callable
target vt bytes = none
target vt (object c) = if vt.inlinable then some c else none
target vt (pointer p) = if vt.inlinable then none else p

-- `move_destroy`: the buffer of the source and that of the destination. The object in a buffer is
-- moved and what is left of it destroyed; of one on the heap the pointer moves.
abbrev pub move_destroy : Vtable → Buffer → Buffer × Buffer
move_destroy vt src = if vt.inlinable then (bytes, src) else (pointer none, src)

abbrev pub execute_destroy : Vtable → Buffer → Option (List Event)
execute_destroy vt buffer = elim (target vt buffer) [
  | none ↦ none
  | some c ↦ some (executed c ∷ destroyed c ∷ [])
]

abbrev pub destroy : Vtable → Buffer → Option (List Event)
destroy vt buffer = elim (target vt buffer) [ none ↦ none | some c ↦ some (destroyed c ∷ []) ]

abbrev pub empty : Function
empty = record { vtbl = none; buffer = bytes }

-- The constructor from a callable.
abbrev pub from_callable : Callable → Function
from_callable c = record { vtbl = some (make_vtable c); buffer = build c }

-- `move_from`: the source and the destination.
unfoldable pub move_from : Function → Function → Function × Function
move_from src dst = elim src.vtbl [
  | none ↦ (src, record dst { vtbl = none })
  | some vt ↦
      if vt.has_move
      then (
        record { vtbl = none; buffer = (move_destroy vt src.buffer).0 },
        record { vtbl = some vt; buffer = (move_destroy vt src.buffer).1 },
      )
      else (record src { vtbl = none }, record { vtbl = some vt; buffer = src.buffer })
]

-- `reset`; `none` is a destructor that runs on no object.
unfoldable pub reset : Function → Option (List Event × Function)
reset f = elim f.vtbl [
  | none ↦ some ([], f)
  | some vt ↦
      if vt.has_destroy
      then elim (destroy vt f.buffer) [
        | none ↦ none
        | some events ↦ some (events, record f { vtbl = none; buffer = bytes })
      ]
      else some ([], record f { vtbl = none })
]

-- `operator()`; `none` is the failed assertion.
unfoldable pub call : Function → Option (List Event × Function)
call f = elim f.vtbl [
  | none ↦ none
  | some vt ↦ elim (execute_destroy vt f.buffer) [
    | none ↦ none
    | some events ↦ some (events, record f { vtbl = none; buffer = bytes })
  ]
]

-- What a program does with the functions in its variables.
pub data Op : Type 0 where
  construct : (i : ℕ) (c : Callable) → Op
  move_construct : (dst src : ℕ) → Op
  move_assign : (dst src : ℕ) → Op
  invoke : (i : ℕ) → Op
  clear : (i : ℕ) → Op

abbrev pub moved : (ℕ → Function) → ℕ → ℕ → (ℕ → Function)
moved fs dst src =
    let (from, to) = move_from (fs src) (fs dst) in update (update fs src from) dst to

-- One operation: the events, and the variables behind it. A construction is of a variable that holds
-- no function yet.
unfoldable pub step : (ℕ → Function) → Op → Option (List Event × (ℕ → Function))
step fs (construct i c) = elim (fs i).vtbl [
  | none ↦ some ([], update fs i (from_callable c))
  | some vt ↦ none
]
step fs (move_construct dst src) = elim (fs dst).vtbl [
  | none ↦ if dst == src then none else some ([], moved fs dst src)
  | some vt ↦ none
]
step fs (move_assign dst src) = if dst == src then some ([], fs) else elim (reset (fs dst)) [
  | none ↦ none
  | some (events, f) ↦ some (events, moved (update fs dst f) dst src)
]
step fs (invoke i) = elim (call (fs i)) [
  | none ↦ none
  | some (events, f) ↦ some (events, update fs i f)
]
step fs (clear i) = elim (reset (fs i)) [
  | none ↦ none
  | some (events, f) ↦ some (events, update fs i f)
]

-- The events of a program that starts with empty variables; `none` where one operation fails.
unfoldable pub run : (ℕ → Function) → List Op → Option (List Event)
run fs [] = some []
run fs (op ∷ ops) = elim (step fs op) [
  | none ↦ none
  | some (events, gs) ↦ elim (run gs ops) [ none ↦ none | some more ↦ some (events ++ more) ]
]
