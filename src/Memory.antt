-- ===== src/Memory.antt =====
-- include/pot/memory/coro_memory.h: the resource from which the frames of coroutines are allocated, and
-- `operator new` and `operator delete` of the promises in include/pot/coroutines/task.h, which use it.
-- A resource is named by a number. What it answers is its own: here any pointer.
pub mod Safety
mod Tests
use mathlib.Core.Option
use parallel_operations_tool.Prelude.{
  ℕ, ◌≡◌, ◌==◌, ◌&&◌, if◌then◌else◌, Bool, true, false, Option, none, some, List, [], ◌∷◌, update,
  ◌⊎◌,
}

pub record Block : Type 0 where
  pub ptr : ℕ
  pub size : ℕ
  pub alignment : ℕ

abbrev pub same_block : Block → Block → Bool
same_block a b = a.ptr == b.ptr && (a.size == b.size && a.alignment == b.alignment)

-- A list without the first block that is the same.
unfoldable pub remove : Block → List Block → Option (List Block)
remove b [] = none
remove b (c ∷ cs) = if same_block c b then some cs else Option.map (λ rest. c ∷ rest) (remove b cs)

-- `resource` is `g_coro_memory_resource`, and `given` what each resource has handed out and not got
-- back. A resource that gets a block which it has not handed out does what it likes: `broken`.
pub record Memory : Type 0 where
  pub resource : ℕ
  pub given : ℕ → List Block
  pub broken : Bool

abbrev pub new_delete_resource : ℕ
new_delete_resource = 0

-- `__STDCPP_DEFAULT_NEW_ALIGNMENT__`
abbrev pub default_alignment : ℕ
default_alignment = 16

abbrev pub set_memory_resource : Option ℕ → Memory → Memory
set_memory_resource none m = m
set_memory_resource (some r) m = record m { resource = r }

abbrev pub reset_memory_resource : Memory → Memory
reset_memory_resource m = record m { resource = new_delete_resource }

-- `ptr` is the answer of the resource.
abbrev pub allocate : Memory → ℕ → ℕ → ℕ → Memory
allocate m ptr size alignment = record m {
  given =
      update m.given m.resource
        (record { ptr = ptr; size = size; alignment = alignment } ∷ m.given m.resource);
}

abbrev pub take_back : Memory → Option (List Block) → Memory
take_back m none = record m { broken = true }
take_back m (some rest) = record m { given = update m.given m.resource rest }

-- `none` is the null pointer.
abbrev pub deallocate : Memory → Option ℕ → ℕ → ℕ → Memory
deallocate m none size alignment = m
deallocate m (some ptr) size alignment =
    take_back m
      (remove (record { ptr = ptr; size = size; alignment = alignment }) (m.given m.resource))

-- The frames that are there, and the resource.
pub record System : Type 0 where
  pub memory : Memory
  pub frames : List Block

-- `operator new` and `operator delete`, without and with an alignment.
abbrev pub alignment_of : Option ℕ → ℕ
alignment_of none = default_alignment
alignment_of (some alignment) = alignment

abbrev pub frame_block : ℕ → ℕ → Option ℕ → Block
frame_block ptr size alignment = record {
  ptr = ptr;
  size = size;
  alignment = alignment_of alignment;
}

-- The program creates and destroys frames, each with the operators for its size and alignment.
pub data Step (s : System) : System → Type 0 where
  set : (r : Option ℕ) → Step s (record s { memory = set_memory_resource r s.memory })
  reset : Step s (record s { memory = reset_memory_resource s.memory })
  create :
      (ptr size : ℕ) (alignment : Option ℕ)
      → Step s (record {
        memory = allocate s.memory ptr size (alignment_of alignment);
        frames = frame_block ptr size alignment ∷ s.frames;
      })
  destroy :
      (ptr size : ℕ) (alignment : Option ℕ) (rest : List Block)
      → remove (frame_block ptr size alignment) s.frames ≡ some rest
      → Step s (record {
        memory = deallocate s.memory (some ptr) size (alignment_of alignment);
        frames = rest;
      })

abbrev pub start_system : System
start_system = record {
  memory = record { resource = new_delete_resource; given = λ r. []; broken = false };
  frames = [];
}

-- The states of a program that exchanges the resource only while there is no frame.
pub data Reach : System → Type 0 where
  start : Reach start_system
  later :
      {s t : System}
      → Reach s
      → Step s t
      → (t.memory.resource ≡ s.memory.resource) ⊎ (s.frames ≡ [])
      → Reach t
