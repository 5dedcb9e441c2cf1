-- ===== src/Task/Defined.antt =====
-- The only undefined behaviour of the objects of include/pot/coroutines/task.h, once each frame has
-- one owner.
use parallel_operations_tool.Prelude.{ℕ, ◌≡◌, ◌≢◌, ◌⊎◌, none, some}
use parallel_operations_tool.Task.{set_steal}
use parallel_operations_tool.Task.Handles.{
  running, Frame, World, Call, create, runs, move_construct, assign, drop, ask_ready, resume,
  suspend, lazy_suspend, get_task, get_lazy, block_task, block_lazy,
}

module _ {A E : Type 0} where
  -- The object owns a frame of which this holds.
  abbrev pub Owns : World A E → ℕ → (Frame A E → Type 0) → Type 0
  Owns w i P =
      (f : ℕ) × (frame : Frame A E) × (w.handles i ≡ some f) × (w.frames f ≡ some frame) × P frame

  abbrev pub IsRunning : Frame A E → Type 0
  IsRunning frame = frame.status ≡ running

  -- A coroutine that is resumed must be suspended, and so must it be at the end of the call.
  abbrev pub Resumes : (Frame A E → Frame A E) → Frame A E → Type 0
  Resumes change frame = IsRunning frame ⊎ IsRunning (change frame)

  -- What a caller may not do.
  abbrev pub Misuse : World A E → Call A E → Type 0
  Misuse w (create i f frame) = (w.handles i ≢ none) ⊎ (w.frames f ≢ none)
  Misuse w (runs f change) = ⊥
  Misuse w (move_construct this other) = w.handles this ≢ none
  Misuse w (assign this other) = (this ≢ other) × Owns w this IsRunning
  Misuse w (drop i) = Owns w i IsRunning
  Misuse w (ask_ready i) = ⊥
  Misuse w (resume i) = (w.handles i ≡ none) ⊎ Owns w i IsRunning
  Misuse w (suspend i next) = ⊥
  Misuse w (lazy_suspend i next) = Owns w i IsRunning
  Misuse w (get_task i executor) = Owns w i IsRunning
  Misuse w (get_lazy i executor change) =
      Owns w i
        (Resumes (λ frame. change (record frame { promise = set_steal frame.promise executor })))
  Misuse w (block_task i) = Owns w i IsRunning
  Misuse w (block_lazy i change) = Owns w i (Resumes change)
