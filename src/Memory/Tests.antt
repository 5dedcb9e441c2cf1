-- ===== src/Memory/Tests.antt =====
-- Frames and resources at concrete inputs.
use parallel_operations_tool.Prelude.{
  ℕ, ◌≡◌, ◌==◌, if◌then◌else◌, true, false, none, some, [], ◌∷◌, inl, inr, refl,
}
use parallel_operations_tool.Memory.{
  remove, System, set_memory_resource, allocate, deallocate, set, create, destroy, start_system,
  Reach, start, later, frame_block,
}
use parallel_operations_tool.Memory.Safety.{frames_matched}

-- One frame of the resource 5, and one that has gone back to the first resource before.
abbrev exchanged : System
exchanged = record {
  memory =
      allocate
        (set_memory_resource (some 5)
          (deallocate (allocate start_system.memory 100 64 16) (some 100) 64 16))
        200 48 32;
  frames = frame_block 200 48 (some 32) ∷ [];
}

exchanged-Reach : Reach exchanged
unfolding remove
exchanged-Reach =
    later
      (later
        (later (later start (create 100 64 none) (inl refl)) (destroy 100 64 none [] refl)
          (inl refl))
        (set (some 5)) (inr refl))
      (create 200 48 (some 32)) (inl refl)

frames_matched_example :
    (exchanged.memory.broken ≡ false)
    × ((r : ℕ)
        → exchanged.memory.given r
          ≡ (if r == exchanged.memory.resource then exchanged.frames else []))
frames_matched_example = frames_matched exchanged-Reach

-- The resource is exchanged while a frame is there: its block goes to the new resource.
wrong_resource :
    (deallocate
      (set_memory_resource (some 5) (allocate start_system.memory 100 64 16))
      (some 100)
      64
      16).broken
    ≡ true
unfolding remove
wrong_resource = refl
