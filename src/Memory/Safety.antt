-- ===== src/Memory/Safety.antt =====
-- Every frame goes back to the resource that it came from.
use parallel_operations_tool.Prelude.{
  ℕ, ◌≡◌, ◌⊎◌, refl, subst, sym, ap, ◌∙◌, ◌==◌, if◌then◌else◌, false, none, some, [], arith,
}
use parallel_operations_tool.Memory.{
  remove, take_back, System, Step, set, reset, create, destroy, frame_block, Reach, start, later,
}

record Matched (s : System) : Type 0 where
  sound : s.memory.broken ≡ false
  given : (r : ℕ) → s.memory.given r ≡ (if r == s.memory.resource then s.frames else [])

Step-Matched :
    {s t : System}
    → Matched s
    → Step s t
    → (t.memory.resource ≡ s.memory.resource) ⊎ (s.frames ≡ [])
    → Matched t
Step-Matched inv (set none) calm = record { sound = inv.sound; given = inv.given }
Step-Matched inv (set (some r)) calm = record {
  sound = inv.sound;
  given = λ k. ground (arith, inv.given k);
}
Step-Matched inv reset calm = record { sound = inv.sound; given = λ k. ground (arith, inv.given k) }
Step-Matched {s} inv (create ptr size alignment) calm = record {
  sound = inv.sound;
  given = λ k. ground (arith, inv.given k, inv.given s.memory.resource);
}
Step-Matched {s} inv (destroy ptr size alignment rest e) calm =
    let all : s.memory.given s.memory.resource ≡ s.frames =
      ground (arith, inv.given s.memory.resource) in
    let found : remove (frame_block ptr size alignment) (s.memory.given s.memory.resource)
        ≡ some rest =
      ap (remove (frame_block ptr size alignment)) all ∙ e in
    subst (λ o. Matched (record { memory = take_back s.memory o; frames = rest })) (sym found)
      (record { sound = inv.sound; given = λ k. ground (arith, inv.given k) })

Reach-Matched : {s : System} → Reach s → Matched s
Reach-Matched start = record { sound = refl; given = λ r. ground arith }
Reach-Matched (later r step calm) = Step-Matched (Reach-Matched r) step calm

-- When the resource is exchanged only while there is no frame of a coroutine, no resource ever gets a
-- block that it has not handed out with the same size and alignment, and at every time the frames are
-- the blocks that the present resource has handed out and not got back; the other resources have got
-- back all of theirs.
pub frames_matched :
    {s : System}
    → Reach s
    → (s.memory.broken ≡ false)
      × ((r : ℕ) → s.memory.given r ≡ (if r == s.memory.resource then s.frames else []))
frames_matched r = let inv = Reach-Matched r in (inv.sound, inv.given)
