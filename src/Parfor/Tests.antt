-- ===== src/Parfor/Tests.antt =====
-- `parfor` at concrete inputs.
use parallel_operations_tool.Prelude.{◌≡◌, refl, none, some, List, [], ◌∷◌, map, arith}
use parallel_operations_tool.Schedule.{count, Runs, next, ended, here, there}
use parallel_operations_tool.Parfor.{Chunk, parfor, chunk_size, num_chunks, chunks, calls}
use parallel_operations_tool.Parfor.Cover.{parfor_once}

-- Seven iterations on three threads.
abbrev sevenths : List Chunk
sevenths = (10, 12) ∷ (12, 14) ∷ (14, 16) ∷ (16, 17) ∷ []

seven_on_three : parfor 3 none 10 17 ≡ some sevenths
unfolding parfor chunk_size num_chunks chunks
seven_on_three = refl

-- A fixed chunk size of 0, or no thread, divides by zero.
faults : (parfor 3 (some 0) 10 17 ≡ none) × (parfor 0 none 10 17 ≡ none)
unfolding parfor chunk_size num_chunks chunks
faults = (refl, refl)

-- The tasks take turns.
interleaved : Runs (map calls sevenths) (12 ∷ 10 ∷ 16 ∷ 14 ∷ 11 ∷ 15 ∷ 13 ∷ [])
interleaved = next (there here) (
    next here (
      next (there (there (there here))) (
        next (there (there here))
          (next here (next (there (there here)) (next (there here) (ended refl)))))))

parfor_once_example : count 13 (12 ∷ 10 ∷ 16 ∷ 14 ∷ 11 ∷ 15 ∷ 13 ∷ []) ≡ 1
parfor_once_example = parfor_once 3 none 10 17 seven_on_three (omega arith) interleaved 13
