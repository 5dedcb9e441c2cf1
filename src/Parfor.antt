-- ===== src/Parfor.antt =====
-- include/pot/algorithms/parfor.h: a range of iterations split into chunks, one task to a chunk.
-- `IndexType` is `size_t`. `none` stands for a failed assertion or undefined arithmetic.
pub mod Cover
mod Tests
use parallel_operations_tool.Prelude.{
  ℕ, zero, suc, ◌+◌, ◌-◌, ◌*◌, ◌/◌, ◌^◌, max, min, ◌==◌, ltb, leb, if◌then◌else◌, Option, none,
  some, List, [], ◌∷◌, map, add_size, ◌>>=◌,
}
use parallel_operations_tool.Schedule.{range, Runs}

-- `chunk_size`: the template argument (`none` is its default, -1), or the iterations over the
-- threads, at least 1. The division faults when the executor has no thread.
unfoldable pub chunk_size : ℕ → Option ℕ → ℕ → Option ℕ
chunk_size threads (some k) n = some k
chunk_size threads none n = if threads == 0 then none else some (max 1 (n / threads))

-- `numChunks`. The division faults at a chunk size of 0, and the sum where it leaves `int64_t`.
unfoldable pub num_chunks : ℕ → ℕ → Option ℕ
num_chunks n c =
    if c == 0 then none else if leb (2 ^ 63) (n + c) then none else some ((n + c - 1) / c)

-- A chunk is its `chunkStart` and its `chunkEnd`.
abbrev pub Chunk : Type 0
Chunk = ℕ × ℕ

-- `chunkStart` and `chunkEnd` of the chunk `k`.
abbrev pub chunk : ℕ → ℕ → ℕ → ℕ → Chunk
chunk from to c k = let s = add_size from (k * c) in (s, min (add_size s c) to)

-- The loop over `chunkIndex`, from `k` on, with `m` rounds left.
unfoldable pub chunks : ℕ → ℕ → ℕ → ℕ → ℕ → List Chunk
chunks from to c k zero = []
chunks from to c k (suc m) = chunk from to c k ∷ chunks from to c (k + 1) m

-- The tasks that `parfor` submits, by their chunks.
unfoldable pub parfor : ℕ → Option ℕ → ℕ → ℕ → Option (List Chunk)
parfor threads static_chunk_size from to =
    if ltb from to
    then (do
      c ← chunk_size threads static_chunk_size (to - from)
      m ← num_chunks (to - from) c
      some (chunks from to c 0 m))
    else none

-- The indices at which the task of a chunk calls the function, `for (i = start; i < end; ++i)`.
abbrev pub calls : Chunk → List ℕ
calls (s, e) = range s (e - s)
