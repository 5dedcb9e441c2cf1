-- ===== src/LfDequeue/Tests.antt =====
-- The deque at concrete inputs.
use parallel_operations_tool.Prelude.{ℕ, ◌≡◌, refl, some, List, [], ◌∷◌}
use parallel_operations_tool.LfDequeue.{
  LfDequeue, init, push, ensure_room, resize, copy_from, pop, pop_back, shrink_buffer,
  reclaim_buffers, drop_below, min_id,
}

abbrev empty : LfDequeue ℕ
unfolding init
empty = init 0

abbrev push_all : List ℕ → LfDequeue ℕ → LfDequeue ℕ
push_all [] q = q
push_all (x ∷ xs) q = push_all xs (push 0 q x)

-- The sixteenth element moves the others into a buffer of 32.
sixteen : LfDequeue ℕ
sixteen = push_all (1 ∷ 2 ∷ 3 ∷ 4 ∷ 5 ∷ 6 ∷ 7 ∷ 8 ∷ 9 ∷ 10 ∷ 11 ∷ 12 ∷ 13 ∷ 14 ∷ 15 ∷ 16 ∷ []) empty

sixteen_grown :
    (sixteen.active.log_size ≡ 5)
    × (sixteen.unlinked ≡ some [])
    × ((pop 0 sixteen).0 ≡ some 16)
    × ((pop_back sixteen 0).0 ≡ some 1)
unfolding sixteen init push ensure_room resize copy_from pop pop_back shrink_buffer reclaim_buffers
    drop_below min_id
sixteen_grown = (refl, refl, refl, refl)
