-- ===== src/LfQueue/Invariant/Defs.antt =====
-- The invariant of a queue that threads share.
use parallel_operations_tool.Prelude.{ℕ, ◌+◌, ◌≤◌, ◌<◌, ◌≡◌, Option, none, some, length, get_elem?}
use parallel_operations_tool.LfQueue.{capacity}
use parallel_operations_tool.LfQueue.Threads.{
  Shared, Pc, idle, push_at, push_claim, push_reload, push_write, push_publish, pop_at, pop_claim,
  pop_reload, pop_read, pop_release, sequence_at, item_at,
}

-- The results are about messages whose type is in the lowest universe, as every C++ type is.
module _ {A : Type 0} where
  -- The position that a thread has won and whose cell it has not yet handed on.
  abbrev pub owned : Pc A → Option ℕ
  owned (push_write msg pos) = some pos
  owned (push_publish pos) = some pos
  owned (pop_read pos) = some pos
  owned (pop_release pos result) = some pos
  owned _ = none

  -- What the locals of a thread say about the queue.
  abbrev pub IsFresh : Shared A → Pc A → Type 0
  IsFresh s idle = Unit
  IsFresh s (push_at msg pos) = pos ≤ s.enqueue_pos
  IsFresh s (push_claim msg pos) =
      (pos ≤ s.enqueue_pos) × (s.enqueue_pos ≤ pos → sequence_at s pos ≡ pos)
  IsFresh s (push_reload msg) = Unit
  IsFresh s (push_write msg pos) =
      (pos < s.enqueue_pos) × (sequence_at s pos ≡ pos) × (get_elem? s.pushed pos ≡ some msg)
  IsFresh s (push_publish pos) =
      (pos < s.enqueue_pos)
      × (sequence_at s pos ≡ pos)
      × (get_elem? s.pushed pos ≡ some (item_at s pos))
  IsFresh s (pop_at pos) = pos ≤ s.dequeue_pos
  IsFresh s (pop_claim pos) =
      (pos ≤ s.dequeue_pos) × (s.dequeue_pos ≤ pos → sequence_at s pos ≡ pos + 1)
  IsFresh s pop_reload = Unit
  IsFresh s (pop_read pos) = (pos < s.dequeue_pos) × (sequence_at s pos ≡ pos + 1)
  IsFresh s (pop_release pos result) =
      (pos < s.dequeue_pos) × (sequence_at s pos ≡ pos + 1) × (get_elem? s.pushed pos ≡ some result)

  -- The cell of `p` has been published for `p`, so it holds the message of `p`.
  abbrev pub IsPublished : Shared A → ℕ → Type 0
  IsPublished s p = (p < s.enqueue_pos) × (get_elem? s.pushed p ≡ some (item_at s p))

  pub record Inv (s : Shared A) (pc : ℕ → Pc A) : Type 0 where
    pub counted : s.enqueue_pos ≡ length s.pushed
    pub behind : s.dequeue_pos ≤ s.enqueue_pos
    pub near : (p : ℕ) → sequence_at s p ≤ s.enqueue_pos + capacity
    pub published : (p : ℕ) → sequence_at s p ≡ p + 1 → IsPublished s p
    pub fresh : (i : ℕ) → IsFresh s (pc i)
    pub unique : (i j p : ℕ) → owned (pc i) ≡ some p → owned (pc j) ≡ some p → i ≡ j
