-- ===== src/LfQueue.antt =====
-- include/pot/algorithms/lfqueue.h: the bounded queue over an array of numbered cells.
-- `push` and `pop` are run here by one thread; LfQueue/Threads.antt interleaves many.
pub mod Refine
pub mod Client
pub mod Threads
pub mod Invariant
pub mod Safety
mod Tests
use parallel_operations_tool.Prelude.{
  ℕ, zero, suc, ◌+◌, ◌-◌, ◌%◌, ◌^◌, ◌==◌, if◌then◌else◌, Bool, true, false, Option, none, some,
  update, add_size, dif, negative, equal, positive,
}

-- `MPSC_QUEUE_CAPACITY`, a power of two, and the mask `capacity - 1`.
abbrev pub capacity : ℕ
capacity = 1024

abbrev pub mask : ℕ
mask = capacity - 1

-- The results hold while fewer than `limit` positions have been given out: at a billion messages a
-- second that is 146 years, and no position comes near the sign bit of `intptr_t`.
abbrev pub limit : ℕ
limit = 2 ^ 62

-- `pos & mask`: the low ten bits.
abbrev pub index : ℕ → ℕ
index pos = pos % capacity

-- `cell_t`; the field `data` is `item`.
pub record Cell {ℓ} (A : Type ℓ) : Type ℓ where
  pub sequence : ℕ
  pub item : A

-- The buffer is read and written only at an `index`, below `capacity`.
pub record LfQueue {ℓ} (A : Type ℓ) : Type ℓ where
  pub buffer : ℕ → Cell A
  pub enqueue_pos : ℕ
  pub dequeue_pos : ℕ

module _ {ℓ} {A : Type ℓ} where
  -- The constructor; `blank` is what `new cell_t[capacity]` leaves in a cell.
  unfoldable pub init : A → LfQueue A
  init blank = record {
    buffer = λ i. record { sequence = i; item = blank };
    enqueue_pos = 0;
    dequeue_pos = 0;
  }

  -- `cell->data = msg; cell->sequence.store(pos + 1)`, after the exchange has moved `enqueuePos`.
  abbrev pub publish : LfQueue A → A → ℕ → LfQueue A
  publish q msg pos = record q {
    buffer = update q.buffer (index pos) (record { sequence = add_size pos 1; item = msg });
    enqueue_pos = add_size pos 1;
  }

  -- The loop of `push` on fuel, one round each; `none` when the fuel runs out.
  unfoldable pub push_loop : ℕ → LfQueue A → A → ℕ → Option (Bool × LfQueue A)
  push_loop zero q msg pos = none
  push_loop (suc fuel) q msg pos =
      let again = push_loop fuel q msg q.enqueue_pos in
      elim (dif (q.buffer (index pos)).sequence pos) [
        | equal ↦ if q.enqueue_pos == pos then some (true, publish q msg pos) else again
        | negative ↦ some (false, q)
        | positive ↦ again
      ]

  unfoldable pub push : ℕ → LfQueue A → A → Option (Bool × LfQueue A)
  push fuel q msg = push_loop fuel q msg q.enqueue_pos

  -- `cell->sequence.store(pos + mask + 1)`, after the exchange has moved `dequeuePos`.
  abbrev pub release : LfQueue A → ℕ → LfQueue A
  release q pos = record q {
    buffer =
        update q.buffer (index pos)
          (record (q.buffer (index pos)) { sequence = add_size (add_size pos mask) 1 });
    dequeue_pos = add_size pos 1;
  }

  unfoldable pub pop_loop : ℕ → LfQueue A → ℕ → Option (Option A × LfQueue A)
  pop_loop zero q pos = none
  pop_loop (suc fuel) q pos =
      let again = pop_loop fuel q q.dequeue_pos in
      elim (dif (q.buffer (index pos)).sequence (add_size pos 1)) [
        | equal ↦
            if q.dequeue_pos == pos
            then some (some (q.buffer (index pos)).item, release q pos)
            else again
        | negative ↦ some (none, q)
        | positive ↦ again
      ]

  unfoldable pub pop : ℕ → LfQueue A → Option (Option A × LfQueue A)
  pop fuel q = pop_loop fuel q q.dequeue_pos
