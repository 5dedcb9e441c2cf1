-- ===== src/LfQueue/Threads.antt =====
-- Any number of threads inside `push` and `pop` of one queue, a shared access at a time.
-- Accesses are sequentially consistent.
use parallel_operations_tool.Prelude.{
  ℕ, ◌≡◌, List, [], ◌∷◌, ◌++◌, update, add_size, dif, negative, equal, positive,
}
use parallel_operations_tool.LfQueue.{index, mask, LfQueue, init}

-- The queue, and the messages in the order in which they were given a position.
-- The list is a record of the run that no thread reads.
pub record Shared {ℓ} (A : Type ℓ) : Type ℓ where
  pub queue : LfQueue A
  pub open queue use *
  pub pushed : List A

-- Where a thread stands, with its locals that are live there.
pub data Pc {ℓ} (A : Type ℓ) : Type ℓ where
  idle : Pc A
  push_at : (msg : A) (pos : ℕ) → Pc A  -- before the load of `sequence`
  push_claim : (msg : A) (pos : ℕ) → Pc A  -- before the compare-exchange
  push_reload : (msg : A) → Pc A  -- before the load of `enqueuePos`
  push_write : (msg : A) (pos : ℕ) → Pc A  -- before `cell->data = msg`
  push_publish : (pos : ℕ) → Pc A  -- before the store of `sequence`
  pop_at : (pos : ℕ) → Pc A
  pop_claim : (pos : ℕ) → Pc A
  pop_reload : Pc A
  pop_read : (pos : ℕ) → Pc A  -- before `std::move(cell->data)`
  pop_release : (pos : ℕ) (result : A) → Pc A  -- before the store of `sequence`

pub record System {ℓ} (A : Type ℓ) : Type ℓ where
  pub shared : Shared A
  pub pc : ℕ → Pc A

module _ {ℓ} {A : Type ℓ} where
  abbrev pub sequence_at : Shared A → ℕ → ℕ
  sequence_at s pos = (s.buffer (index pos)).sequence

  abbrev pub item_at : Shared A → ℕ → A
  item_at s pos = (s.buffer (index pos)).item

  abbrev pub store_sequence : Shared A → ℕ → ℕ → Shared A
  store_sequence s pos n = record s {
    queue = record (s.queue) {
      buffer = update s.buffer (index pos) (record (s.buffer (index pos)) { sequence = n });
    };
  }

  abbrev pub store_item : Shared A → ℕ → A → Shared A
  store_item s pos msg = record s {
    queue = record (s.queue) {
      buffer = update s.buffer (index pos) (record (s.buffer (index pos)) { item = msg });
    };
  }

  -- The exchange that gives `msg` the position `pos`.
  abbrev pub claim_push : Shared A → A → ℕ → Shared A
  claim_push s msg pos = record {
    queue = record (s.queue) { enqueue_pos = add_size pos 1 };
    pushed = s.pushed ++ (msg ∷ []);
  }

  abbrev pub claim_pop : Shared A → ℕ → Shared A
  claim_pop s pos = record s { queue = record (s.queue) { dequeue_pos = add_size pos 1 } }

  -- One step of one thread. The exchange is weak: it may fail on an equal value too.
  pub data Move (s : Shared A) : Pc A → Shared A → Pc A → Type ℓ where
    push_start : (msg : A) → Move s idle s (push_at msg s.enqueue_pos)
    push_ready :
        {msg : A} {pos : ℕ}
        → dif (sequence_at s pos) pos ≡ equal
        → Move s (push_at msg pos) s (push_claim msg pos)
    push_full :
        {msg : A} {pos : ℕ}
        → dif (sequence_at s pos) pos ≡ negative
        → Move s (push_at msg pos) s idle
    push_late :
        {msg : A} {pos : ℕ}
        → dif (sequence_at s pos) pos ≡ positive
        → Move s (push_at msg pos) s (push_reload msg)
    push_load : {msg : A} → Move s (push_reload msg) s (push_at msg s.enqueue_pos)
    push_win :
        {msg : A} {pos : ℕ}
        → s.enqueue_pos ≡ pos
        → Move s (push_claim msg pos) (claim_push s msg pos) (push_write msg pos)
    push_lose : {msg : A} {pos : ℕ} → Move s (push_claim msg pos) s (push_at msg s.enqueue_pos)
    push_store :
        {msg : A} {pos : ℕ} → Move s (push_write msg pos) (store_item s pos msg) (push_publish pos)
    push_done : {pos : ℕ} → Move s (push_publish pos) (store_sequence s pos (add_size pos 1)) idle
    pop_start : Move s idle s (pop_at s.dequeue_pos)
    pop_ready :
        {pos : ℕ}
        → dif (sequence_at s pos) (add_size pos 1) ≡ equal
        → Move s (pop_at pos) s (pop_claim pos)
    pop_empty :
        {pos : ℕ} → dif (sequence_at s pos) (add_size pos 1) ≡ negative → Move s (pop_at pos) s idle
    pop_late :
        {pos : ℕ}
        → dif (sequence_at s pos) (add_size pos 1) ≡ positive
        → Move s (pop_at pos) s pop_reload
    pop_load : Move s pop_reload s (pop_at s.dequeue_pos)
    pop_win :
        {pos : ℕ} → s.dequeue_pos ≡ pos → Move s (pop_claim pos) (claim_pop s pos) (pop_read pos)
    pop_lose : {pos : ℕ} → Move s (pop_claim pos) s (pop_at s.dequeue_pos)
    pop_take : {pos : ℕ} → Move s (pop_read pos) s (pop_release pos (item_at s pos))
    pop_done :
        {pos : ℕ} {result : A}
        → Move s
            (pop_release pos result)
            (store_sequence s pos (add_size (add_size pos mask) 1))
            idle

  pub data Step (s : System A) : System A → Type ℓ where
    pick :
        (i : ℕ) {t : Shared A} {p : Pc A}
        → Move s.shared (s.pc i) t p
        → Step s (record { shared = t; pc = update s.pc i p })

  abbrev pub start_state : A → System A
  start_state blank = record { shared = record { queue = init blank; pushed = [] }; pc = λ _. idle }

  -- The states that the threads can reach on a queue just constructed.
  pub data Reach (blank : A) : System A → Type ℓ where
    start : Reach blank (start_state blank)
    later : {s t : System A} → Reach blank s → Step s t → Reach blank t
