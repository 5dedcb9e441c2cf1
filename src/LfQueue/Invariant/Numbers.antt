-- ===== src/LfQueue/Invariant/Numbers.antt =====
-- Where the sequence number of each cell stands: between the two positions every cell is full or
-- being filled, and beyond them every cell is free or being emptied.
use parallel_operations_tool.Prelude.{
  ℕ, ◌+◌, ◌-◌, ◌≤◌, ◌<◌, ◌≡◌, ◌⊎◌, inl, inr, refl, ◌∙◌, Option, none, some, arith, update, length,
  length-snoc, ℕ_discrete, dec_lt,
}
use parallel_operations_tool.LfQueue.{capacity, limit}
use parallel_operations_tool.LfQueue.Threads.{
  Shared, Pc, push_write, push_publish, pop_read, pop_release, Move, push_start, push_win,
  push_store, push_done, pop_win, pop_done, sequence_at,
}
use parallel_operations_tool.LfQueue.Invariant.Defs.{IsFresh, Inv}

module _ {A : Type 0} where
  abbrev pub pushing : Pc A → Option ℕ
  pushing (push_write msg pos) = some pos
  pushing (push_publish pos) = some pos
  pushing _ = none

  abbrev pub popping : Pc A → Option ℕ
  popping (pop_read pos) = some pos
  popping (pop_release pos result) = some pos
  popping _ = none

  -- The cell of a position that waits to be popped.
  abbrev pub IsFull : Shared A → (ℕ → Pc A) → ℕ → Type 0
  IsFull s pc p =
      (sequence_at s p ≡ p + 1) ⊎ ((i : ℕ) × (sequence_at s p ≡ p) × (pushing (pc i) ≡ some p))

  -- The cell of a position that waits for a message.
  abbrev pub IsFree : Shared A → (ℕ → Pc A) → ℕ → Type 0
  IsFree s pc p =
      (sequence_at s p ≡ p)
      ⊎ ((i : ℕ) × (sequence_at s p + capacity ≡ p + 1)
          × (popping (pc i) ≡ some (p - capacity))
          × (capacity ≤ p))

  pub record Cells (s : Shared A) (pc : ℕ → Pc A) : Type 0 where
    pub room : s.enqueue_pos ≤ s.dequeue_pos + capacity
    pub ahead : (i p : ℕ) → pushing (pc i) ≡ some p → s.dequeue_pos ≤ p
    pub back : (i p : ℕ) → popping (pc i) ≡ some p → s.enqueue_pos ≤ p + capacity
    pub full : (p : ℕ) → s.dequeue_pos ≤ p → p < s.enqueue_pos → IsFull s pc p
    pub free : (p : ℕ) → s.enqueue_pos ≤ p → p < s.dequeue_pos + capacity → IsFree s pc p

module _ {A : Type 0} {s : Shared A} {pc : ℕ → Pc A} (inv : Inv s pc) (cells : Cells s pc)
    (i : ℕ) where
  open inv use {behind, fresh}
  open cells use {room, ahead, back, full, free}

  Move-room :
      {p p' : Pc A} {t : Shared A}
      → Move s p t p'
      → length t.pushed < limit
      → IsFresh s p
      → t.enqueue_pos ≤ t.dequeue_pos + capacity
  Move-room (push_start msg) lim f = room
  Move-room (push_win {msg} {pos} g) lim f =
      ground (arith, f.1 (omega arith), full s.dequeue_pos, length-snoc s.pushed msg)
  Move-room (pop_win {pos} g) lim f = ground arith
  Move-room mv lim f = room

  Move-ahead :
      {p p' : Pc A} {t : Shared A}
      → Move s p t p'
      → pc i ≡ p
      → length t.pushed < limit
      → IsFresh s p
      → (j q : ℕ) → pushing (update pc i p' j) ≡ some q
      → t.dequeue_pos ≤ q
  Move-ahead (push_start msg) e lim f j q h = ground (arith, ahead j q)
  Move-ahead (pop_win {pos} g) e lim f j q h = ground (arith, f.1 (omega arith), ahead j q, fresh j)
  Move-ahead (push_win {msg} {pos} g) e lim f j q h = ground (arith, behind, ahead j q)
  Move-ahead mv e lim f j q h = ground (arith, ahead j q)

  Move-back :
      {p p' : Pc A} {t : Shared A}
      → Move s p t p'
      → pc i ≡ p
      → length t.pushed < limit
      → IsFresh s p
      → (j q : ℕ) → popping (update pc i p' j) ≡ some q
      → t.enqueue_pos ≤ q + capacity
  Move-back (push_start msg) e lim f j q h = ground (arith, back j q)
  Move-back (push_win {msg} {pos} g) e lim f j q h =
      ground (arith, f.1 (omega arith), back j q, fresh j, length-snoc s.pushed msg)
  Move-back (pop_win {pos} g) e lim f j q h = ground (arith, room, back j q)
  Move-back mv e lim f j q h = ground (arith, back j q)

  -- A full cell stays full while its number stays and the thread that fills it has not stored.
  keep-IsFull :
      (p' : Pc A) (t : Shared A) (q : ℕ)
      → IsFull s pc q
      → sequence_at t q ≡ sequence_at s q
      → (pushing (pc i) ≡ some q → pushing p' ≡ some q)
      → IsFull t (update pc i p') q
  keep-IsFull p' t q (inl h) e own = inl (e ∙ h)
  keep-IsFull p' t q (inr (j, h, o)) e own = inr (
    j,
    e ∙ h,
    elim (ℕ_discrete j i) [ yes ji ↦ ground (arith, own (cc (ji, o))) | no ne ↦ ground arith ],
  )

  keep-IsFree :
      (p' : Pc A) (t : Shared A) (q : ℕ)
      → IsFree s pc q
      → sequence_at t q ≡ sequence_at s q
      → (capacity ≤ q → popping (pc i) ≡ some (q - capacity) → popping p' ≡ some (q - capacity))
      → IsFree t (update pc i p') q
  keep-IsFree p' t q (inl h) e own = inl (e ∙ h)
  keep-IsFree p' t q (inr (j, h, o, le)) e own = inr (
    j,
    omega arith,
    elim (ℕ_discrete j i) [ yes ji ↦ ground (arith, own le (cc (ji, o))) | no ne ↦ ground arith ],
    le,
  )

  Move-IsFull :
      {p p' : Pc A} {t : Shared A}
      → Move s p t p'
      → pc i ≡ p
      → length t.pushed < limit
      → IsFresh s p
      → (q : ℕ) → t.dequeue_pos ≤ q
      → q < t.enqueue_pos
      → IsFull t (update pc i p') q
  Move-IsFull {p'} {t} (push_start msg) e lim f q lo hi =
      keep-IsFull p' t q (full q lo hi) refl (λ o. cc)
  Move-IsFull {p'} {t} (push_win {msg} {pos} g) e lim f q lo hi = elim (dec_lt q s.enqueue_pos) [
    | yes old ↦ keep-IsFull p' t q (full q lo old) refl (λ o. cc)
    | no new ↦ inr (
      i,
      ground (arith, f.1 (omega arith), length-snoc s.pushed msg),
      ground (arith, length-snoc s.pushed msg),
    )
  ]
  Move-IsFull {p'} {t} (push_store {msg} {pos}) e lim f q lo hi =
      keep-IsFull p' t q (full q lo hi) (ground arith) (λ o. ground arith)
  Move-IsFull {p'} {t} (push_done {pos}) e lim f q lo hi = elim (ℕ_discrete q pos) [
    | yes at ↦ inl (ground arith)
    | no ne ↦
        keep-IsFull p' t q (full q lo hi) (ground (arith, room, ahead i pos)) (λ o. ground arith)
  ]
  Move-IsFull {p'} {t} (pop_win {pos} g) e lim f q lo hi =
      keep-IsFull p' t q (full q (ground (arith, behind)) hi) refl (λ o. cc)
  Move-IsFull {p'} {t} (pop_done {pos} {result}) e lim f q lo hi =
      keep-IsFull p' t q (full q lo hi) (ground (arith, back i pos)) (λ o. cc)
  Move-IsFull {p'} {t} mv e lim f q lo hi =
      keep-IsFull p' t q (full q lo hi) refl (λ o. ground arith)

  Move-IsFree :
      {p p' : Pc A} {t : Shared A}
      → Move s p t p'
      → pc i ≡ p
      → length t.pushed < limit
      → IsFresh s p
      → (q : ℕ) → t.enqueue_pos ≤ q
      → q < t.dequeue_pos + capacity
      → IsFree t (update pc i p') q
  Move-IsFree {p'} {t} (push_start msg) e lim f q lo hi =
      keep-IsFree p' t q (free q lo hi) refl (λ le o. cc)
  Move-IsFree {p'} {t} (push_win {msg} {pos} g) e lim f q lo hi =
      keep-IsFree p' t q (free q (ground (arith, length-snoc s.pushed msg)) hi) refl (λ le o. cc)
  Move-IsFree {p'} {t} (push_store {msg} {pos}) e lim f q lo hi =
      keep-IsFree p' t q (free q lo hi) (ground arith) (λ le o. cc)
  Move-IsFree {p'} {t} (push_done {pos}) e lim f q lo hi =
      keep-IsFree p' t q (free q lo hi) (ground (arith, ahead i pos)) (λ le o. cc)
  Move-IsFree {p'} {t} (pop_win {pos} g) e lim f q lo hi =
      elim (dec_lt q (s.dequeue_pos + capacity)) [
        | yes old ↦ keep-IsFree p' t q (free q lo old) refl (λ le o. cc)
        | no new ↦ inr (i, ground (arith, f.1 (omega arith)), ground arith, omega arith)
      ]
  Move-IsFree {p'} {t} (pop_done {pos} {result}) e lim f q lo hi =
      elim (ℕ_discrete q (pos + capacity)) [
        | yes at ↦ inl (ground arith)
        | no ne ↦
            keep-IsFree p' t q (free q lo hi) (ground (arith, back i pos)) (λ le o. ground arith)
      ]
  Move-IsFree {p'} {t} mv e lim f q lo hi =
      keep-IsFree p' t q (free q lo hi) refl (λ le o. ground arith)

  pub Move-Cells :
      {p' : Pc A} {t : Shared A}
      → Move s (pc i) t p'
      → length t.pushed < limit
      → Cells t (update pc i p')
  Move-Cells mv lim = record {
    room = Move-room mv lim (fresh i);
    ahead = Move-ahead mv refl lim (fresh i);
    back = Move-back mv refl lim (fresh i);
    full = Move-IsFull mv refl lim (fresh i);
    free = Move-IsFree mv refl lim (fresh i);
  }
