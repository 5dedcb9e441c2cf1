-- ===== src/LfQueue/Safety.antt =====
-- What any number of threads can rely on, in every state that they can reach.
use parallel_operations_tool.Prelude.{
  ℕ, zero, suc, ◌+◌, ◌-◌, ◌%◌, ◌≤◌, ◌<◌, ◌≡◌, ◌⊎◌, inl, inr, ap, ◌∙◌, sym, subst, some, arith, ◌∷◌,
  length, get_elem?, drop, drop-suc, drop_end, dif, negative, add_size, dec_lt, dif_exact,
}
use native.Mathlib.Numerals.{add-one}
use parallel_operations_tool.LfQueue.{capacity, limit, index}
use parallel_operations_tool.LfQueue.Refine.{IsValid, window, contents}
use parallel_operations_tool.LfQueue.Threads.{
  Shared, idle, push_at, pop_at, pop_release, System, Reach, sequence_at, item_at,
}
use parallel_operations_tool.LfQueue.Invariant.{owned, pushing, popping, Reach-Inv, Reach-Cells}

module _ {A : Type 0} {blank : A} {s : System A} (r : Reach blank s)
    (lim : length s.shared.pushed < limit) where
  -- No two threads are at once between winning a position and storing its sequence number if the
  -- two positions share a cell: nobody reads or writes a cell's message while another does.
  pub cell_exclusive :
      (i j p q : ℕ) → owned (s.pc i) ≡ some p → owned (s.pc j) ≡ some q → index p ≡ index q → i ≡ j
  cell_exclusive i j p q hi hj e = ground (arith, fresh i, fresh j, unique i j p)
    where
      open (Reach-Inv r lim) use {fresh, unique}

  -- A message that a thread has taken at a position is the one pushed at that position, and the
  -- position has been given out to a pop.
  pub popped_in_order :
      (i pos : ℕ) (result : A)
      → s.pc i ≡ pop_release pos result
      → (pos < s.shared.dequeue_pos) × (get_elem? s.shared.pushed pos ≡ some result)
  popped_in_order i pos result h = ground (arith, fresh i)
    where
      open (Reach-Inv r lim) use {fresh}

  open (Reach-Inv r lim) use {counted, behind, near, published, fresh}
  open (Reach-Cells r lim) use {room, full, free}

  abbrev q : Shared A
  q = s.shared

  -- A sequence number lags behind its cell's next position by less than a round.
  number_at :
      (p : ℕ) → q.dequeue_pos ≤ p → p < q.dequeue_pos + capacity → p < sequence_at q p + capacity
  number_at p lo hi = elim (dec_lt p q.enqueue_pos) [
    | yes lt ↦ elim (full p lo lt) [ inl e ↦ omega arith | inr (j, e, o) ↦ omega arith ]
    | no ge ↦ elim (free p (omega arith) hi) [
      | inl e ↦ omega arith
      | inr (j, e, o, le) ↦ omega arith
    ]
  ]

  -- The position that uses the cell of `pos` in the current round.
  abbrev current : ℕ → ℕ
  current pos = q.dequeue_pos + (index pos + capacity - index q.dequeue_pos) % capacity

  number_of_late : (pos : ℕ) → pos < q.dequeue_pos → pos < sequence_at q pos
  number_of_late pos h =
      let e : index (current pos) ≡ index pos = omega arith in
      let n : current pos < sequence_at q (current pos) + capacity =
        number_at (current pos) (omega arith) (omega arith) in
      let n' : current pos < sequence_at q pos + capacity =
        subst (λ k. current pos < (q.buffer k).sequence + capacity) e n in
      omega arith

  -- `push` gives up only when the queue holds `capacity` positions that are not yet popped, or a
  -- thread is still emptying the cell of the next position.
  pub push_refused :
      (i pos : ℕ) (msg : A)
      → s.pc i ≡ push_at msg pos
      → dif (sequence_at q pos) pos ≡ negative
      → (q.enqueue_pos ≡ q.dequeue_pos + capacity)
        ⊎ ((j : ℕ) × (popping (s.pc j) ≡ some (q.enqueue_pos - capacity)))
  push_refused i pos msg h neg = elim (dec_lt pos q.dequeue_pos) [
    | yes late ↦ absurd (omega (arith, behind_pos, number_of_late pos late))
    | no here ↦ elim (dec_lt pos q.enqueue_pos) [
      | yes lt ↦ elim (full pos (omega arith) lt) [
        | inl e ↦ absurd (omega (arith, behind_pos))
        | inr (j, e, o) ↦ absurd (omega (arith, behind_pos))
      ]
      | no ge ↦ elim (dec_lt pos (q.dequeue_pos + capacity)) [
        | yes room' ↦ elim (free pos (omega arith) room') [
          | inl e ↦ absurd (omega (arith, behind_pos))
          | inr (j, e, o, le) ↦ inr (j, o ∙ ap (λ k. some (k - capacity)) (omega (arith, at)))
        ]
        | no none_left ↦ inl (omega (arith, room, at))
      ]
    ]
  ]
    where
      at : pos ≤ q.enqueue_pos
      at = ground (arith, fresh i)

      small : q.enqueue_pos < limit
      small = omega (arith, counted)

      behind_pos : sequence_at q pos < pos
      behind_pos =
          (dif_exact (sequence_at q pos) pos (omega (arith, small, near pos))
              (omega (arith, at, small))).1
            neg

  -- `pop` gives up only when every position given out is popped, or a thread is still filling the
  -- cell of the next one.
  pub pop_refused :
      (i pos : ℕ)
      → s.pc i ≡ pop_at pos
      → dif (sequence_at q pos) (add_size pos 1) ≡ negative
      → (q.dequeue_pos ≡ q.enqueue_pos) ⊎ ((j : ℕ) × (pushing (s.pc j) ≡ some q.dequeue_pos))
  pop_refused i pos h neg = elim (dec_lt pos q.dequeue_pos) [
    | yes late ↦ absurd (omega (arith, behind_pos, number_of_late pos late))
    | no here ↦ elim (dec_lt pos q.enqueue_pos) [
      | yes lt ↦ elim (full pos (omega arith) lt) [
        | inl e ↦ absurd (omega (arith, behind_pos))
        | inr (j, e, o) ↦ inr (j, o ∙ ap some (omega (arith, at)))
      ]
      | no ge ↦ inl (omega (arith, behind, at))
    ]
  ]
    where
      at : pos ≤ q.dequeue_pos
      at = ground (arith, fresh i)

      small : q.enqueue_pos < limit
      small = omega (arith, counted)

      next : add_size pos 1 ≡ pos + 1
      next = omega (arith, behind, at, small)

      behind_pos : sequence_at q pos < pos + 1
      behind_pos =
          (dif_exact (sequence_at q pos) (pos + 1) (omega (arith, small, near pos))
              (omega (arith, at, small, behind))).1
            (subst (λ n. dif (sequence_at q pos) n ≡ negative) next neg)

  not-pushing : ((i : ℕ) → s.pc i ≡ idle) → (j p : ℕ) → pushing (s.pc j) ≡ some p → ⊥
  not-pushing quiet j p o = ground (arith, quiet j)

  not-popping : ((i : ℕ) → s.pc i ≡ idle) → (j p : ℕ) → popping (s.pc j) ≡ some p → ⊥
  not-popping quiet j p o = ground (arith, quiet j)

  quiet-IsValid : ((i : ℕ) → s.pc i ≡ idle) → IsValid q.queue
  quiet-IsValid quiet = record {
    behind = behind;
    room = room;
    small = omega (arith, counted);
    full = λ p lo hi. elim (full p lo hi) [
      | inl e ↦ e
      | inr (j, e, o) ↦ absurd (not-pushing quiet j p o)
    ];
    free = λ p lo hi. elim (free p lo hi) [
      | inl e ↦ e
      | inr (j, e, o, le) ↦ absurd (not-popping quiet j (p - capacity) o)
    ];
  }

  window-eq-drop :
      (n p : ℕ)
      → p + n ≡ q.enqueue_pos
      → ((x : ℕ) → p ≤ x → x < q.enqueue_pos → get_elem? q.pushed x ≡ some (item_at q x))
      → window q.buffer p n ≡ drop p q.pushed
  window-eq-drop zero p e h = sym (drop_end p q.pushed (omega (arith, counted)))
  window-eq-drop (suc n) p e h =
      ap (λ l. item_at q p ∷ l)
        (window-eq-drop n (p + 1) (omega arith) (λ x lo hi. h x (omega arith) hi) ∙ rw add-one)
      ∙ sym (drop-suc p q.pushed (item_at q p) (h p (omega arith) (omega arith)))

  -- When every thread has returned, the queue is valid, and it holds the messages pushed so far
  -- less those popped, in the order of their positions: none is lost, doubled or moved.
  pub settled :
      ((i : ℕ) → s.pc i ≡ idle) → IsValid q.queue × (contents q.queue ≡ drop q.dequeue_pos q.pushed)
  settled quiet = (
    valid,
    window-eq-drop (q.enqueue_pos - q.dequeue_pos) q.dequeue_pos (omega (arith, behind)) items,
  )
    where
      valid : IsValid q.queue
      valid = quiet-IsValid quiet

      items :
          (x : ℕ)
          → q.dequeue_pos ≤ x
          → x < q.enqueue_pos
          → get_elem? q.pushed x ≡ some (item_at q x)
      items x lo hi = (published x (valid.full x lo hi)).1
