-- ===== src/LfQueue/Refine.antt =====
-- One thread's `push` and `pop` on a queue at rest are those of a bounded queue.
use parallel_operations_tool.Prelude.{
  ℕ, zero, suc, ◌+◌, ◌-◌, ◌≤◌, ◌<◌, ◌≡◌, ◌≢◌, refl, ap, true, false, Option, none, some, List, [],
  ◌∷◌, ◌++◌, arith, update, length, dec_lt, add_size, ◌∙◌, sym,
}
use parallel_operations_tool.BoundedQueue
use parallel_operations_tool.LfQueue.{
  capacity, limit, index, Cell, LfQueue, publish, release, push, push_loop, pop, pop_loop,
}

module _ {A : Type 0} where
  -- At rest, a cell between the positions holds a message, and one beyond them waits for one.
  pub record IsValid (q : LfQueue A) : Type 0 where
    pub behind : q.dequeue_pos ≤ q.enqueue_pos
    pub room : q.enqueue_pos ≤ q.dequeue_pos + capacity
    pub small : q.enqueue_pos < limit
    pub full :
        (p : ℕ) → q.dequeue_pos ≤ p → p < q.enqueue_pos → (q.buffer (index p)).sequence ≡ p + 1
    pub free :
        (p : ℕ)
        → q.enqueue_pos ≤ p
        → p < q.dequeue_pos + capacity
        → (q.buffer (index p)).sequence ≡ p

  -- The messages of `n` positions from `p` on.
  abbrev pub window : (ℕ → Cell A) → ℕ → ℕ → List A
  window buffer p zero = []
  window buffer p (suc n) = (buffer (index p)).item ∷ window buffer (p + 1) n

  abbrev pub contents : LfQueue A → List A
  contents q = window q.buffer q.dequeue_pos (q.enqueue_pos - q.dequeue_pos)

  pub length-window : (buffer : ℕ → Cell A) (p n : ℕ) → length (window buffer p n) ≡ n
  length-window buffer p zero = refl
  length-window buffer p (suc n) = ap suc (length-window buffer (p + 1) n)

  -- A write at a position beyond the window extends it.
  window-publish :
      (buffer : ℕ → Cell A) (p n e : ℕ) (c : Cell A)
      → p + n ≡ e
      → n < capacity
      → window (update buffer (index e) c) p (suc n) ≡ window buffer p n ++ (c.item ∷ [])
  window-publish buffer p zero e c h lt = ground arith
  window-publish buffer p (suc n) e c h lt = ground (arith, window-publish buffer (p + 1) n e c)

  -- A write at a cell that is not in the window changes nothing.
  window-update :
      (buffer : ℕ → Cell A) (p n e : ℕ) (c : Cell A)
      → e < p
      → p + n ≤ e + capacity
      → window (update buffer (index e) c) p n ≡ window buffer p n
  window-update buffer p zero e c h lt = refl
  window-update buffer p (suc n) e c h lt = ground (arith, window-update buffer (p + 1) n e c)

  window-suc :
      (buffer : ℕ → Cell A) (p n : ℕ)
      → n ≢ 0
      → window buffer p n ≡ (buffer (index p)).item ∷ window buffer (p + 1) (n - 1)
  window-suc buffer p zero h = absurd (h refl)
  window-suc buffer p (suc n) h = ap (λ k. window buffer p (suc k)) (omega arith)

  -- A call returns as its specification does, on a queue that stays valid and has given out at
  -- most `n` positions.
  abbrev pub Refines : {R : Type 0} → ℕ → Option (R × LfQueue A) → R × List A → Type 0
  Refines n none spec = ⊥
  Refines n (some (r, q)) spec = IsValid q × (q.enqueue_pos ≤ n) × ((r, contents q) ≡ spec)

  push_room :
      {q : LfQueue A} (fuel : ℕ) (msg : A)
      → IsValid q
      → q.enqueue_pos < q.dequeue_pos + capacity
      → push (suc fuel) q msg ≡ some (true, publish q msg q.enqueue_pos)
  unfolding push push_loop
  push_room {q} fuel msg v h = ground (arith, v.free q.enqueue_pos)

  push_full :
      {q : LfQueue A} (fuel : ℕ) (msg : A)
      → IsValid q
      → q.enqueue_pos ≡ q.dequeue_pos + capacity
      → push (suc fuel) q msg ≡ some (false, q)
  unfolding push push_loop
  push_full {q} fuel msg v h = ground (arith, v.full q.dequeue_pos)

  publish-IsValid :
      {q : LfQueue A} (msg : A)
      → IsValid q
      → q.enqueue_pos < q.dequeue_pos + capacity
      → q.enqueue_pos + 1 < limit
      → IsValid (publish q msg q.enqueue_pos)
  publish-IsValid {q} msg v h lim = record {
    behind = ground (arith, v.behind);
    room = ground arith;
    small = ground arith;
    full = λ p lo hi. ground (arith, v.full p);
    free = λ p lo hi. ground (arith, v.free p);
  }

  release-IsValid :
      {q : LfQueue A}
      → IsValid q
      → q.dequeue_pos < q.enqueue_pos
      → IsValid (release q q.dequeue_pos)
  release-IsValid {q} v h = record {
    behind = ground arith;
    room = ground (arith, v.room);
    small = v.small;
    full = λ p lo hi. ground (arith, v.room, v.small, v.full p);
    free = λ p lo hi. ground (arith, v.small, v.free p);
  }

  pop_item :
      {q : LfQueue A} (fuel : ℕ)
      → IsValid q
      → q.dequeue_pos < q.enqueue_pos
      → pop (suc fuel) q
        ≡ some (some (q.buffer (index q.dequeue_pos)).item, release q q.dequeue_pos)
  unfolding pop pop_loop
  pop_item {q} fuel v h = ground (arith, v.small, v.full q.dequeue_pos)

  pop_empty :
      {q : LfQueue A} (fuel : ℕ)
      → IsValid q
      → q.dequeue_pos ≡ q.enqueue_pos
      → pop (suc fuel) q ≡ some (none, q)
  unfolding pop pop_loop
  pop_empty {q} fuel v h = ground (arith, v.small, v.free q.dequeue_pos)

  contents-publish :
      {q : LfQueue A} (msg : A)
      → IsValid q
      → q.enqueue_pos < q.dequeue_pos + capacity
      → contents (publish q msg q.enqueue_pos) ≡ contents q ++ (msg ∷ [])
  contents-publish {q} msg v h =
      let n : ℕ = q.enqueue_pos - q.dequeue_pos in
      let e : add_size q.enqueue_pos 1 - q.dequeue_pos ≡ suc n = omega (arith, v.small, v.behind) in
      rw e (
        window-publish q.buffer q.dequeue_pos n q.enqueue_pos _ (omega (arith, v.behind))
          (omega arith))

  contents-release :
      {q : LfQueue A}
      → IsValid q
      → q.dequeue_pos < q.enqueue_pos
      → contents q ≡ (q.buffer (index q.dequeue_pos)).item ∷ contents (release q q.dequeue_pos)
  contents-release {q} v h =
      let e : add_size q.dequeue_pos 1 ≡ q.dequeue_pos + 1 = omega (arith, v.small) in
      let n : ℕ = q.enqueue_pos - q.dequeue_pos in
      let m : q.enqueue_pos - (q.dequeue_pos + 1) ≡ n - 1 = omega arith in
      rw (e, m)
        (window-suc q.buffer q.dequeue_pos n (omega arith)
          ∙ ap (λ l. (q.buffer (index q.dequeue_pos)).item ∷ l)
              (sym (
                window-update q.buffer (q.dequeue_pos + 1) (n - 1) q.dequeue_pos _ (omega arith)
                  (omega (arith, v.room)))))

  -- On a valid queue `push` returns within one round; it appends the message and reports true, or
  -- reports false and changes nothing when the queue holds `capacity` messages.
  pub push-Refines :
      (fuel : ℕ) (msg : A) {q : LfQueue A}
      → IsValid q
      → q.enqueue_pos + 1 < limit
      → Refines
          (q.enqueue_pos + 1)
          (push (suc fuel) q msg)
          (BoundedQueue.push capacity (contents q) msg)
  unfolding BoundedQueue.push
  push-Refines fuel msg {q} v lim = elim (dec_lt q.enqueue_pos (q.dequeue_pos + capacity)) [
    | yes h ↦ rw (push_room fuel msg v h) (publish-IsValid msg v h lim, omega arith, appended h)
    | no h ↦ rw (push_full fuel msg v (omega (arith, v.room))) (v, omega arith, refused h)
  ]
    where
      n : ℕ
      n = q.enqueue_pos - q.dequeue_pos

      appended :
          q.enqueue_pos < q.dequeue_pos + capacity
          → (true, contents (publish q msg q.enqueue_pos))
            ≡ BoundedQueue.push capacity (contents q) msg
      appended h = ground (arith, length-window q.buffer q.dequeue_pos n, contents-publish msg v h)

      refused :
          ¬ (q.enqueue_pos < q.dequeue_pos + capacity)
          → (false, contents q) ≡ BoundedQueue.push capacity (contents q) msg
      refused h = ground (arith, v.room, length-window q.buffer q.dequeue_pos n)

  -- On a valid queue `pop` returns within one round: the oldest message, which it removes, or
  -- nothing when there is none.
  pub pop-Refines :
      (fuel : ℕ) {q : LfQueue A}
      → IsValid q
      → Refines q.enqueue_pos (pop (suc fuel) q) (BoundedQueue.pop (contents q))
  unfolding BoundedQueue.pop
  pop-Refines fuel {q} v = elim (dec_lt q.dequeue_pos q.enqueue_pos) [
    | yes h ↦ rw (pop_item fuel v h) (release-IsValid v h, omega arith, taken h)
    | no h ↦
        let e : q.dequeue_pos ≡ q.enqueue_pos = omega (arith, v.behind) in
        rw (pop_empty fuel v e)
          (v, omega arith, ground (arith, length-window q.buffer q.dequeue_pos n))
  ]
    where
      n : ℕ
      n = q.enqueue_pos - q.dequeue_pos

      taken :
          q.dequeue_pos < q.enqueue_pos
          → (some (q.buffer (index q.dequeue_pos)).item, contents (release q q.dequeue_pos))
            ≡ BoundedQueue.pop (contents q)
      taken h = ground (arith, contents-release v h)
