-- ===== src/LfDequeue/Refine.antt =====
-- The calls of the deque are those of a list with two ends.
use parallel_operations_tool.Prelude.{
  ℕ, suc, ◌+◌, ◌-◌, ◌≤◌, ◌<◌, ◌≡◌, refl, ap, ap₂, ◌∙◌, sym, Option, none, some, List, [], ◌∷◌, ◌++◌,
  arith, leb, ltb, ◌==◌, Bool-cases, inl, inr,
}
use parallel_operations_tool.Deque
use parallel_operations_tool.LfDequeue.{
  RingBuffer, LfDequeue, get, put_item, ensure_room, push, shrink_buffer, pop, pop_back,
  reclaim_buffers,
}
use parallel_operations_tool.LfDequeue.Buffers.{
  get-put_item_self, get-put_item_ne, window, window-ext, window-snoc,
}
use parallel_operations_tool.LfDequeue.Valid.{IsValid, contents, Roomy, ensure_room-Roomy}
use parallel_operations_tool.LfDequeue.Shrink.{Shrunk, shrink_buffer-Shrunk}

module _ {A : Type 0} where
  -- `push` keeps the deque valid and appends the element at the bottom, also when it has to move
  -- the elements into a larger buffer.
  push_correct :
      (blank : A) {q : LfDequeue A} (x : A)
      → IsValid q
      → IsValid (push blank q x) × (contents (push blank q x) ≡ Deque.push (contents q) x)
  unfolding push Deque.push
  push_correct blank {q} x v = (
    record {
      ordered = omega (arith, r.same_top, r.same_bottom, v.ordered);
      room = omega (arith, r.same_top, r.same_bottom, r.two_places, v.ordered);
      large = r.large;
    },
    ap (window stored e.top) sizes
        ∙ window-snoc stored e.top n e.bottom (omega (arith, r.same_top, r.same_bottom, v.ordered))
        ∙ ap₂ (λ l y. l ++ (y ∷ [])) (window-ext stored e.active e.top n untouched)
            (get-put_item_self e.active e.bottom x)
        ∙ ap (λ l. l ++ (x ∷ []))
            (ap (window e.active e.top) (omega (arith, r.same_top, r.same_bottom)) ∙ r.same),
  )
    where
      e : LfDequeue A
      e = ensure_room blank q

      r : Roomy q e
      r = ensure_room-Roomy blank v

      stored : RingBuffer A
      stored = put_item e.active e.bottom x

      n : ℕ
      n = q.bottom - q.top

      untouched : (j : ℕ) → e.top ≤ j → j < e.top + n → get stored j ≡ get e.active j
      untouched j lo hi =
          get-put_item_ne e.active e.bottom j x
            (omega (arith, r.same_top, r.same_bottom, v.ordered))
            (omega (arith, r.same_top, r.same_bottom, r.two_places, v.ordered))
            (omega (arith, r.same_top, r.same_bottom, v.ordered))

      sizes : e.bottom + 1 - e.top ≡ suc n
      sizes = omega (arith, r.same_top, r.same_bottom, v.ordered)

  -- The elements, the last one apart.
  contents-last :
      (q : LfDequeue A)
      → q.top < q.bottom
      → contents q
        ≡ window q.active q.top (q.bottom - q.top - 1) ++ (get q.active (q.bottom - 1) ∷ [])
  contents-last q h =
      let n : ℕ = q.bottom - q.top - 1 in
      let e : q.bottom - q.top ≡ suc n = omega arith in
      ap (window q.active q.top) e ∙ window-snoc q.active q.top n (q.bottom - 1) (omega arith)

  -- What a call returns, and that it leaves a valid deque with the contents that are promised.
  abbrev pub Refines : Option A × LfDequeue A → Option A × List A → Type 0
  Refines (o, q) spec = IsValid q × ((o, contents q) ≡ spec)

  module _ {q : LfDequeue A} (v : IsValid q) where
    empty-eq : q.bottom ≤ q.top → (none, contents q) ≡ Deque.pop_bottom (contents q)
    unfolding Deque.pop_bottom
    empty-eq h = let e : q.bottom - q.top ≡ 0 = omega arith in rw e

    last-eq :
        q.top < q.bottom
        → Deque.pop_bottom (contents q)
          ≡ (some (get q.active (q.bottom - 1)), window q.active q.top (q.bottom - q.top - 1))
    last-eq h = ap Deque.pop_bottom (contents-last q h) ∙ Deque.pop_bottom-snoc _ _

    single-Refines :
        q.bottom - q.top ≡ 1
        → Refines
            (some (get q.active q.top), record q { top = q.top + 1 })
            (Deque.pop_bottom (contents q))
    single-Refines h =
        let n : q.bottom - (q.top + 1) ≡ 0 = omega arith in
        let m : q.bottom - q.top - 1 ≡ 0 = omega arith in
        let b : q.bottom - 1 ≡ q.top = omega arith in
        (
          record { ordered = omega arith; room = omega (arith, v.room); large = v.large },
          rw (last-eq (omega arith), n, m, b),
        )

    several-Refines :
        (blank : A)
        → 1 < q.bottom - q.top
        → let r = shrink_buffer blank q in
          Refines
            (
              some (get q.active (q.bottom - 1)),
              record r {
                unlinked = reclaim_buffers r.id_list r.active r.unlinked;
                bottom = r.bottom - 1;
              },
            )
            (Deque.pop_bottom (contents q))
    several-Refines blank h =
        let r : LfDequeue A = shrink_buffer blank q in
        let s : Shrunk q r = shrink_buffer-Shrunk blank v in
        let n : r.bottom - 1 - r.top ≡ q.bottom - q.top - 1 =
          omega (arith, s.same_top, s.same_bottom) in
        (
          record {
            ordered = omega (arith, s.same_top, s.same_bottom);
            room = omega (arith, s.same_top, s.same_bottom, s.room);
            large = s.large;
          },
          ap (λ l. (some (get q.active (q.bottom - 1)), l))
                (ap₂ (window r.active) s.same_top n
                  ∙ window-ext r.active q.active q.top (q.bottom - q.top - 1)
                      (λ j lo hi. s.kept j lo (omega arith)))
              ∙ sym (last-eq (omega arith)),
        )

  -- `pop` returns the last element and removes it, or nothing from an empty deque, also when it
  -- moves the elements into a smaller buffer.
  pop_correct :
      (blank : A) {q : LfDequeue A}
      → IsValid q
      → Refines (pop blank q) (Deque.pop_bottom (contents q))
  unfolding pop
  pop_correct blank {q} v = elim (Bool-cases (leb q.bottom q.top)) [
    | inl empty ↦ rw empty (v, empty-eq v (ground arith))
    | inr more ↦ elim (Bool-cases (q.bottom - q.top == 1)) [
      | inl last ↦ rw (more, last) (single-Refines v (ground arith))
      | inr several ↦ rw (more, several) (several-Refines v blank (ground arith))
    ]
  ]

  -- `pop_back` returns the first element and removes it, or nothing from an empty deque, and
  -- leaves the stealer idle.
  pop_back-Refines :
      (k : ℕ) {q : LfDequeue A} → IsValid q → Refines (pop_back q k) (Deque.pop_top (contents q))
  unfolding pop_back Deque.pop_top
  pop_back-Refines k {q} v = elim (Bool-cases (ltb q.top q.bottom)) [
    | inl some_left ↦
        let n : q.bottom - q.top ≡ suc (q.bottom - (q.top + 1)) = ground arith in
        rw (some_left, n)
          (record { ordered = ground arith; room = omega (arith, v.room); large = v.large }, refl)
    | inr empty ↦
        let e : q.bottom - q.top ≡ 0 = ground arith in
        rw (empty, e) (record { ordered = v.ordered; room = v.room; large = v.large }, refl)
  ]
