-- ===== src/LfQueue/Invariant/Moves.antt =====
-- A step of one thread keeps each part of the invariant.
use parallel_operations_tool.Prelude.{
  ℕ, ◌+◌, ◌≤◌, ◌<◌, ◌≡◌, ◌≢◌, refl, sym, subst, some, [], ◌∷◌, arith, update, length, ℕ_discrete,
  update_self, update_ne, length-snoc, get_elem?-append_left, get_elem?-snoc, dif_exact,
}
use parallel_operations_tool.LfQueue.{capacity, limit}
use parallel_operations_tool.LfQueue.Threads.{
  Shared, Pc, Move, push_start, push_ready, push_win, push_store, push_done, pop_ready, pop_win,
  pop_take, pop_done, sequence_at, push_claim, push_write, push_publish, pop_claim, pop_release,
}
use parallel_operations_tool.LfQueue.Invariant.Defs.{owned, IsFresh, IsPublished, Inv}

module _ {A : Type 0} {s : Shared A} {pc : ℕ → Pc A} (inv : Inv s pc) (i : ℕ) where
  open inv use {counted, behind, near, published, fresh, unique}

  Move-counted :
      {p p' : Pc A} {t : Shared A}
      → Move s p t p'
      → pc i ≡ p
      → length t.pushed < limit
      → IsFresh s p
      → (t.enqueue_pos ≡ length t.pushed) × (t.dequeue_pos ≤ t.enqueue_pos)
  Move-counted (push_start msg) e lim f = ground arith
  Move-counted (push_win {msg} g) e lim f = ground (arith, length-snoc s.pushed msg)
  Move-counted (pop_win {pos} g) e lim f = ground (arith, published pos)
  Move-counted mv e lim f = ground arith

  Move-near :
      {p p' : Pc A} {t : Shared A}
      → Move s p t p'
      → pc i ≡ p
      → length t.pushed < limit
      → IsFresh s p
      → (q : ℕ) → sequence_at t q ≤ t.enqueue_pos + capacity
  Move-near (push_start msg) e lim f q = ground (arith, near q)
  Move-near (push_win {msg} g) e lim f q = ground (arith, near q, length-snoc s.pushed msg)
  Move-near mv e lim f q = ground (arith, near q)

  Move-IsPublished :
      {p p' : Pc A} {t : Shared A}
      → Move s p t p'
      → pc i ≡ p
      → length t.pushed < limit
      → IsFresh s p
      → (q : ℕ) → sequence_at t q ≡ q + 1
      → IsPublished t q
  Move-IsPublished (push_start msg) e lim f q h = ground (arith, published q)
  Move-IsPublished (push_win {msg} g) e lim f q h =
      ground
        (arith, published q, length-snoc s.pushed msg, get_elem?-append_left s.pushed (msg ∷ []) q)
  Move-IsPublished (push_store {msg} {pos}) e lim f q h = ground (arith, published q)
  Move-IsPublished mv e lim f q h = ground (arith, published q)

  Move-IsFresh_self :
      {p p' : Pc A} {t : Shared A}
      → Move s p t p'
      → pc i ≡ p
      → length t.pushed < limit
      → IsFresh s p
      → IsFresh t p'
  Move-IsFresh_self (push_start msg) e lim f = ground arith
  Move-IsFresh_self (push_ready {pos} g) e lim f =
      ground (arith, near pos, dif_exact (sequence_at s pos) pos)
  Move-IsFresh_self (push_win {msg} {pos} g) e lim f =
      ground (arith, f.1 (omega arith), length-snoc s.pushed msg, get_elem?-snoc s.pushed msg pos)
  Move-IsFresh_self (pop_ready {pos} g) e lim f =
      ground (arith, near pos, dif_exact (sequence_at s pos) (pos + 1))
  Move-IsFresh_self (pop_win {pos} g) e lim f = ground (arith, f.1 (omega arith))
  Move-IsFresh_self (pop_take {pos}) e lim f = ground (arith, published pos)
  Move-IsFresh_self mv e lim f = ground arith

  Move-unique :
      {p p' : Pc A} {t : Shared A}
      → Move s p t p'
      → pc i ≡ p
      → IsFresh s p
      → (a b q : ℕ) → owned (update pc i p' a) ≡ some q
      → owned (update pc i p' b) ≡ some q
      → a ≡ b
  Move-unique (push_start msg) e f a b q ha hb = ground (arith, unique a b q)
  Move-unique (push_win {msg} {pos} g) e f a b q ha hb =
      ground (arith, unique a b q, fresh a, fresh b)
  Move-unique (pop_win {pos} g) e f a b q ha hb = ground (arith, unique a b q, fresh a, fresh b)
  Move-unique mv e f a b q ha hb = ground (arith, unique a b q)

  -- What another thread, at `r`, knew stays true.
  Move-IsFresh_other :
      {p p' : Pc A} {t : Shared A}
      → Move s p t p'
      → length t.pushed < limit
      → IsFresh s p
      → (r : Pc A) → IsFresh s r
      → ((q : ℕ) → owned p ≡ some q → owned r ≡ some q → ⊥)
      → IsFresh t r
  Move-IsFresh_other (push_start msg) lim f r k apart = k
  Move-IsFresh_other (push_win {msg} {pos} g) lim f (push_write m q) k apart =
      ground (arith, length-snoc s.pushed msg, get_elem?-append_left s.pushed (msg ∷ []) q)
  Move-IsFresh_other (push_win {msg} {pos} g) lim f (push_publish q) k apart =
      ground (arith, length-snoc s.pushed msg, get_elem?-append_left s.pushed (msg ∷ []) q)
  Move-IsFresh_other (push_win {msg} {pos} g) lim f (pop_release q v) k apart =
      ground (arith, behind, length-snoc s.pushed msg, get_elem?-append_left s.pushed (msg ∷ []) q)
  Move-IsFresh_other (push_win {msg} {pos} g) lim f (push_claim m q) k apart = (
    ground (arith, length-snoc s.pushed msg),
    λ h. absurd (omega (arith, length-snoc s.pushed msg)),
  )
  Move-IsFresh_other (push_win {msg} {pos} g) lim f r k apart =
      ground (arith, length-snoc s.pushed msg)
  Move-IsFresh_other (push_store {msg} {pos}) lim f (push_claim m q) k apart =
      (k.0, λ h. ground (arith, k.1 h))
  Move-IsFresh_other (push_store {msg} {pos}) lim f r k apart = ground (arith, apart pos)
  Move-IsFresh_other (push_done {pos}) lim f (push_claim m q) k apart =
      (k.0, λ h. ground (arith, k.1 h))
  Move-IsFresh_other (push_done {pos}) lim f (pop_claim q) k apart =
      (k.0, λ h. ground (arith, k.1 h))
  Move-IsFresh_other (push_done {pos}) lim f r k apart = ground (arith, apart pos)
  Move-IsFresh_other (pop_win {pos} g) lim f (pop_claim q) k apart =
      (ground arith, λ h. absurd (omega arith))
  Move-IsFresh_other (pop_win {pos} g) lim f r k apart = ground arith
  Move-IsFresh_other (pop_done {pos}) lim f (push_claim m q) k apart =
      (k.0, λ h. ground (arith, k.1 h))
  Move-IsFresh_other (pop_done {pos}) lim f (pop_claim q) k apart =
      (k.0, λ h. ground (arith, k.1 h))
  Move-IsFresh_other (pop_done {pos}) lim f r k apart = ground (arith, apart pos)
  Move-IsFresh_other mv lim f r k apart = k

  pub Move-Inv :
      {p' : Pc A} {t : Shared A}
      → Move s (pc i) t p'
      → length t.pushed < limit
      → Inv t (update pc i p')
  Move-Inv {p'} {t} mv lim = record {
    counted = (Move-counted mv refl lim (fresh i)).0;
    behind = (Move-counted mv refl lim (fresh i)).1;
    near = Move-near mv refl lim (fresh i);
    published = Move-IsPublished mv refl lim (fresh i);
    fresh = kept;
    unique = Move-unique mv refl (fresh i);
  }
    where
      others : (j : ℕ) → j ≢ i → IsFresh t (pc j)
      others j ne =
          Move-IsFresh_other mv lim (fresh i) (pc j) (fresh j) (λ q hi hj. ne (unique j i q hj hi))

      kept : (j : ℕ) → IsFresh t (update pc i p' j)
      kept j = elim (ℕ_discrete j i) [
        | yes e ↦
            subst (λ r. IsFresh t r) (cc (e, update_self pc i p'))
              (Move-IsFresh_self mv refl lim (fresh i))
        | no ne ↦ subst (λ r. IsFresh t r) (sym (update_ne pc i p' j ne)) (others j ne)
      ]
