-- ===== src/LfDequeue/Reclaim.antt =====
-- Which replaced buffers `reclaim_buffers` deletes.
use parallel_operations_tool.Prelude.{
  ℕ, zero, suc, ◌≤◌, ◌<◌, ◌≡◌, min, refl, some, List, [], ◌∷◌, arith, get_elem?, true, false, ltb,
  if◌then◌else◌, Bool-cases, inl, inr, lt→ltb,
}
use parallel_operations_tool.LfDequeue.{RingBuffer, Token, min_id, drop_below, reclaim_buffers}

min_id-le : (id : ℕ) (tokens : List Token) → min_id id tokens ≤ id
unfolding min_id
min_id-le id [] = omega arith
min_id-le id (token ∷ tokens) =
    ground (arith, min_id-le id tokens, min_id-le (min id token.id_last_used) tokens)

-- The bound is not above what a busy stealer used last.
min_id-le_busy :
    (id : ℕ) (tokens : List Token) (k : ℕ) (token : Token)
    → get_elem? tokens k ≡ some token
    → token.was_idle ≡ false
    → min_id id tokens ≤ token.id_last_used
unfolding min_id
min_id-le_busy id [] k token e busy = cc
min_id-le_busy id (x ∷ tokens) zero token e busy =
    ground (arith, min_id-le (min id x.id_last_used) tokens)
min_id-le_busy id (x ∷ tokens) (suc k) token e busy =
    min_id-le_busy (if x.was_idle then id else min id x.id_last_used) tokens k token e busy

min_id-idle :
    (id : ℕ) (tokens : List Token)
    → ((k : ℕ) (token : Token) → get_elem? tokens k ≡ some token → token.was_idle ≡ true)
    → min_id id tokens ≡ id
unfolding min_id
min_id-idle id [] idle = refl
min_id-idle id (x ∷ tokens) idle =
    rw (idle 0 x refl) (min_id-idle id tokens (λ k token e. idle (suc k) token e))

module _ {A : Type 0} where
  drop_below-kept :
      (bound : ℕ) (rs : List (RingBuffer A)) (k : ℕ) (r : RingBuffer A)
      → get_elem? rs k ≡ some r
      → bound ≤ r.id
      → (j : ℕ) × (get_elem? (drop_below bound rs) j ≡ some r)
  unfolding drop_below
  drop_below-kept bound [] k r e le = cc
  drop_below-kept bound (x ∷ rs) zero r e le = (0, ground arith)
  drop_below-kept bound (x ∷ rs) (suc k) r e le = elim (Bool-cases (ltb x.id bound)) [
    | inl old ↦ rw old (drop_below-kept bound rs k r e le)
    | inr new ↦ rw new (suc k, e)
  ]

  -- A replaced buffer is not deleted while a busy stealer may still read it: while there is one
  -- that used it, or an older buffer, last.
  in_use_kept :
      (tokens : List Token) (new : RingBuffer A) (retired kept : List (RingBuffer A)) (k j : ℕ)
      (token : Token) (r : RingBuffer A)
      → reclaim_buffers tokens new (some retired) ≡ some kept
      → get_elem? tokens k ≡ some token
      → token.was_idle ≡ false
      → get_elem? retired j ≡ some r
      → token.id_last_used ≤ r.id
      → (i : ℕ) × (get_elem? kept i ≡ some r)
  unfolding reclaim_buffers
  in_use_kept tokens new retired kept k j token r h e busy at le =
      let same : drop_below (min_id new.id tokens) retired ≡ kept = cc h in
      rw (← same) (
        drop_below-kept (min_id new.id tokens) retired j r at
          (omega (arith, min_id-le_busy new.id tokens k token e busy)))

  drop_below-nil :
      (bound : ℕ) (rs : List (RingBuffer A))
      → ((k : ℕ) (r : RingBuffer A) → get_elem? rs k ≡ some r → r.id < bound)
      → drop_below bound rs ≡ []
  unfolding drop_below
  drop_below-nil bound [] h = refl
  drop_below-nil bound (x ∷ rs) h =
      rw (lt→ltb x.id bound (h 0 x refl)) (drop_below-nil bound rs (λ k r e. h (suc k) r e))

  -- When every stealer is idle, every replaced buffer is deleted.
  pub idle_reclaims :
      (tokens : List Token) (new : RingBuffer A) (retired : List (RingBuffer A))
      → ((k : ℕ) (token : Token) → get_elem? tokens k ≡ some token → token.was_idle ≡ true)
      → ((k : ℕ) (r : RingBuffer A) → get_elem? retired k ≡ some r → r.id < new.id)
      → reclaim_buffers tokens new (some retired) ≡ some []
  unfolding reclaim_buffers
  idle_reclaims tokens new retired idle old =
      rw (min_id-idle new.id tokens idle, drop_below-nil new.id retired old)
