-- ===== src/Pools/Stealing.antt =====
-- What a worker that looks into the queues of others takes, and when it finds nothing.
pub mod Turns
use native.Mathlib.Nat.{mod-eq_of_lt, add-mod_right}
use parallel_operations_tool.Prelude.{
  ℕ, zero, suc, ◌+◌, ◌-◌, ◌%◌, ◌≤◌, ◌<◌, ◌≡◌, ◌≢◌, ◌⊎◌, inl, inr, refl, ap, ◌∙◌, sym, Bool, true,
  false, Option, none, some, List, [], ◌∷◌, arith, ltb, Bool-cases, dec_lt, ℕ_discrete, subst,
}
use parallel_operations_tool.Pools.{Local, Turn, run, steal_seq, take_or, set_tasks, turn_local}
use parallel_operations_tool.Pools.LqStealSeq
use parallel_operations_tool.Pools.LqStealNeighbor
use parallel_operations_tool.Pools.LqlfStealSeq

-- Going round from `i` comes to every index.
around : (n i j : ℕ) → i < n → j < n → i ≢ j → (k : ℕ) × (1 ≤ k) × (k < n) × ((i + k) % n ≡ j)
around n i j hi hj ne = elim (dec_lt i j) [
  | yes lt ↦ (j - i, omega arith, omega arith, ap (λ x. x % n) (omega arith) ∙ mod-eq_of_lt hj)
  | no ge ↦ (
    n - i + j,
    omega arith,
    omega arith,
    ap (λ x. x % n) (omega arith) ∙ add-mod_right j n ∙ mod-eq_of_lt hj,
  )
]

module _ {T : Type 0} where
  -- The task was the first of a queue, and nothing else has changed.
  pub TakesFront : Local (List T) → T → Local (List T) → Type 0
  TakesFront p t p' =
      (j : ℕ) × (ts : List T) × ((p.contexts j).tasks ≡ t ∷ ts) × (p' ≡ set_tasks p j ts)

  List-cases : (ts : List T) → (ts ≡ []) ⊎ ((t : T) × (us : List T) × (ts ≡ t ∷ us))
  List-cases [] = inl refl
  List-cases (t ∷ us) = inr (t, us, refl)

  steal_seq-found :
      (is_free : ℕ → Bool) (i k n : ℕ) (p : Local (List T)) (t : T) (ts : List T)
      → is_free ((i + k) % p.queues) ≡ true
      → (p.contexts ((i + k) % p.queues)).tasks ≡ t ∷ ts
      → steal_seq is_free i k (suc n) p ≡ (some t, set_tasks p ((i + k) % p.queues) ts)
  unfolding steal_seq
  steal_seq-found is_free i k n p t ts free e = rw (free, e) refl

  pub steal_seq-TakesFront :
      (is_free : ℕ → Bool) (i k n : ℕ) (p p' : Local (List T)) (t : T)
      → steal_seq is_free i k n p ≡ (some t, p')
      → TakesFront p t p'
  unfolding steal_seq TakesFront
  steal_seq-TakesFront is_free i k zero p p' t h = cc
  steal_seq-TakesFront is_free i k (suc n) p p' t h =
      let target = (i + k) % p.queues in
      let later = steal_seq-TakesFront is_free i (k + 1) n p p' t in
      elim (Bool-cases (is_free target)) [
        | inl free ↦ elim (List-cases (p.contexts target).tasks) [
          | inl empty ↦ later (rw (← h, free, empty) refl)
          | inr (u, us, e) ↦
              let found = steal_seq-found is_free i k n p u us free e in
              let same : u ≡ t = cc in (target, us, e ∙ ap (λ x. x ∷ us) same, cc)
        ]
        | inr busy ↦ later (rw (← h, busy) refl)
      ]

  pub steal_seq-none :
      (is_free : ℕ → Bool) (i k n : ℕ) (p p' : Local (List T))
      → steal_seq is_free i k n p ≡ (none, p')
      → (p' ≡ p)
        × ((j : ℕ)
            → k ≤ j
            → j < k + n
            → is_free ((i + j) % p.queues) ≡ true
            → (p.contexts ((i + j) % p.queues)).tasks ≡ [])
  unfolding steal_seq
  steal_seq-none is_free i k zero p p' h = (cc, λ j lo hi e. absurd (omega arith))
  steal_seq-none is_free i k (suc n) p p' h =
      let target = (i + k) % p.queues in
      let later = steal_seq-none is_free i (k + 1) n p p' in
      elim (Bool-cases (is_free target)) [
        | inl free ↦ elim (List-cases (p.contexts target).tasks) [
          | inl empty ↦
              let (same, rest) = later (rw (← h, free, empty) refl) in
              (
                same,
                λ j lo hi e. elim (ℕ_discrete k j) [
                  | yes here ↦ subst (λ x. (p.contexts ((i + x) % p.queues)).tasks ≡ []) here empty
                  | no on ↦ rest j (omega arith) (omega arith) e
                ],
              )
          | inr (u, us, e) ↦ let found = steal_seq-found is_free i k n p u us free e in cc
        ]
        | inr busy ↦
            let (same, rest) = later (rw (← h, busy) refl) in
            (
              same,
              λ j lo hi e. elim (ℕ_discrete k j) [
                | yes here ↦
                    let locked : is_free ((i + j) % p.queues) ≡ false =
                      subst (λ x. is_free ((i + x) % p.queues) ≡ false) here busy in
                    cc
                | no on ↦ rest j (omega arith) (omega arith) e
              ],
            )
      ]

  module _ (steal : ℕ → Local (List T) → Option T × Local (List T)) where
    take_or-own :
        (i : ℕ) (p : Local (List T)) (t : T) (ts : List T)
        → (p.contexts i).tasks ≡ t ∷ ts
        → take_or steal i p ≡ (some t, set_tasks p i ts)
    unfolding take_or
    take_or-own i p t ts e = rw (take_or, e) refl

    -- What a steal promises carries over to the whole search for a task.
    pub take_or-TakesFront :
        (i : ℕ) (p p' : Local (List T)) (t : T)
        → (steal i p ≡ (some t, p') → TakesFront p t p')
        → take_or steal i p ≡ (some t, p')
        → TakesFront p t p'
    unfolding take_or TakesFront
    take_or-TakesFront i p p' t stolen h = elim (List-cases (p.contexts i).tasks) [
      | inl empty ↦ elim (Bool-cases (ltb 1 p.queues)) [
        | inl more ↦ stolen (rw (← h, take_or, empty, more) refl)
        | inr alone ↦ absurd (ground arith)
      ]
      | inr (u, us, e) ↦
          let found = take_or-own i p u us e in
          let same : u ≡ t = cc in (i, us, e ∙ ap (λ x. x ∷ us) same, cc)
    ]

    pub take_or-none :
        (i : ℕ) (p p' : Local (List T))
        → take_or steal i p ≡ (none, p')
        → ((p.contexts i).tasks ≡ [])
          × (((1 < p.queues) × (steal i p ≡ (none, p'))) ⊎ ((p.queues ≤ 1) × (p' ≡ p)))
    unfolding take_or
    take_or-none i p p' h = elim (List-cases (p.contexts i).tasks) [
      | inl empty ↦ elim (dec_lt 1 p.queues) [
        | yes more ↦ (empty, inl (more, ground arith))
        | no alone ↦ (empty, inr (omega arith, ground arith))
      ]
      | inr (u, us, e) ↦ let found = take_or-own i p u us e in cc
    ]

  pub turn-run :
      (take : ℕ → Local (List T) → Option T × Local (List T)) (stop again : Bool) (i : ℕ)
      (p p' : Local (List T)) (t : T)
      → turn_local take stop again i p ≡ (run t, p')
      → take i p ≡ (some t, p')
  unfolding turn_local
  turn-run take stop again i p p' t h = ground arith

  pub turn-idle :
      (take : ℕ → Local (List T) → Option T × Local (List T)) (again : Bool) (i : ℕ)
      (p p' : Local (List T)) (what : Turn T) (found : Option T) (q : Local (List T))
      → take i p ≡ (found, q)
      → turn_local take false again i p ≡ (what, p')
      → ((t : T) → what ≢ run t)
      → take i p ≡ (none, p')
  unfolding turn_local
  turn-idle take again i p p' what none q e h idle = ground arith
  turn-idle take again i p p' what (some t) q e h idle =
      let ran : what ≡ run t = ground arith in absurd (idle t ran)

  pub seq_idle :
      (steal : ℕ → Local (List T) → Option T × Local (List T)) (is_free : ℕ → Bool) (i : ℕ)
      (p p' : Local (List T))
      → steal i p ≡ steal_seq is_free i 1 (p.queues - 1) p
      → take_or steal i p ≡ (none, p')
      → i < p.queues
      → (p' ≡ p)
        × ((j : ℕ) → j < p.queues → (j ≡ i) ⊎ (is_free j ≡ true) → (p.contexts j).tasks ≡ [])
  seq_idle steal is_free i p p' as_seq h hi =
      let (own, others) = take_or-none steal i p p' h in
      elim others [
        | inl (more, e) ↦
            let (same, rest) = steal_seq-none is_free i 1 (p.queues - 1) p p' (sym as_seq ∙ e) in
            (
              same,
              λ j hj who. elim (ℕ_discrete i j) [
                | yes me ↦ subst (λ x. (p.contexts x).tasks ≡ []) me own
                | no ne ↦
                    let (k, lo, hk, to_j) = around p.queues i j hi hj ne in
                    let free : is_free j ≡ true = ground (arith, who) in
                    subst (λ x. (p.contexts x).tasks ≡ []) to_j
                      (rest k lo (omega arith) (ap is_free to_j ∙ free))
              ],
            )
        | inr (one, same) ↦
            (same, λ j hj who. subst (λ x. (p.contexts x).tasks ≡ []) (omega arith) own)
      ]
