-- ===== src/LfDequeue/Threads/Effects.antt =====
-- What a step of include/pot/algorithms/lfdequeue.h can do to the list of elements and to the results of the calls.
use parallel_operations_tool.Prelude.{
  ℕ, ◌+◌, ◌-◌, ◌≤◌, ◌≡◌, ◌⊎◌, inl, inr, ℕ_discrete, Option, none, ap, ◌∙◌, some, List, ◌∷◌, update,
  update_self, update_ne,
}
use parallel_operations_tool.Deque
use parallel_operations_tool.LfDequeue.Threads.{
  Owner, idle, restoring, trimming, reclaiming, scanning, noticing, Stealer, returned, busy, won,
  leaving, loading, noting, storing, System,
}
use parallel_operations_tool.LfDequeue.Threads.Bounds.{end_of}
use parallel_operations_tool.LfDequeue.Threads.Numbers.{numbers_from}

module _ {A : Type 0} where
  -- The pushes whose elements are there, the top one first.
  abbrev pub live : System A → List ℕ
  live s = numbers_from s.numbers s.top (end_of s.owner s.bottom - s.top)

  -- What the owner's call is going to return, or its last call has returned, and that of a stealer.
  abbrev pub result : Owner A → Option A
  result (idle o) = o
  result (restoring b o) = o
  result (trimming b t o) = o
  result (reclaiming p) = result p
  result (scanning k least p) = result p
  result (noticing k least p) = result p
  result _ = none

  abbrev pub stolen : Stealer A → Option A
  stolen (returned o) = o
  stolen (leaving o) = o
  stolen (loading o) = o
  stolen (noting a o) = o
  stolen _ = none

  -- Every result stays what it is, unless a new call begins.
  pub record Carries (s t : System A) : Type 0 where
    pub owner :
        (result t.owner ≡ result s.owner)
        ⊎ (((o : Option A) × (s.owner ≡ idle o)) × (result t.owner ≡ none))
    pub stealers :
        (i : ℕ)
        → (stolen (t.stealers i) ≡ stolen (s.stealers i))
          ⊎ (((o : Option A) × (s.stealers i ≡ returned o)) × (stolen (t.stealers i) ≡ none))

  -- What a step does to the list, to the numbers of the pushes and to those that were taken out: it
  -- changes nothing, or it is one of the operations of the deque, and the owner has then what was pushed
  -- under the number that the operation of the list gives, or it is the read of a stealer.
  pub data Effect (s t : System A) : Type 0 where
    same : live t ≡ live s → t.claims ≡ s.claims → t.pushed ≡ s.pushed → Carries s t → Effect s t
    pushes :
        (x : A)
        → s.owner ≡ storing x
        → live t ≡ Deque.push (live s) s.pushed
        → t.claims ≡ s.claims
        → t.pushed ≡ s.pushed + 1
        → t.items s.pushed ≡ x
        → result t.owner ≡ none
        → Effect s t
    pops_top :
        (j : ℕ)
        → Deque.pop_top (live s) ≡ (some j, live t)
        → t.claims ≡ j ∷ s.claims
        → t.pushed ≡ s.pushed
        → result t.owner ≡ some (s.items j)
        → Effect s t
    pops_bottom :
        (j : ℕ)
        → Deque.pop_bottom (live s) ≡ (some j, live t)
        → t.claims ≡ j ∷ s.claims
        → t.pushed ≡ s.pushed
        → result t.owner ≡ some (s.items j)
        → Effect s t
    steals :
        (i u a j : ℕ)
        → Deque.pop_top (live s) ≡ (some j, live t)
        → t.claims ≡ j ∷ s.claims
        → t.pushed ≡ s.pushed
        → t.stealers i ≡ won u a j
        → t.owner ≡ s.owner
        → Effect s t
    reads :
        (i u a j : ℕ) (x : A)
        → s.stealers i ≡ won u a j
        → t.stealers i ≡ leaving (some x)
        → (s.top ≤ u + 1 → x ≡ s.items j)
        → live t ≡ live s
        → t.claims ≡ s.claims
        → t.pushed ≡ s.pushed
        → t.owner ≡ s.owner
        → Effect s t

  pub owner-Carries :
      {s t : System A}
      → (result t.owner ≡ result s.owner)
        ⊎ (((o : Option A) × (s.owner ≡ idle o)) × (result t.owner ≡ none))
      → t.stealers ≡ s.stealers
      → Carries s t
  owner-Carries kept others = record {
    owner = kept;
    stealers = λ i. inl (ap (λ f. stolen (f i)) others);
  }

  pub stealer-Carries :
      {s t : System A} (i : ℕ) (p : Stealer A)
      → t.owner ≡ s.owner
      → t.stealers ≡ update s.stealers i p
      → stolen p ≡ stolen (s.stealers i)
      → Carries s t
  stealer-Carries {s} i p others new kept = record {
    owner = inl (ap result others);
    stealers = λ j. inl (ap (λ f. stolen (f j)) new ∙ at j);
  }
    where
      at : (j : ℕ) → stolen (update s.stealers i p j) ≡ stolen (s.stealers j)
      at j = elim (ℕ_discrete j i) [
        | yes here ↦ rw here (ap stolen (update_self s.stealers i p) ∙ kept)
        | no other ↦ ap stolen (update_ne s.stealers i p j other)
      ]

  pub begin-Carries :
      {s t : System A} (i : ℕ) (o : Option A)
      → t.owner ≡ s.owner
      → t.stealers ≡ update s.stealers i busy
      → s.stealers i ≡ returned o
      → Carries s t
  begin-Carries {s} i o others new e = record {
    owner = inl (ap result others);
    stealers = λ j. elim (ℕ_discrete j i) [
      | yes here ↦ inr (
        (o, ap s.stealers here ∙ e),
        ap (λ f. stolen (f j)) new
            ∙ ap (λ k. stolen (update s.stealers i busy k)) here
            ∙ ap stolen (update_self s.stealers i busy),
      )
      | no other ↦
          inl (ap (λ f. stolen (f j)) new ∙ ap stolen (update_ne s.stealers i busy j other))
    ];
  }
