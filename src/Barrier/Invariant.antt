-- ===== src/Barrier/Invariant.antt =====
-- What holds between the count, the list of awaiters and the lists that callers of `set` took.
use native.Mathlib.Nat.{mod-eq_of_lt}
use parallel_operations_tool.Prelude.{
  ℕ, ◌+◌, ◌-◌, ◌^◌, ◌≤◌, ◌<◌, ◌≡◌, ◌≢◌, ◌⊎◌, inl, inr, refl, sym, ap, ◌∙◌, subst, List, [], ◌∷◌,
  ◌++◌, arith, update, update_self, update_ne, add_size, ℕ_discrete,
}
use parallel_operations_tool.Barrier.{
  Pc, suspending, waiting, passed, Setter, idle, swapping, resuming, System, after_add, Step,
  find_full, find_open, resume_self, push_back, swap, resume, finish, Add, add, start_state, Reach,
  start, later, set,
}

abbrev pub IsIn : ℕ → List ℕ → Type 0
IsIn i [] = ⊥
IsIn i (x ∷ xs) = (i ≡ x) ⊎ IsIn i xs

IsIn-append_left : (i : ℕ) (xs ys : List ℕ) → IsIn i xs → IsIn i (xs ++ ys)
IsIn-append_left i [] ys h = absurd h
IsIn-append_left i (x ∷ xs) ys (inl e) = inl e
IsIn-append_left i (x ∷ xs) ys (inr h) = inr (IsIn-append_left i xs ys h)

IsIn-snoc : (i : ℕ) (xs : List ℕ) → IsIn i (xs ++ (i ∷ []))
IsIn-snoc i [] = inl refl
IsIn-snoc i (x ∷ xs) = inr (IsIn-snoc i xs)

-- Some caller of `set` still has to resume the coroutine.
abbrev pub IsTaken : System → ℕ → Type 0
IsTaken s i = (k : ℕ) × (l : List ℕ) × (s.setters k ≡ resuming l) × IsIn i l

pub record Inv (expected : ℕ) (s : System) : Type 0 where
  pub listed : (i : ℕ) → s.pc i ≡ waiting → IsIn i s.barrier.awaiters ⊎ IsTaken s i
  pub swapped :
      s.barrier.awaiters ≢ []
      → expected ≤ s.barrier.current_count
      → (k : ℕ) × (s.setters k ≡ swapping)
  pub full : (i : ℕ) → s.pc i ≡ passed → expected ≤ s.barrier.current_count
  pub busy : (k : ℕ) → s.setters k ≢ idle → expected ≤ s.barrier.current_count

Inv-start : (expected : ℕ) → Inv expected start_state
Inv-start expected = record {
  listed = λ i e. cc;
  swapped = λ ne le. absurd (ne refl);
  full = λ i e. cc;
  busy = λ k ne. absurd (ne refl);
}

-- A step of one coroutine that does not end in the list of awaiters.
move-Inv :
    (expected : ℕ) (s : System) (i : ℕ) (c : Pc)
    → Inv expected s
    → c ≢ waiting
    → (c ≡ passed → expected ≤ s.barrier.current_count)
    → Inv expected (record s { pc = update s.pc i c })
move-Inv expected s i c inv ne full = record {
  listed = λ j e. inv.listed j (ground arith);
  swapped = inv.swapped;
  full = λ j e. elim (ℕ_discrete j i) [
    | yes here ↦ full (ground arith)
    | no other ↦ inv.full j (ground arith)
  ];
  busy = inv.busy;
}

-- A caller of `set` that is in it already goes on.
busy_still :
    (expected : ℕ) (s : System) (k : ℕ) (c : Setter)
    → Inv expected s
    → s.setters k ≢ idle
    → (k' : ℕ) → update s.setters k c k' ≢ idle
    → expected ≤ s.barrier.current_count
busy_still expected s k c inv was k' ne = elim (ℕ_discrete k' k) [
  | yes here ↦ inv.busy k was
  | no other ↦ inv.busy k' (subst (λ x. x ≢ idle) (update_ne s.setters k c k' other) ne)
]

-- The list that `k` took loses its first coroutine.
taken_next :
    (s : System) (k h : ℕ) (hs : List ℕ) (j : ℕ)
    → s.setters k ≡ resuming (h ∷ hs)
    → j ≢ h
    → IsTaken s j
    → (k' : ℕ) × (l : List ℕ) × (update s.setters k (resuming hs) k' ≡ resuming l) × IsIn j l
taken_next s k h hs j e ne (k', l, at, m) = elim (ℕ_discrete k' k) [
  | yes self ↦
      let same : s.setters k ≡ resuming l = ap s.setters (sym self) ∙ at in
      let list : l ≡ h ∷ hs = cc in
      (
        k,
        hs,
        update_self s.setters k (resuming hs),
        elim (subst (IsIn j) list m) [ inl here ↦ absurd (ne here) | inr rest ↦ rest ],
      )
  | no other ↦ (k', l, update_ne s.setters k (resuming hs) k' other ∙ at, m)
]

taken_other :
    (s : System) (k : ℕ) (c : Setter) (j : ℕ)
    → ((l : List ℕ) → s.setters k ≡ resuming l → IsIn j l → ⊥)
    → IsTaken s j
    → (k' : ℕ) × (l : List ℕ) × (update s.setters k c k' ≡ resuming l) × IsIn j l
taken_other s k c j none (k', l, at, m) = elim (ℕ_discrete k' k) [
  | yes here ↦ absurd (none l (ap s.setters (sym here) ∙ at) m)
  | no other ↦ (k', l, update_ne s.setters k c k' other ∙ at, m)
]

Step-Inv : (expected : ℕ) {s t : System} → Step expected s t → Inv expected s → Inv expected t
Step-Inv expected {s} (find_full i e le) inv = move-Inv expected s i passed inv (λ q. cc) (λ q. le)
Step-Inv expected {s} (find_open i e lt) inv =
    move-Inv expected s i suspending inv (λ q. cc) (λ q. cc)
Step-Inv expected {s} (resume_self i e le) inv =
    move-Inv expected s i passed inv (λ q. cc) (λ q. le)
Step-Inv expected {s} (push_back i e lt) inv = record {
  listed = λ j w. elim (ℕ_discrete j i) [
    | yes here ↦ inl (
        subst (λ x. IsIn x (s.barrier.awaiters ++ (i ∷ []))) (sym here)
          (IsIn-snoc i s.barrier.awaiters))
    | no other ↦ elim (inv.listed j (ground arith)) [
      | inl h ↦ inl (IsIn-append_left j s.barrier.awaiters (i ∷ []) h)
      | inr h ↦ inr h
    ]
  ];
  swapped = λ ne le. absurd (omega arith);
  full = λ j w. inv.full j (ground arith);
  busy = inv.busy;
}
Step-Inv expected {s} (swap k e) inv = record {
  listed = λ j w. elim (inv.listed j w) [
    | inl h ↦ inr (k, s.barrier.awaiters, update_self s.setters k (resuming s.barrier.awaiters), h)
    | inr (k', l, at, h) ↦ inr (k', l, ground arith, h)
  ];
  swapped = λ ne le. absurd (ne refl);
  full = inv.full;
  busy = busy_still expected s k (resuming s.barrier.awaiters) inv (λ q. cc);
}
Step-Inv expected {s} (resume k h hs e) inv = record {
  listed = λ j w.
      let ne : j ≢ h = λ here.
        let gone : passed ≡ waiting =
          sym (ap (update s.pc h passed) here ∙ update_self s.pc h passed) ∙ w in
        cc in
      elim (inv.listed j (ground arith)) [
        | inl m ↦ inl m
        | inr taken ↦ inr (taken_next s k h hs j e ne taken)
      ];
  swapped = λ ne le. let (k', at) = inv.swapped ne le in (k', ground arith);
  full = λ j w. elim (ℕ_discrete j h) [
    | yes here ↦ inv.busy k (λ q. cc)
    | no other ↦ inv.full j (ground arith)
  ];
  busy = busy_still expected s k (resuming hs) inv (λ q. cc);
}
Step-Inv expected {s} (finish k e) inv = record {
  listed = λ j w. elim (inv.listed j w) [
    | inl m ↦ inl m
    | inr taken ↦
        inr (
          taken_other s k idle j (λ l at m. let empty : l ≡ [] = cc in subst (IsIn j) empty m)
            taken)
  ];
  swapped = λ ne le. let (k', at) = inv.swapped ne le in (k', ground arith);
  full = inv.full;
  busy = busy_still expected s k idle inv (λ q. cc);
}

Add-Inv :
    (expected : ℕ) {s t : System}
    → Add expected s t
    → Inv expected s
    → s.barrier.current_count < 2 ^ 64 - 1
    → Inv expected t × (t.barrier.current_count ≡ s.barrier.current_count + 1)
Add-Inv expected {s} (add k e) inv small =
    let count = s.barrier.current_count in
    let next : add_size count 1 ≡ count + 1 = mod-eq_of_lt (omega arith) in
    let c = after_add expected (add_size count 1) in
    (
      record {
        listed = λ j w. elim (inv.listed j w) [
          | inl m ↦ inl m
          | inr taken ↦ inr (taken_other s k c j (λ l at m. cc) taken)
        ];
        swapped = λ ne le. elim (ℕ_discrete (add_size count 1) expected) [
          | yes hit ↦ (k, update_self s.setters k c ∙ ground arith)
          | no missed ↦ let (k', at) = inv.swapped ne (omega arith) in (k', ground arith)
        ];
        full = λ j w. omega (arith, inv.full j w);
        busy = λ k' ne. elim (ℕ_discrete k' k) [
          | yes here ↦ elim (ℕ_discrete (add_size count 1) expected) [
            | yes hit ↦ omega arith
            | no missed ↦ absurd (ne (ground arith))
          ]
          | no other ↦
              omega
                (arith, inv.busy k' (subst (λ x. x ≢ idle) (update_ne s.setters k c k' other) ne))
        ];
      },
      next,
    )

Step-count :
    (expected : ℕ) {s t : System}
    → Step expected s t
    → t.barrier.current_count ≡ s.barrier.current_count
Step-count expected (find_full i e le) = refl
Step-count expected (find_open i e lt) = refl
Step-count expected (resume_self i e le) = refl
Step-count expected (push_back i e lt) = refl
Step-count expected (swap k e) = refl
Step-count expected (resume k h hs e) = refl
Step-count expected (finish k e) = refl

pub Reach-Inv :
    (expected n : ℕ) {s : System}
    → Reach expected n s
    → n < 2 ^ 64
    → Inv expected s × (s.barrier.current_count ≡ n)
Reach-Inv expected _ start small = (Inv-start expected, refl)
Reach-Inv expected n (later r st) small =
    let (inv, e) = Reach-Inv expected n r small in
    (Step-Inv expected st inv, Step-count expected st ∙ e)
Reach-Inv expected _ (set {n} r st) small =
    let (inv, e) = Reach-Inv expected n r (omega arith) in
    let (inv', e') = Add-Inv expected st inv (omega arith) in (inv', e' ∙ ap (λ v. v + 1) e)
