-- ===== src/ConditionVariable/Invariant.antt =====
-- Where the coroutines that await the variable are.
use parallel_operations_tool.Prelude.{
  ℕ, ◌≡◌, ◌≢◌, ◌⊎◌, inl, inr, refl, sym, ap, ◌∙◌, subst, arith, Bool, ◌↔◌, List, [], ◌∷◌, ◌++◌,
  update, update_self, update_ne, ℕ_discrete,
}
use parallel_operations_tool.ConditionVariable.{
  waiting, resuming, idle, Caller, resumes, System, IsIn, Step, find_set, find_unset, push, reset,
  again, set, swap, resume, finish, stop, drop_list, reset_state, Reach, start, later,
}

-- No coroutine stands twice in a list.
abbrev pub Once : List ℕ → Type 0
Once [] = Unit
Once (x ∷ xs) = (IsIn x xs → ⊥) × Once xs

IsIn-append : (i : ℕ) (xs ys : List ℕ) → IsIn i (xs ++ ys) → IsIn i xs ⊎ IsIn i ys
IsIn-append i [] ys p = inr p
IsIn-append i (x ∷ xs) ys (inl e) = inl (inl e)
IsIn-append i (x ∷ xs) ys (inr p) = elim (IsIn-append i xs ys p) [
  | inl q ↦ inl (inr q)
  | inr q ↦ inr q
]

IsIn-append_left : (i : ℕ) (xs ys : List ℕ) → IsIn i xs → IsIn i (xs ++ ys)
IsIn-append_left i [] ys p = absurd p
IsIn-append_left i (x ∷ xs) ys (inl e) = inl e
IsIn-append_left i (x ∷ xs) ys (inr p) = inr (IsIn-append_left i xs ys p)

IsIn-append_right : (i : ℕ) (xs ys : List ℕ) → IsIn i ys → IsIn i (xs ++ ys)
IsIn-append_right i [] ys p = p
IsIn-append_right i (x ∷ xs) ys p = inr (IsIn-append_right i xs ys p)

record Inv (s : System) : Type 0 where
  head_waits : (i : ℕ) → IsIn i s.head → s.pc i ≡ waiting
  list_waits : (k i : ℕ) (l : List ℕ) → s.callers k ≡ resumes l → IsIn i l → s.pc i ≡ waiting
  head_once : Once s.head
  list_once : (k : ℕ) (l : List ℕ) → s.callers k ≡ resumes l → Once l
  apart : (k i : ℕ) (l : List ℕ) → s.callers k ≡ resumes l → IsIn i l → IsIn i s.head → ⊥
  lists_apart :
      (k j i : ℕ) (l m : List ℕ)
      → k ≢ j
      → s.callers k ≡ resumes l
      → s.callers j ≡ resumes m
      → IsIn i l
      → IsIn i m
      → ⊥
  placed :
      (i : ℕ)
      → s.pc i ≡ waiting
      → IsIn i s.head
        ⊎ ((k : ℕ) × (l : List ℕ) × (s.callers k ≡ resumes l) × IsIn i l)
        ⊎ IsIn i s.dropped
  dropped_waits : (i : ℕ) → IsIn i s.dropped → s.pc i ≡ waiting
  dropped_head : (i : ℕ) → IsIn i s.dropped → IsIn i s.head → ⊥
  dropped_list : (k i : ℕ) (l : List ℕ) → s.callers k ≡ resumes l → IsIn i l → IsIn i s.dropped → ⊥

Step-Inv : {s t : System} → Inv s → Step s t → Inv t
Step-Inv inv (find_set i e h) = grind arith
Step-Inv inv (find_unset i e h) = grind arith
Step-Inv {s} inv (push i e) = record {
  head_waits = λ j h. grind arith;
  list_waits = λ m j q h p. grind (arith, inv.list_waits m j q h p);
  head_once = grind arith;
  list_once = inv.list_once;
  apart = λ m j q h p p'. grind (arith, inv.list_waits m j q h p, inv.apart m j q h p);
  lists_apart = inv.lists_apart;
  placed = λ j h. elim (ℕ_discrete j i) [
    | yes same ↦ inl (inl same)
    | no other ↦ elim (inv.placed j (sym (update_ne s.pc i waiting j other) ∙ h)) [
      | inl in_head ↦ inl (inr in_head)
      | inr elsewhere ↦ inr elsewhere
    ]
  ];
  dropped_waits = λ j p. grind (arith, inv.dropped_waits j p);
  dropped_head = λ j p p'. elim p' [
    | inl same ↦
        absurd (let there : s.pc i ≡ waiting = ap s.pc (sym same) ∙ inv.dropped_waits j p in cc)
    | inr in_head ↦ inv.dropped_head j p in_head
  ];
  dropped_list = inv.dropped_list;
}
Step-Inv inv (reset i e) = grind arith
Step-Inv inv (again i e) = grind arith
Step-Inv inv (set k e) = grind arith
Step-Inv {s} inv (swap k e) = record {
  head_waits = λ j h. grind arith;
  list_waits = λ m j q h h'. grind arith;
  head_once = grind arith;
  list_once = λ m q h. grind arith;
  apart = λ m j q h h' h''. grind arith;
  lists_apart = λ m n j q r ne h h' a b. grind arith;
  placed = λ j h. elim (inv.placed j h) [
    | inl in_head ↦ inr (inl (k, s.head, update_self s.callers k (resumes s.head), in_head))
    | inr (inl (m, l, f, in_list)) ↦ inr (inl (m, l, grind arith, in_list))
    | inr (inr gone) ↦ inr (inr gone)
  ];
  dropped_waits = inv.dropped_waits;
  dropped_head = λ j p q. q;
  dropped_list = λ m j q h p p'. elim (ℕ_discrete m k) [
    | yes same ↦
        let left : s.head ≡ q = grind arith in inv.dropped_head j p' (subst (IsIn j) (sym left) p)
    | no other ↦
        inv.dropped_list m j q (sym (update_ne s.callers k (resumes s.head) m other) ∙ h) p p'
  ];
}
Step-Inv {s} inv (resume k i l e) = record {
  head_waits = λ j h.
      update_ne s.pc i resuming j (λ same. head_free (subst (λ x. IsIn x s.head) same h))
      ∙ inv.head_waits j h;
  list_waits = λ m j q h p.
      let (q', f, within) = before m q h in
      update_ne s.pc i resuming j (λ same. list_free m q h (subst (λ x. IsIn x q) same p))
      ∙ inv.list_waits m j q' f (within j p);
  head_once = inv.head_once;
  list_once = once;
  apart = λ m j q h p p'. let (q', f, within) = before m q h in inv.apart m j q' f (within j p) p';
  lists_apart = λ m n j q r ne h h' p p'.
      let (q', f, within) = before m q h in
      let (r', f', within') = before n r h' in
      inv.lists_apart m n j q' r' ne f f' (within j p) (within' j p');
  placed = λ j h. elim (inv.placed j (grind arith)) [
    | inl in_head ↦ inl in_head
    | inr (inl (m, q, f, in_list)) ↦ elim (ℕ_discrete m k) [
      | yes same ↦ inr (inl (k, l, update_self s.callers k (resumes l), grind arith))
      | no other ↦ inr (inl (m, q, grind arith, in_list))
    ]
    | inr (inr gone) ↦ inr (inr gone)
  ];
  dropped_waits = λ j p.
      update_ne s.pc i resuming j (λ same. drop_free (subst (λ x. IsIn x s.dropped) same p))
      ∙ inv.dropped_waits j p;
  dropped_head = inv.dropped_head;
  dropped_list = λ m j q h p p'.
      let (q', f, within) = before m q h in inv.dropped_list m j q' f (within j p) p';
}
  where
    after : ℕ → Caller
    after = update s.callers k (resumes l)

    drop_free : IsIn i s.dropped → ⊥
    drop_free = inv.dropped_list k i (i ∷ l) e (inl refl)

    head_free : IsIn i s.head → ⊥
    head_free = inv.apart k i (i ∷ l) e (inl refl)

    -- The list that a caller had before holds what is left of it.
    before :
        (m : ℕ) (q : List ℕ)
        → after m ≡ resumes q
        → (q' : List ℕ) × (s.callers m ≡ resumes q') × ((j : ℕ) → IsIn j q → IsIn j q')
    before m q h = elim (ℕ_discrete m k) [
      | yes same ↦
          let left : l ≡ q = same_list same h in
          (i ∷ l, ap s.callers same ∙ e, λ j p. inr (subst (IsIn j) (sym left) p))
      | no other ↦ (q, sym (update_ne s.callers k (resumes l) m other) ∙ h, λ j p. p)
    ]
      where
        same_list : m ≡ k → after m ≡ resumes q → l ≡ q
        same_list same h = grind arith

    list_free : (m : ℕ) (q : List ℕ) → after m ≡ resumes q → IsIn i q → ⊥
    list_free m q h p = elim (ℕ_discrete m k) [
      | yes same ↦
          let left : l ≡ q = grind arith in
          (inv.list_once k (i ∷ l) e).0 (subst (IsIn i) (sym left) p)
      | no other ↦
          inv.lists_apart m k i q (i ∷ l) other
            (sym (update_ne s.callers k (resumes l) m other) ∙ h) e p (inl refl)
    ]

    once : (m : ℕ) (q : List ℕ) → after m ≡ resumes q → Once q
    once m q h = elim (ℕ_discrete m k) [
      | yes same ↦ let left : l ≡ q = grind arith in subst Once left (inv.list_once k (i ∷ l) e).1
      | no other ↦ inv.list_once m q (sym (update_ne s.callers k (resumes l) m other) ∙ h)
    ]
Step-Inv inv (finish k e) = grind arith
Step-Inv inv (stop k e) = grind arith
Step-Inv {s} inv (drop_list k e) = record {
  head_waits = λ j h. absurd h;
  list_waits = λ m j q h p. inv.list_waits m j q (same_list m q h) p;
  head_once = tt;
  list_once = λ m q h. inv.list_once m q (same_list m q h);
  apart = λ m j q h p p'. p';
  lists_apart = λ m n j q r ne h h' p p'.
      inv.lists_apart m n j q r ne (same_list m q h) (same_list n r h') p p';
  placed = λ j h. elim (inv.placed j h) [
    | inl in_head ↦ inr (inr (IsIn-append_left j s.head s.dropped in_head))
    | inr (inl (m, q, f, in_list)) ↦ inr (inl (m, q, grind arith, in_list))
    | inr (inr gone) ↦ inr (inr (IsIn-append_right j s.head s.dropped gone))
  ];
  dropped_waits = λ j p. elim (IsIn-append j s.head s.dropped p) [
    | inl in_head ↦ inv.head_waits j in_head
    | inr gone ↦ inv.dropped_waits j gone
  ];
  dropped_head = λ j p p'. p';
  dropped_list = λ m j q h p p'. elim (IsIn-append j s.head s.dropped p') [
    | inl in_head ↦ inv.apart m j q (same_list m q h) p in_head
    | inr gone ↦ inv.dropped_list m j q (same_list m q h) p gone
  ];
}
  where
    same_list :
        (m : ℕ) (q : List ℕ) → update s.callers k idle m ≡ resumes q → s.callers m ≡ resumes q
    same_list m q h = grind arith
Step-Inv inv reset_state = grind arith

Reach-Inv : {initial : Bool} {s : System} → Reach initial s → Inv s
Reach-Inv start = grind arith
Reach-Inv (later r step) = Step-Inv (Reach-Inv r) step

-- The coroutine that a `set` resumes next is suspended in the variable, it is not in the list of
-- awaiters any more, no `stop` has dropped it, and no `set` has it in its list again, this one
-- included: a coroutine is resumed once for each time that it is suspended.
pub resumed_once :
    {initial : Bool} {s : System} (k i : ℕ) (list : List ℕ)
    → Reach initial s
    → s.callers k ≡ resumes (i ∷ list)
    → (s.pc i ≡ waiting)
      × (IsIn i s.head → ⊥)
      × (IsIn i s.dropped → ⊥)
      × (IsIn i list → ⊥)
      × ((j : ℕ) (other : List ℕ) → k ≢ j → s.callers j ≡ resumes other → IsIn i other → ⊥)
resumed_once k i list r e =
    let inv = Reach-Inv r in
    (
      inv.list_waits k i (i ∷ list) e (inl refl),
      inv.apart k i (i ∷ list) e (inl refl),
      inv.dropped_list k i (i ∷ list) e (inl refl),
      (inv.list_once k (i ∷ list) e).0,
      λ j other ne f p. inv.lists_apart k j i (i ∷ list) other ne e f (inl refl) p,
    )

-- A coroutine is suspended in the variable exactly when it is in the list of awaiters, in the list of a
-- `set` that is going to resume it, or in a list that a `stop` has dropped; what a `stop` has dropped is
-- in neither of the other lists, so it stays suspended.
pub waiting_listed :
    {initial : Bool} {s : System} (i : ℕ)
    → Reach initial s
    → ((s.pc i ≡ waiting) ↔ (
        IsIn i s.head
        ⊎ ((k : ℕ) × (l : List ℕ) × (s.callers k ≡ resumes l) × IsIn i l)
        ⊎ IsIn i s.dropped))
      × (IsIn i s.dropped
          → (IsIn i s.head → ⊥) × ((k : ℕ) (l : List ℕ) → s.callers k ≡ resumes l → IsIn i l → ⊥))
waiting_listed i r =
    let inv = Reach-Inv r in
    (
      (
        inv.placed i,
        λ p. elim p [
          | inl in_head ↦ inv.head_waits i in_head
          | inr (inl (k, l, f, in_list)) ↦ inv.list_waits k i l f in_list
          | inr (inr gone) ↦ inv.dropped_waits i gone
        ],
      ),
      λ gone. (inv.dropped_head i gone, λ k l f p. inv.dropped_list k i l f p gone),
    )
