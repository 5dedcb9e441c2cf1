-- ===== src/Pools/Priority.antt =====
-- Which task the executor with a priority queue runs: the one whose coroutine was submitted least
-- often, and among those the one that came first.
use native.Mathlib.Nat.{mod-eq_of_lt}
use mathlib.Core.List.{Perm}
use mathlib.Core.List.Perm
use parallel_operations_tool.Prelude.{
  ℕ, ◌+◌, ◌-◌, ◌^◌, ◌≤◌, ◌<◌, ◌≡◌, ◌≢◌, ◌⊎◌, inl, inr, sym, Bool, true, false, some, List, [], ◌∷◌,
  arith, Bool-cases, add_size, subst,
}
use parallel_operations_tool.Pools.{Global, accepted, run, submit_global, turn_global}
use parallel_operations_tool.Pools.Gpq.{
  Item, WorkPqueue, is_less, take_top, derived_execute, turn, take_item,
}

module _ {T : Type 0} where
  -- `x` comes before `y`.
  pub Sooner : Item T → Item T → Type 0
  Sooner x y = (x.priority < y.priority) ⊎ ((x.priority ≡ y.priority) × (x.sequence < y.sequence))

  abbrev pub All : (Item T → Type 0) → List (Item T) → Type 0
  All P [] = Unit
  All P (x ∷ xs) = P x × All P xs

  All-map :
      {P Q : Item T → Type 0} (xs : List (Item T))
      → ((x : Item T) → P x → Q x)
      → All P xs
      → All Q xs
  All-map [] f all = tt
  All-map (x ∷ xs) f (px, all) = (f x px, All-map xs f all)

  All-zip :
      {P Q R : Item T → Type 0} (xs : List (Item T))
      → ((x : Item T) → P x → Q x → R x)
      → All P xs
      → All Q xs
      → All R xs
  All-zip [] f ps qs = tt
  All-zip (x ∷ xs) f (p, ps) (q, qs) = (f x p q, All-zip xs f ps qs)

  -- No two items have the same number, and all are below the counter.
  abbrev pub Distinct : List (Item T) → Type 0
  Distinct [] = Unit
  Distinct (x ∷ xs) = All (λ y. x.sequence ≢ y.sequence) xs × Distinct xs

  pub record Numbered (q : WorkPqueue T) : Type 0 where
    pub below : All (λ x. x.sequence < q.seq_counter) q.items
    pub distinct : Distinct q.items

  -- `y` does not come before `x`.
  abbrev pub NotLater : Item T → Item T → Type 0
  NotLater x y = (x.priority < y.priority) ⊎ ((x.priority ≡ y.priority) × (x.sequence ≤ y.sequence))

  is_less-true : (x z : Item T) → is_less x z ≡ true → NotLater z x
  is_less-true x z h = ground arith

  is_less-false : (x z : Item T) → is_less x z ≡ false → NotLater x z
  is_less-false x z h = ground arith

  NotLater-trans : (x y z : Item T) → NotLater x y → NotLater y z → NotLater x z
  NotLater-trans x y z h k = ground arith

  Sooner_lem : (x y : Item T) → NotLater x y → x.sequence ≢ y.sequence → Sooner x y
  unfolding Sooner
  Sooner_lem x y h ne = ground arith

  -- Every item is the top or left.
  take_top-Perm :
      (x : Item T) (ys : List (Item T)) → Perm (x ∷ ys) ((take_top x ys).0 ∷ (take_top x ys).1)
  unfolding take_top
  take_top-Perm x [] = Perm.refl (x ∷ [])
  take_top-Perm x (y ∷ ys) =
      let (z, zs) = take_top y ys in
      let deeper : Perm (x ∷ y ∷ ys) (x ∷ (take_top y ys).0 ∷ (take_top y ys).1) =
        Perm.cons x (take_top-Perm y ys) in
      elim (Bool-cases (is_less x (take_top y ys).0)) [
        | inl less ↦ rw less (Perm.trans deeper (Perm.swap _ _ _))
        | inr not_less ↦ rw not_less deeper
      ]

  take_top-All :
      (P : Item T → Type 0) (x : Item T) (ys : List (Item T))
      → P x
      → All P ys
      → P (take_top x ys).0 × All P (take_top x ys).1
  unfolding take_top
  take_top-All P x [] px all = (px, tt)
  take_top-All P x (y ∷ ys) px (py, all) =
      let (pz, pzs) = take_top-All P y ys py all in
      elim (Bool-cases (is_less x (take_top y ys).0)) [
        | inl less ↦ rw less (pz, (px, pzs))
        | inr not_less ↦ rw not_less (px, (pz, pzs))
      ]

  take_top-NotLater :
      (x : Item T) (ys : List (Item T)) → All (NotLater (take_top x ys).0) (take_top x ys).1
  unfolding take_top
  take_top-NotLater x [] = tt
  take_top-NotLater x (y ∷ ys) =
      let z = (take_top y ys).0 in
      let rest = take_top-NotLater y ys in
      elim (Bool-cases (is_less x z)) [
        | inl less ↦ rw less (is_less-true x z less, rest)
        | inr not_less ↦
            let first = is_less-false x z not_less in
            rw not_less (first, All-map (take_top y ys).1 (λ w. NotLater-trans x z w first) rest)
      ]

  take_top-Distinct :
      (x : Item T) (ys : List (Item T))
      → Distinct (x ∷ ys)
      → Distinct ((take_top x ys).0 ∷ (take_top x ys).1)
  unfolding take_top
  take_top-Distinct x [] d = d
  take_top-Distinct x (y ∷ ys) ((ne, nes), d) =
      let (z_ne, zs_ne) = take_top-All (λ w. x.sequence ≢ w.sequence) y ys ne nes in
      let (z_nes, dz) = take_top-Distinct y ys d in
      elim (Bool-cases (is_less x (take_top y ys).0)) [
        | inl less ↦ rw less (((λ e. z_ne (sym e)), z_nes), (zs_ne, dz))
        | inr not_less ↦ rw not_less ((z_ne, zs_ne), (z_nes, dz))
      ]

  -- Submissions give out numbers that differ.
  pub derived_execute-Numbered :
      (p p' : Global (WorkPqueue T)) (runs : ℕ) (func : T)
      → Numbered p.tasks
      → p.tasks.seq_counter < 2 ^ 64 - 1
      → derived_execute p runs func ≡ accepted p'
      → Numbered p'.tasks
  unfolding derived_execute submit_global
  derived_execute-Numbered p p' runs func v small h =
      let n = p.tasks.seq_counter in
      let next : add_size n 1 ≡ n + 1 = mod-eq_of_lt (omega arith) in
      let same : p'.tasks ≡ record {
        items = record { func = func; priority = runs; sequence = n } ∷ p.tasks.items;
        seq_counter = add_size n 1;
      } =
        ground arith in
      subst Numbered (sym same) (record {
        below = (omega arith, All-map p.tasks.items (λ x lt. omega arith) v.below);
        distinct = (All-map p.tasks.items (λ x lt e. omega arith) v.below, v.distinct);
      })

  take_item-first :
      (items : List (Item T)) (n : ℕ) (q' : WorkPqueue T) (t : T)
      → All (λ x. x.sequence < n) items
      → Distinct items
      → take_item (record { items = items; seq_counter = n }) ≡ (some t, q')
      → (z : Item T) × (z.func ≡ t)
        × Perm items (z ∷ q'.items)
        × All (Sooner z) q'.items
        × Numbered q'
  unfolding take_item
  take_item-first [] n q' t below distinct h = absurd (ground arith)
  take_item-first (x ∷ xs) n q' t (lt, lts) distinct h =
      let z = (take_top x xs).0 in
      let zs = (take_top x xs).1 in
      let (z_below, zs_below) = take_top-All (λ w. w.sequence < n) x xs lt lts in
      let (ne, d) = take_top-Distinct x xs distinct in
      let left : q' ≡ record { items = zs; seq_counter = n } = cc in
      subst
        (λ r.
          (z : Item T) × (z.func ≡ t)
          × Perm (x ∷ xs) (z ∷ r.items)
          × All (Sooner z) r.items
          × Numbered r)
        (sym left)
        (
          z,
          cc,
          take_top-Perm x xs,
          All-zip zs (Sooner_lem z) (take_top-NotLater x xs) ne,
          record { below = zs_below; distinct = d },
        )

  -- A round that runs a task takes out the item that comes before all others.
  turn_runs_first :
      (stop again : Bool) (p p' : Global (WorkPqueue T)) (t : T)
      → Numbered p.tasks
      → turn stop again p ≡ (run t, p')
      → (z : Item T) × (z.func ≡ t)
        × Perm p.tasks.items (z ∷ p'.tasks.items)
        × All (Sooner z) p'.tasks.items
        × Numbered p'.tasks
  unfolding turn turn_global
  turn_runs_first stop again p p' t v h =
      take_item-first p.tasks.items p.tasks.seq_counter p'.tasks t v.below v.distinct (ground arith)
