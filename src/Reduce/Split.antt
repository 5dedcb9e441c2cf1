-- ===== src/Reduce/Split.antt =====
-- Reductions over parts of a range, and the slots that the calls for the parts write.
use parallel_operations_tool.Prelude.{
  ℕ, zero, suc, ◌+◌, ◌-◌, ◌*◌, ◌^◌, ◌≤◌, ◌<◌, ◌≡◌, min, refl, ◌∙◌, sym, ap, List, [], ◌∷◌, map,
  arith, leb, if◌then◌else◌, some, none, update, dec_lt,
}
use parallel_operations_tool.Schedule.{count, Runs}
use parallel_operations_tool.Parfor.{Chunk, parfor, calls}
use parallel_operations_tool.Parfor.Cover.{parfor_once}
use parallel_operations_tool.Reduce.{reduce_from, fill, total_from}

module _ {R : Type 0} where
  -- A slot holds its block's sum once its call has been made.
  fill_lem :
      (block : ℕ → R) (l : List ℕ) (p : ℕ → R) (j : ℕ)
      → fill block l p j ≡ (if leb 1 (count j l) then block j else p j)
  unfolding fill
  fill_lem block [] p j = refl
  fill_lem block (x ∷ l) p j = ground (arith, fill_lem block l (update p x (block x)) j)

  pub total_from-ext :
      (op : R → R → R) (p p' : ℕ → R) (r : R) (i m : ℕ)
      → ((j : ℕ) → i ≤ j → j < i + m → p j ≡ p' j)
      → total_from op p r i m ≡ total_from op p' r i m
  unfolding total_from
  total_from-ext op p p' r i zero h = refl
  total_from-ext op p p' r i (suc m) h =
      rw (h i (omega arith) (omega arith)) (
        total_from-ext op p p' (op r (p' i)) (i + 1) m (λ j lo hi. h j (omega arith) (omega arith)))

  -- Every schedule leaves the blocks' sums in the slots.
  pub fill-total :
      (reduce_op : R → R → R) (identity : R) (block : ℕ → R) (threads n : ℕ) {cs : List Chunk}
      {l : List ℕ}
      → n < 2 ^ 63
      → parfor threads none 0 n ≡ some cs
      → Runs (map calls cs) l
      → total_from reduce_op (fill block l (λ _. identity)) identity 0 n
        ≡ total_from reduce_op block identity 0 n
  fill-total reduce_op identity block threads n {l} small e runs =
      total_from-ext reduce_op _ _ identity 0 n
        (λ j lo hi. fill_lem block l (λ _. identity) j ∙ full j hi)
    where
      full : (j : ℕ) → j < 0 + n → (if leb 1 (count j l) then block j else identity) ≡ block j
      full j hi = ground (arith, parfor_once threads none 0 n e (omega arith) runs j)

module _ {T R : Type 0} (elem_op : T → T → R) (reduce_op : R → R → R) (identity : R) (a b : ℕ → T)
    (assoc : (x y z : R) → reduce_op (reduce_op x y) z ≡ reduce_op x (reduce_op y z))
    (identity_right : (x : R) → reduce_op x identity ≡ x) where
  abbrev from : R → ℕ → ℕ → R
  from = reduce_from elem_op reduce_op identity a b

  pub reduce_from-shift : (x y : R) (i m : ℕ) → reduce_op x (from y i m) ≡ from (reduce_op x y) i m
  unfolding reduce_from
  reduce_from-shift x y i zero = refl
  reduce_from-shift x y i (suc m) =
      reduce_from-shift x (reduce_op y (elem_op (a i) (b i))) (i + 1) m
      ∙ ap (λ z. from z (i + 1) m) (sym (assoc x y (elem_op (a i) (b i))))

  pub reduce_from-append :
      (r : R) (i m j k q : ℕ) → j ≡ i + m → q ≡ m + k → from (from r i m) j k ≡ from r i q
  unfolding reduce_from
  reduce_from-append r i zero j k q e h =
      let e' : j ≡ i = omega arith in let h' : q ≡ k = omega arith in cc (e', h')
  reduce_from-append r i (suc m) j k q e h =
      let h' : q ≡ suc (m + k) = omega arith in
      rw h' (
        reduce_from-append (reduce_op r (elem_op (a i) (b i))) (i + 1) m j k (m + k) (omega arith)
          refl)

  pub reduce_from-none : (r : R) (j m : ℕ) → m ≡ 0 → from r j m ≡ r
  unfolding reduce_from
  reduce_from-none r j zero e = refl
  reduce_from-none r j (suc m) e = absurd (omega arith)

  -- A reduction and that of a part that starts where it ends.
  pub join_parts :
      (r : R) (i m j k q : ℕ)
      → j ≡ i + m
      → q ≡ m + k
      → reduce_op (from r i m) (from identity j k) ≡ from r i q
  join_parts r i m j k q e h =
      reduce_from-shift (from r i m) identity j k
      ∙ ap (λ z. from z j k) (identity_right (from r i m))
      ∙ reduce_from-append r i m j k q e h

  -- The elements of the part `idx` of parts of `size` elements.
  abbrev pub part : ℕ → ℕ → ℕ → R
  part size n idx = from identity (idx * size) (min n (idx * size + size) - idx * size)

  -- A part takes the reduction from its start to its end.
  part-joins :
      (size n idx : ℕ)
      → reduce_op (from identity 0 (min n (idx * size))) (part size n idx)
        ≡ from identity 0 (min n ((idx + 1) * size))
  part-joins size n idx = elim (dec_lt n (idx * size)) [
    | yes past ↦
        ap (reduce_op (from identity 0 (min n (idx * size))))
          (reduce_from-none identity (idx * size) _ (omega arith))
        ∙ identity_right (from identity 0 (min n (idx * size)))
        ∙ ap (from identity 0) (grind arith)
    | no within ↦
        let whole : min n (idx * size) ≡ idx * size = omega (arith, within) in
        ap (λ k. reduce_op (from identity 0 k) (part size n idx)) whole
        ∙ join_parts identity 0 (idx * size) (idx * size) _ _ (omega arith) (grind arith)
  ]

  parts-total :
      (size n m idx total : ℕ) (block : ℕ → R)
      → idx + m ≡ total
      → ((j : ℕ) → j < total → block j ≡ part size n j)
      → n ≤ total * size
      → total_from reduce_op block (from identity 0 (min n (idx * size))) idx m ≡ from identity 0 n
  unfolding total_from
  parts-total size n zero idx total block e h enough =
      let e' : idx ≡ total = omega arith in
      ap (from identity 0) (omega (arith, enough, ap (λ (k : ℕ). k * size) e'))
  parts-total size n (suc m) idx total block e h enough =
      rw (h idx (omega arith), part-joins size n idx)
        (parts-total size n m (idx + 1) total block (omega arith) h enough)

  -- The total of the parts is the reduction of the whole.
  pub blocks_total :
      (size n total : ℕ) (block : ℕ → R)
      → ((j : ℕ) → j < total → block j ≡ part size n j)
      → n ≤ total * size
      → total_from reduce_op block identity 0 total ≡ from identity 0 n
  blocks_total size n total block h enough =
      ap (λ r. total_from reduce_op block r 0 total)
        (sym (reduce_from-none identity 0 (min n (0 * size)) (omega arith)))
      ∙ parts-total size n total 0 total block (omega arith) h enough
