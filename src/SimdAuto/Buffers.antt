-- ===== src/SimdAuto/Buffers.antt =====
-- `load` and `store` of include/pot/simd/simd_auto.h on buffers of any length.
use parallel_operations_tool.Prelude.{
  ℕ, zero, suc, ◌+◌, ◌≤◌, ◌<◌, ◌≡◌, ◌≢◌, ◌↔◌, ◌⊎◌, inl, inr, refl, sym, ◌∙◌, subst, Option, none,
  some, List, [], ◌∷◌, length, get_elem?, get_elem?-lt, get_elem?-out, arith, dec_lt, ℕ_discrete,
  Option-cases,
}
use parallel_operations_tool.SimdAuto.{Simd, fill, write_at, store_from, store, load}
use parallel_operations_tool.SimdAuto.Fill.{fill_iff, fill-none_iff, Lanes}

module _ {A : Type 0} where
  -- What a write at `i` leaves.
  record Written (xs : List A) (i : ℕ) (v : A) (ys : List A) : Type 0 where
    same_length : length ys ≡ length xs
    written : get_elem? ys i ≡ some v
    others : (j : ℕ) → j ≢ i → get_elem? ys j ≡ get_elem? xs j

  write_at-Written :
      (xs : List A) (i : ℕ) (v : A)
      → i < length xs
      → (ys : List A) × (write_at xs i v ≡ some ys) × Written xs i v ys
  write_at-Written [] i v h = elim h [ ]
  write_at-Written (x ∷ xs) zero v h =
      (v ∷ xs, refl, record { same_length = refl; written = refl; others = others })
    where
      others : (j : ℕ) → j ≢ 0 → get_elem? (v ∷ xs) j ≡ get_elem? (x ∷ xs) j
      others zero other = absurd (other refl)
      others (suc j) other = refl
  write_at-Written (x ∷ xs) (suc i) v h =
      let (ys, e, w) = write_at-Written xs i v (omega arith) in
      (
        x ∷ ys,
        rw e refl,
        record {
          same_length = omega (arith, w.same_length);
          written = w.written;
          others = others ys w.others;
        },
      )
    where
      others :
          (ys : List A)
          → ((j : ℕ) → j ≢ i → get_elem? ys j ≡ get_elem? xs j)
          → (j : ℕ) → j ≢ suc i
          → get_elem? (x ∷ ys) j ≡ get_elem? (x ∷ xs) j
      others ys same zero other = refl
      others ys same (suc j) other = same j (omega (arith, other))

  write_at_out : (xs : List A) (i : ℕ) (v : A) → length xs ≤ i → write_at xs i v ≡ none
  write_at_out [] i v h = refl
  write_at_out (x ∷ xs) zero v h = absurd (omega arith)
  write_at_out (x ∷ xs) (suc i) v h = rw (write_at_out xs i v (omega arith)) refl

  -- What storing the lanes from `i` to `end` leaves.
  record Stored (a : Simd A) (xs : List A) (i end : ℕ) (ys : List A) : Type 0 where
    same_length : length ys ≡ length xs
    stored : (j : ℕ) → i ≤ j → j < end → get_elem? ys j ≡ some (a j)
    others : (j : ℕ) → (j < i) ⊎ (end ≤ j) → get_elem? ys j ≡ get_elem? xs j

  store_from-Stored :
      (n : ℕ) (a : Simd A) (rounds i : ℕ) (xs : List A)
      → i + rounds ≤ length xs
      → (ys : List A) × (store_from n a i rounds xs ≡ some ys) × Stored a xs i (i + rounds) ys
  unfolding store_from
  store_from-Stored n a zero i xs h = (
    xs,
    refl,
    record { same_length = refl; stored = λ j l g. absurd (omega arith); others = λ j o. refl },
  )
  store_from-Stored n a (suc rounds) i xs h =
      let (ys, e, w) = write_at-Written xs i (a i) (omega arith) in
      let (zs, f, s) = store_from-Stored n a rounds (i + 1) ys (omega (arith, w.same_length)) in
      (
        zs,
        rw e f,
        record {
          same_length = s.same_length ∙ w.same_length;
          stored = λ j l g. elim (ℕ_discrete i j) [
            | yes same ↦
                subst (λ k. get_elem? zs k ≡ some (a k)) same
                  (s.others i (inl (omega arith)) ∙ w.written)
            | no later ↦ s.stored j (omega (arith, later)) (omega arith)
          ];
          others = λ j o. s.others j (wider j o) ∙ w.others j (outside j o);
        },
      )
    where
      wider : (j : ℕ) → (j < i) ⊎ (i + suc rounds ≤ j) → (j < i + 1) ⊎ (i + 1 + rounds ≤ j)
      wider j (inl l) = inl (omega arith)
      wider j (inr g) = inr (omega arith)

      outside : (j : ℕ) → (j < i) ⊎ (i + suc rounds ≤ j) → j ≢ i
      outside j (inl l) = omega arith
      outside j (inr g) = omega arith

  store_from_short :
      (n : ℕ) (a : Simd A) (rounds i : ℕ) (xs : List A)
      → i ≤ length xs
      → length xs < i + rounds
      → store_from n a i rounds xs ≡ none
  unfolding store_from
  store_from_short n a zero i xs h k = absurd (omega arith)
  store_from_short n a (suc rounds) i xs h k = elim (dec_lt i (length xs)) [
    | yes inside ↦
        let (ys, e, w) = write_at-Written xs i (a i) inside in
        rw e (
          store_from_short n a rounds (i + 1) ys (omega (arith, w.same_length))
            (omega (arith, w.same_length)))
    | no out ↦ rw (write_at_out xs i (a i) (omega (arith, out))) refl
  ]

module _ {A : Type 0} (n : ℕ) where
  load_lem :
      (a : Simd A) (ptr : List A)
      → n ≤ length ptr
      → (r : Simd A) × (load n a ptr ≡ some r) × Lanes (get_elem? ptr) n a r
  unfolding load
  load_lem a ptr h = elim (Option-cases (fill (get_elem? ptr) 0 n a)) [
    | inl e ↦ absurd (never ((fill-none_iff (get_elem? ptr) n a).0 e))
    | inr (r, e) ↦ (r, e, (fill_iff (get_elem? ptr) n a r).0 e)
  ]
    where
      never : (j : ℕ) × (j < n) × (get_elem? ptr j ≡ none) → ⊥
      never (j, l, e) = let (x, f) = get_elem?-lt ptr j (omega arith) in cc

  -- A vector loaded from one buffer and stored to another one copies the first `scalar_count`
  -- elements and no more, when both buffers have at least `scalar_count` elements: the load and the
  -- store both succeed, and the rest of the second buffer and its length are unchanged.
  pub store-load :
      (before : Simd A) (src dst : List A)
      → n ≤ length src
      → n ≤ length dst
      → (r : Simd A) × (out : List A) × (load n before src ≡ some r)
        × (store n r dst ≡ some out)
        × (length out ≡ length dst)
        × ((j : ℕ) → j < n → get_elem? out j ≡ get_elem? src j)
        × ((j : ℕ) → n ≤ j → get_elem? out j ≡ get_elem? dst j)
  unfolding store
  store-load before src dst hs hd =
      let (r, e, lanes) = load_lem before src hs in
      let (out, f, s) = store_from-Stored n r n 0 dst (omega arith) in
      (
        r,
        out,
        e,
        f,
        s.same_length,
        λ j l. s.stored j (omega arith) (omega arith) ∙ sym ((lanes j).0 l),
        λ j g. s.others j (inr (omega arith)),
      )

  -- `load` and `store` leave their buffer exactly when it has fewer than `scalar_count` elements.
  pub buffer-bounds :
      (a : Simd A) (ptr : List A)
      → ((load n a ptr ≡ none) ↔ (length ptr < n)) × ((store n a ptr ≡ none) ↔ (length ptr < n))
  unfolding store load
  buffer-bounds a ptr = (
    (
      λ e. short (load n a ptr) e (λ h. let (r, f, _) = load_lem a ptr h in (r, f)),
      λ h. load_short h,
    ),
    (
      λ e.
          short (store_from n a 0 n ptr) e
            (λ h. let (ys, f, _) = store_from-Stored n a n 0 ptr (omega arith) in (ys, f)),
      λ h. store_from_short n a n 0 ptr (omega arith) (omega arith),
    ),
  )
    where
      short :
          {B : Type 0} (o : Option B)
          → o ≡ none
          → (n ≤ length ptr → (b : B) × (o ≡ some b))
          → length ptr < n
      short o e enough = elim (dec_lt (length ptr) n) [
        | yes h ↦ h
        | no h ↦ let (b, f) = enough (omega (arith, h)) in absurd cc
      ]

      load_short : length ptr < n → load n a ptr ≡ none
      load_short h =
          (fill-none_iff (get_elem? ptr) n a).1
            (length ptr, h, get_elem?-out ptr (length ptr) (omega arith))
