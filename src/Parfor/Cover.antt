-- ===== src/Parfor/Cover.antt =====
-- The chunks of `parfor` cover its range, each index once, whatever the schedule.
use parallel_operations_tool.Prelude.{
  ℕ, zero, suc, ◌+◌, ◌-◌, ◌*◌, ◌/◌, ◌^◌, ◌≤◌, ◌<◌, ◌≡◌, max, min, refl, ◌∙◌, ap, Option, none, some,
  List, map, arith, length, leb, ltb, if◌then◌else◌, add_size, dec_lt, append-nil, >>=-eq-some,
  lt→ltb, ap₂, ◌&&◌,
}
use native.Mathlib.Nat.{div-lt_iff_lt-mul, lt-mul-div-succ}
use parallel_operations_tool.Schedule.{
  range, flatten, count, Runs, Runs-count, range-append, count-range,
}
use parallel_operations_tool.Parfor.{chunk_size, num_chunks, Chunk, chunk, chunks, parfor, calls}

-- What `parfor` returns, taken apart.
record Plan (n c m : ℕ) : Type 0 where
  pos : 0 < c
  fits : n + c < 2 ^ 63
  rounds : m ≡ (n + c - 1) / c

num_chunks-Plan : (n c : ℕ) {m : ℕ} → num_chunks n c ≡ some m → Plan n c m
unfolding num_chunks
num_chunks-Plan n c h = ground arith

-- The chunks end at or after the range, and the last one starts before its end.
Plan-bounds : (n c m : ℕ) → 0 < n → Plan n c m → (n ≤ m * c) × (m * c < n + c)
Plan-bounds n c m h p = grind arith

chunk_start-lt : (n c m k : ℕ) → m * c < n + c → k < m → k * c < n
chunk_start-lt n c m k h lt = grind arith

module _ (from to c m : ℕ) (lt : from < to) (small : to < 2 ^ 63) (p : Plan (to - from) c m) where
  bounds : (to - from ≤ m * c) × (m * c < to - from + c)
  bounds = Plan-bounds (to - from) c m (omega arith) p

  -- A chunk is not empty, lies in the range, and ends where the next one starts.
  chunk_lem :
      (k : ℕ)
      → k < m
      → (calls (chunk from to c k) ≡ range (from + k * c) (min c (to - from - k * c)))
        × (k * c < to - from)
  chunk_lem k h =
      let s : k * c < to - from = chunk_start-lt (to - from) c m k bounds.1 h in
      let e : add_size from (k * c) ≡ from + k * c = omega arith in
      let e' : add_size (from + k * c) c ≡ from + k * c + c = omega (arith, p.fits) in
      (rw (e, e') (ap (range (from + k * c)) (omega arith)), s)

  chunks-cover :
      (r k : ℕ)
      → k + r ≡ m
      → flatten (map calls (chunks from to c k r)) ≡ range (from + k * c) (to - from - k * c)
  unfolding chunks
  chunks-cover zero k e =
      let z : to - from - k * c ≡ 0 =
        let e' : k ≡ m = omega arith in omega (arith, bounds, ap (λ (x : ℕ). x * c) e') in
      rw z
  chunks-cover (suc r) k e =
      let (same, s) = chunk_lem k (omega arith) in
      rw (same, chunks-cover r (k + 1) (omega arith))
        (elim (dec_lt (to - from - k * c) c) [
          | yes last ↦
              let z : to - from - (k + 1) * c ≡ 0 = omega arith in
              let n : min c (to - from - k * c) ≡ to - from - k * c = omega arith in
              rw (z, n) (append-nil _)
          | no more ↦ range-append (from + k * c) _ _ _ _ (omega arith) (omega arith)
        ])

-- A result of `parfor` is the chunks of one chunk size.
pub record Result (threads : ℕ) (static_chunk_size : Option ℕ) (from to : ℕ) (cs : List Chunk)
    : Type 0 where
  pub c : ℕ
  pub m : ℕ
  pub ordered : from < to
  pub sized : chunk_size threads static_chunk_size (to - from) ≡ some c
  pub counted : num_chunks (to - from) c ≡ some m
  pub same : cs ≡ chunks from to c 0 m

module _ (threads : ℕ) (static_chunk_size : Option ℕ) (from to : ℕ) {cs : List Chunk}
    (h : parfor threads static_chunk_size from to ≡ some cs) where
  ordered : from < to
  unfolding parfor
  ordered = ground arith

  pub parfor-Result : Result threads static_chunk_size from to cs
  unfolding parfor
  parfor-Result =
      let (c, ec, h1) =
        >>=-eq-some (chunk_size threads static_chunk_size (to - from)) _
          (rw (lt→ltb from to ordered) at h) in
      let (m, em, h2) = >>=-eq-some (num_chunks (to - from) c) _ h1 in
      record { c = c; m = m; ordered = ordered; sized = ec; counted = em; same = ground arith }

  -- The chunks cover the range from its first index to its last, each index once and in order.
  pub parfor-cover : to < 2 ^ 63 → flatten (map calls cs) ≡ range from (to - from)
  parfor-cover small = rw same (
      chunks-cover from to c m ordered small (num_chunks-Plan (to - from) c counted) m 0
        (omega arith)
      ∙ ap₂ range (omega arith) (omega arith))
    where
      open parfor-Result use {c, m, counted, same}

  -- Whatever the order in which the tasks make their calls, the function is called once at each
  -- index from `from` up to `to`, and at no other.
  pub parfor_once :
      to < 2 ^ 63
      → {l : List ℕ} → Runs (map calls cs) l
      → (i : ℕ) → count i l ≡ (if leb from i && ltb i to then 1 else 0)
  parfor_once small r i =
      Runs-count r i
      ∙ ap (count i) (parfor-cover small)
      ∙ count-range i from (to - from)
      ∙ ap (λ e. if leb from i && ltb i e then 1 else 0) (omega (arith, ordered))

length-chunks : (from to c k m : ℕ) → length (chunks from to c k m) ≡ m
unfolding chunks
length-chunks from to c k zero = refl
length-chunks from to c k (suc m) = ap suc (length-chunks from to c (k + 1) m)

-- Few tasks: `n / t` iterations to a chunk make at most twice as many chunks as threads.
few_chunks : (n t c : ℕ) → 0 < t → 0 < n → c ≡ max 1 (n / t) → (n + c - 1) / c ≤ 2 * t
few_chunks n t c h k e =
    let pos : 0 < c = omega arith in
    let d : n / t ≤ c = omega arith in
    let dt : t * (n / t) ≤ t * c = grind arith in
    let tt' : t ≤ t * c = grind arith in
    omega (
      arith,
      (div-lt_iff_lt-mul {x = n + c - 1} {y = 2 * t + 1} pos).1
          (omega (arith, lt-mul-div-succ n h)),
    )

-- With the chunk size left to it and a thread to run on, `parfor` accepts every range that is not
-- empty and ends below 2 ^ 62, and submits at most two tasks to a thread.
pub parfor_total :
    (threads from to : ℕ)
    → 0 < threads
    → from < to
    → to < 2 ^ 62
    → (cs : List Chunk) × (parfor threads none from to ≡ some cs) × (length cs ≤ 2 * threads)
unfolding parfor chunk_size num_chunks
parfor_total threads from to h lt small = (
  chunks from to c 0 ((n + c - 1) / c),
  ground arith,
  omega (
    arith,
    few_chunks n threads c h (omega arith) refl,
    length-chunks from to c 0 ((n + c - 1) / c),
  ),
)
  where
    n : ℕ
    n = to - from

    c : ℕ
    c = max 1 (n / threads)
