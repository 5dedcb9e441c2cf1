-- ===== src/Schedule.antt =====
-- Tasks that an executor runs at the same time: each is the list of its calls, in order, and a
-- schedule picks the task whose next call is made.
use parallel_operations_tool.Prelude.{
  ℕ, zero, suc, ◌+◌, ◌≡◌, refl, ap, ◌==◌, if◌then◌else◌, leb, ltb, ◌&&◌, List, [], ◌∷◌, ◌++◌, arith,
}

-- The indices `a`, `a + 1`, …, `n` of them.
abbrev pub range : ℕ → ℕ → List ℕ
range a zero = []
range a (suc n) = a ∷ range (a + 1) n

abbrev pub flatten : List (List ℕ) → List ℕ
flatten [] = []
flatten (t ∷ ts) = t ++ flatten ts

abbrev pub count : ℕ → List ℕ → ℕ
count i [] = 0
count i (x ∷ xs) = (if x == i then 1 else 0) + count i xs

-- One task makes its next call, `x`.
pub data Pick : List (List ℕ) → ℕ → List (List ℕ) → Type 0 where
  here : {x : ℕ} {xs : List ℕ} {ts : List (List ℕ)} → Pick ((x ∷ xs) ∷ ts) x (xs ∷ ts)
  there : {t : List ℕ} {ts us : List (List ℕ)} {x : ℕ} → Pick ts x us → Pick (t ∷ ts) x (t ∷ us)

-- `Runs ts l`: the tasks `ts` can make the calls `l`, in that order, and then all have ended.
pub data Runs : List (List ℕ) → List ℕ → Type 0 where
  ended : {ts : List (List ℕ)} → flatten ts ≡ [] → Runs ts []
  next : {ts us : List (List ℕ)} {x : ℕ} {l : List ℕ} → Pick ts x us → Runs us l → Runs ts (x ∷ l)

pub count-append : (i : ℕ) (xs ys : List ℕ) → count i (xs ++ ys) ≡ count i xs + count i ys
count-append i [] ys = omega arith
count-append i (x ∷ xs) ys = omega (arith, count-append i xs ys)

Pick-count :
    {ts us : List (List ℕ)} {x : ℕ}
    → Pick ts x us
    → (i : ℕ) → count i (flatten ts) ≡ (if x == i then 1 else 0) + count i (flatten us)
Pick-count here i = omega arith
Pick-count (there {t} {ts} {us} p) i =
    omega (arith, Pick-count p i, count-append i t (flatten ts), count-append i t (flatten us))

-- No schedule adds, drops or repeats a call.
pub Runs-count :
    {ts : List (List ℕ)} {l : List ℕ} → Runs ts l → (i : ℕ) → count i l ≡ count i (flatten ts)
Runs-count (ended e) i = ground (arith, e)
Runs-count (next p r) i = omega (arith, Runs-count r i, Pick-count p i)

pub range-append : (a n m b k : ℕ) → b ≡ a + n → k ≡ n + m → range a n ++ range b m ≡ range a k
range-append a zero m b k e h =
    let e' : b ≡ a = omega arith in let h' : k ≡ m = omega arith in cc (e', h')
range-append a (suc n) m b k e h =
    let h' : k ≡ suc (n + m) = omega arith in
    rw h' (ap (λ l. a ∷ l) (range-append (a + 1) n m b (n + m) (omega arith) refl))

-- A task that has ended does not matter.
Runs-skip : {ts : List (List ℕ)} {l : List ℕ} → Runs ts l → Runs ([] ∷ ts) l
Runs-skip (ended e) = ended e
Runs-skip (next p r) = next (there p) (Runs-skip r)

-- Every index of a range stands in it once, and no other index does.
pub count-range : (i a n : ℕ) → count i (range a n) ≡ (if leb a i && ltb i (a + n) then 1 else 0)
count-range i a zero = ground arith
count-range i a (suc n) = ground (arith, count-range i (a + 1) n)

-- The tasks can run one after the other.
pub Runs-flatten : (ts : List (List ℕ)) → Runs ts (flatten ts)
Runs-flatten [] = ended refl
Runs-flatten ([] ∷ ts) = Runs-skip (Runs-flatten ts)
Runs-flatten ((x ∷ xs) ∷ ts) = next here (Runs-flatten (xs ∷ ts))
