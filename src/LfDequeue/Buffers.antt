-- ===== src/LfDequeue/Buffers.antt =====
-- What a ring buffer keeps: writes within one round do not meet, and a resize keeps the elements.
use native.Mathlib.Nat.{div-add-mod, two-pow-succ, pow-le-pow_right}
use native.Mathlib.Numerals.{add-one}
use parallel_operations_tool.Prelude.{
  ℕ, zero, suc, ◌+◌, ◌-◌, ◌*◌, ◌/◌, ◌%◌, ◌^◌, ◌≤◌, ◌<◌, ◌≡◌, ◌≢◌, refl, ap, ap₂, ◌∙◌, sym, List, [],
  ◌∷◌, ◌++◌, arith, length, update_self, update_ne, dec_lt, ℕ_discrete,
}
use parallel_operations_tool.LfDequeue.{
  RingBuffer, Delta, grow, shrink, log_initial_size, size, get, put_item, copy_from, resize,
  resized_log,
}

times-le : (c p q : ℕ) → p ≤ q → c * p ≤ c * q
times-le c p q h = grind arith

times-lt : (c p q : ℕ) → p < q → c * p + c ≤ c * q
times-lt c p q h = grind arith

-- Two positions less than a round apart have different places.
mod-ne_of_lt : (c i j : ℕ) → i < j → j < i + c → i % c ≢ j % c
mod-ne_of_lt c i j h k e = elim (dec_lt (i / c) (j / c)) [
  | yes lt ↦ omega (arith, e, div-add-mod i c, div-add-mod j c, times-lt c (i / c) (j / c) lt)
  | no ge ↦
      omega (arith, e, div-add-mod i c, div-add-mod j c, times-le c (j / c) (i / c) (omega arith))
]

pub mod-ne_of_near : (c i j : ℕ) → i ≢ j → i < j + c → j < i + c → i % c ≢ j % c
mod-ne_of_near c i j ne h k = elim (dec_lt i j) [
  | yes lt ↦ mod-ne_of_lt c i j lt k
  | no ge ↦ λ e. mod-ne_of_lt c j i (omega arith) h (sym e)
]

pow-double : (n : ℕ) → 2 ^ (n + 1) ≡ 2 * 2 ^ n
pow-double n = rw add-one (omega (arith, two-pow-succ n))

pow-half : (n : ℕ) → 0 < n → 2 * 2 ^ (n - 1) ≡ 2 ^ n
pow-half zero h = absurd (omega arith)
pow-half (suc n) h = let e : suc n - 1 ≡ n = omega arith in rw e (omega (arith, two-pow-succ n))

pub pow-large : (n : ℕ) → 4 ≤ n → 16 ≤ 2 ^ n
pow-large n h = pow-le-pow_right {n = 2} (omega arith) h

module _ {A : Type 0} where
  pub get-put_item_self : (r : RingBuffer A) (i : ℕ) (x : A) → get (put_item r i x) i ≡ x
  get-put_item_self r i x = update_self r.segment (i % size r) x

  pub get-put_item_ne :
      (r : RingBuffer A) (i j : ℕ) (x : A)
      → i ≢ j
      → i < j + size r
      → j < i + size r
      → get (put_item r i x) j ≡ get r j
  get-put_item_ne r i j x ne h k =
      update_ne r.segment (i % size r) x (j % size r)
        (λ e. mod-ne_of_near (size r) i j ne h k (sym e))

  copy_from-fields :
      (old new : RingBuffer A) (i n : ℕ)
      → ((copy_from old new i n).id ≡ new.id) × ((copy_from old new i n).log_size ≡ new.log_size)
  unfolding copy_from
  copy_from-fields old new i zero = (refl, refl)
  copy_from-fields old new i (suc n) = copy_from-fields old (put_item new i (get old i)) (i + 1) n

  -- Elements before the ones copied stay, as long as all fit.
  get-copy_from_before :
      (old new : RingBuffer A) (i n j : ℕ)
      → j < i
      → i + n ≤ j + size new
      → get (copy_from old new i n) j ≡ get new j
  unfolding copy_from
  get-copy_from_before old new i zero j h k = refl
  get-copy_from_before old new i (suc n) j h k =
      get-copy_from_before old (put_item new i (get old i)) (i + 1) n j (omega arith) (omega arith)
      ∙ get-put_item_ne new i j (get old i) (omega arith) (omega arith) (omega arith)

  get-copy_from :
      (old new : RingBuffer A) (i n j : ℕ)
      → i ≤ j
      → j < i + n
      → n ≤ size new
      → get (copy_from old new i n) j ≡ get old j
  unfolding copy_from
  get-copy_from old new i zero j h k fit = absurd (omega arith)
  get-copy_from old new i (suc n) j h k fit = elim (ℕ_discrete i j) [
    | yes e ↦
        get-copy_from_before old (put_item new i (get old i)) (i + 1) n j (omega arith)
          (omega arith)
        ∙ ap (get (put_item new i (get old i))) (sym e)
        ∙ get-put_item_self new i (get old i)
        ∙ ap (get old) e
    | no ne ↦
        get-copy_from old (put_item new i (get old i)) (i + 1) n j (omega arith) (omega arith)
          (omega arith)
  ]

  -- A resize numbers the new buffer, doubles or halves it, and keeps the elements if they fit.
  pub record Resized (r new : RingBuffer A) (b t : ℕ) (delta : Delta) : Type 0 where
    pub next_id : new.id ≡ r.id + 1
    pub log : new.log_size ≡ resized_log r.log_size delta
    pub kept : (j : ℕ) → t ≤ j → j < b → get new j ≡ get r j

  pub resize-Resized :
      (blank : A) (r : RingBuffer A) (b t : ℕ) (delta : Delta)
      → t ≤ b
      → b - t ≤ 2 ^ resized_log r.log_size delta
      → Resized r (resize blank r b t delta) b t delta
  unfolding resize
  resize-Resized blank r b t delta le fit = record {
    next_id = (copy_from-fields r _ t (b - t)).0;
    log = (copy_from-fields r _ t (b - t)).1;
    kept = λ j lo hi. get-copy_from r _ t (b - t) j lo (omega arith) fit;
  }

  -- A resize as `push` and `pop` make it: the elements stay, and two places are left.
  pub record Replaced (r new : RingBuffer A) (b t : ℕ) : Type 0 where
    pub large : log_initial_size ≤ new.log_size
    pub two_places : b - t + 1 < size new
    pub kept : (j : ℕ) → t ≤ j → j < b → get new j ≡ get r j

  module _ (blank : A) (r : RingBuffer A) (b t : ℕ) (le : t ≤ b)
      (large : log_initial_size ≤ r.log_size) where
    pub grow-Replaced : b - t < size r → Replaced r (resize blank r b t grow) b t
    grow-Replaced room =
        let new : Resized r (resize blank r b t grow) b t grow =
          resize-Resized blank r b t grow le (omega (arith, pow-double r.log_size)) in
        let doubled : size (resize blank r b t grow) ≡ 2 * size r =
          ap (λ n. 2 ^ n) new.log ∙ pow-double r.log_size in
        record {
          large = omega (arith, new.log);
          two_places = omega (arith, pow-large r.log_size);
          kept = new.kept;
        }

    not-first_size : 16 < b - t → b - t ≤ size r / 3 → 4 < r.log_size
    not-first_size many few = elim (ℕ_discrete r.log_size 4) [
      | yes e ↦ absurd (omega (arith, ap (λ (n : ℕ). 2 ^ n) e))
      | no ne ↦ omega arith
    ]

    pub shrink-Replaced :
        b - t ≤ size r / 3 → 16 < b - t → Replaced r (resize blank r b t shrink) b t
    shrink-Replaced few many =
        let deep : 4 < r.log_size = not-first_size many few in
        let half : 2 * 2 ^ (r.log_size - 1) ≡ size r = pow-half r.log_size (omega arith) in
        let new : Resized r (resize blank r b t shrink) b t shrink =
          resize-Resized blank r b t shrink le (omega arith) in
        let halved : size (resize blank r b t shrink) ≡ 2 ^ (r.log_size - 1) =
          ap (λ n. 2 ^ n) new.log in
        record { large = omega (arith, new.log); two_places = omega arith; kept = new.kept }

  -- The elements of `n` positions from `t` on.
  abbrev pub window : RingBuffer A → ℕ → ℕ → List A
  window r t zero = []
  window r t (suc n) = get r t ∷ window r (t + 1) n

  pub length-window : (r : RingBuffer A) (t n : ℕ) → length (window r t n) ≡ n
  length-window r t zero = refl
  length-window r t (suc n) = ap suc (length-window r (t + 1) n)

  pub window-ext :
      (r r' : RingBuffer A) (t n : ℕ)
      → ((j : ℕ) → t ≤ j → j < t + n → get r j ≡ get r' j)
      → window r t n ≡ window r' t n
  window-ext r r' t zero h = refl
  window-ext r r' t (suc n) h =
      ap₂ ◌∷◌ (h t (omega arith) (omega arith))
        (window-ext r r' (t + 1) n (λ j lo hi. h j (omega arith) (omega arith)))

  pub window-snoc :
      (r : RingBuffer A) (t n e : ℕ)
      → t + n ≡ e
      → window r t (suc n) ≡ window r t n ++ (get r e ∷ [])
  window-snoc r t zero e h = ap (λ k. get r k ∷ []) (omega arith)
  window-snoc r t (suc n) e h = ap (λ l. get r t ∷ l) (window-snoc r (t + 1) n e (omega arith))
