-- ===== src/LfDequeue/Threads/Reclaim.antt =====
-- `reclaim_buffers` does not delete a buffer that somebody is about to read from.
use parallel_operations_tool.Prelude.{
  ℕ, ◌+◌, ◌≤◌, ◌<◌, ◌≡◌, ◌≢◌, refl, Option, none, some, Bool, true, false, arith,
}
use parallel_operations_tool.LfDequeue.{RingBuffer}
use parallel_operations_tool.LfDequeue.Threads.{
  Owner, idle, putting, reclaiming, scanning, noticing, Stealer, returned, armed, won, loading,
  noting, System, first_unlinked, replace, Step, load_top, enlarge, has_room, put, publish, lower,
  read_top, empty, win, lose, restore, take, trim, keep, keep_buffers, scan, pass_idle, notice,
  lower_least, delete, register, begin, load_first, find, find_nothing, load_buffer, steal, fail,
  read, mark_idle, load_last, note, Reach, start, later,
}

-- The buffer `a` is not deleted.
abbrev pub IsKept : Option ℕ → ℕ → Type 0
IsKept none a = Unit
IsKept (some u) a = u ≤ a

first_unlinked-IsKept :
    (u : Option ℕ) (a b : ℕ) → (u ≡ none → a ≡ 0) → IsKept u b → IsKept (first_unlinked u a) b
first_unlinked-IsKept none a b h k = omega (arith, h refl)
first_unlinked-IsKept (some u) a b h k = k

IsKept-suc : (u : Option ℕ) (a : ℕ) → IsKept u a → IsKept u (a + 1)
IsKept-suc none a k = tt
IsKept-suc (some u) a k = omega arith

first_unlinked-ne-none : (u : Option ℕ) (a : ℕ) → first_unlinked u a ≢ none
first_unlinked-ne-none none a e = cc
first_unlinked-ne-none (some u) a e = cc

module _ {A : Type 0} where
  -- The stealer is going to read from the buffer `a`.
  abbrev pub Uses : Stealer A → ℕ → Type 0
  Uses (armed t b) a = a ≡ b
  Uses (won t b j) a = a ≡ b
  Uses _ a = ⊥

  -- The token says that its stealer is in a call.
  abbrev Marked : Stealer A → Bool → Type 0
  Marked (returned o) sign = sign ≡ true
  Marked (loading o) sign = sign ≡ true
  Marked (noting a o) sign = sign ≡ true
  Marked _ sign = sign ≡ false

  -- A buffer that is used is not below the least number of a scan that has passed its token.
  abbrev Passed : Owner A → ℕ → ℕ → ℕ → Type 0
  Passed (scanning k least o) i now a = (least ≤ now) × (k ≤ i → least ≤ a)
  Passed (noticing k least o) i now a = (least ≤ now) × (k < i → least ≤ a)
  Passed _ i now a = Unit

  abbrev Scans : Owner A → ℕ → Type 0
  Scans (scanning k least o) now = least ≤ now
  Scans (noticing k least o) now = least ≤ now
  Scans _ now = Unit

  -- No scan stands inside another one.
  abbrev Plain : Owner A → Type 0
  Plain (reclaiming o) = ⊥
  Plain (scanning k least o) = ⊥
  Plain (noticing k least o) = ⊥
  Plain _ = Unit

  abbrev Nested : Owner A → Type 0
  Nested (reclaiming o) = Plain o
  Nested (scanning k least o) = Plain o
  Nested (noticing k least o) = Plain o
  Nested _ = Unit

  abbrev Noted : Stealer A → ℕ → Type 0
  Noted (noting a o) now = a ≤ now
  Noted _ now = Unit

  record Kept (s : System A) : Type 0 where
    nested : Nested s.owner
    active_kept : IsKept s.unlinked s.active_buffer
    first : s.unlinked ≡ none → s.active_buffer ≡ 0
    scans : Scans s.owner s.active_buffer
    marked : (i : ℕ) → Marked (s.stealers i) (s.was_idle i)
    unused : (i : ℕ) → s.registered ≤ i → s.stealers i ≡ returned none
    noted : (i : ℕ) → Noted (s.stealers i) s.active_buffer
    last_used : (i : ℕ) → s.id_last_used i ≤ s.active_buffer
    since : (i a : ℕ) → Uses (s.stealers i) a → (s.id_last_used i ≤ a) × (a ≤ s.active_buffer)
    kept : (i a : ℕ) → Uses (s.stealers i) a → IsKept s.unlinked a
    passed : (i a : ℕ) → Uses (s.stealers i) a → Passed s.owner i s.active_buffer a

  replace-Kept :
      {s : System A} (r : RingBuffer A) (o : Owner A)
      → Kept s
      → Plain o
      → Kept (record (replace s r) { owner = reclaiming o })
  replace-Kept {s} r o inv plain = record {
    nested = plain;
    active_kept = IsKept-suc (first_unlinked s.unlinked s.active_buffer) s.active_buffer (
        first_unlinked-IsKept s.unlinked s.active_buffer s.active_buffer inv.first inv.active_kept);
    first = λ e. absurd (first_unlinked-ne-none s.unlinked s.active_buffer e);
    scans = tt;
    marked = inv.marked;
    unused = inv.unused;
    noted = grind arith;
    last_used = λ i. omega (arith, inv.last_used i);
    since = λ i a u. omega (arith, inv.since i a u);
    kept = λ i a u. first_unlinked-IsKept s.unlinked s.active_buffer a inv.first (inv.kept i a u);
    passed = λ i a u. tt;
  }

  Step-Kept : (blank : A) {s t : System A} → Kept s → Step blank s t → Kept t
  Step-Kept blank inv (load_top x o e) = grind arith
  Step-Kept blank inv (enlarge x t e h) = replace-Kept _ (putting x t) inv tt
  Step-Kept blank inv (has_room x t e h) = grind arith
  Step-Kept blank inv (put x t e) = grind arith
  Step-Kept blank inv (publish x e) = grind arith
  Step-Kept blank inv (lower o e) = grind arith
  Step-Kept blank inv (read_top b e) = grind arith
  Step-Kept blank inv (empty b t e h) = grind arith
  Step-Kept blank inv (win b t e h same) = grind arith
  Step-Kept blank inv (lose b t e h other) = grind arith
  Step-Kept blank inv (restore b o e) = grind arith
  Step-Kept blank inv (take b t e h) = grind arith
  Step-Kept blank inv (trim b t o e h l) = replace-Kept _ (idle o) inv tt
  Step-Kept blank inv (keep b t o e h) = grind arith
  Step-Kept blank inv (keep_buffers o e none_left) = grind arith
  Step-Kept blank inv (scan u o e some_left) = grind arith
  Step-Kept blank inv (pass_idle k least o e idle_there) = grind arith
  Step-Kept blank inv (notice k least o e busy_there) = grind arith
  Step-Kept blank inv (lower_least k least o e) = grind arith
  Step-Kept blank inv (delete u least o e some_left) = grind arith
  Step-Kept blank inv register = grind arith
  Step-Kept blank inv (begin i o e known) = grind arith
  Step-Kept blank inv (load_first i e) = grind arith
  Step-Kept blank inv (find i t e h) = grind arith
  Step-Kept blank inv (find_nothing i t e h) = grind arith
  Step-Kept blank inv (load_buffer i t e) = grind arith
  Step-Kept blank {s} inv (steal i t a e same) =
      let uses : Uses (s.stealers i) a = rw e refl in
      let used = inv.since i a uses in
      let there = inv.kept i a uses in let before = inv.passed i a uses in grind arith
  Step-Kept blank inv (fail i t a e other) = grind arith
  Step-Kept blank inv (read i t a j e) = grind arith
  Step-Kept blank inv (mark_idle i o e) = grind arith
  Step-Kept blank inv (load_last i o e) = grind arith
  Step-Kept blank inv (note i a o e) = grind arith

  Reach-Kept : {blank : A} {s : System A} → Reach blank s → Kept s
  Reach-Kept start = grind arith
  Reach-Kept {blank} (later r step) = Step-Kept blank (Reach-Kept r) step

  -- In every interleaving, the active buffer is not deleted, and neither is a buffer that a stealer
  -- has loaded and reads its element from.
  pub used-IsKept :
      {blank : A} {s : System A} (i a : ℕ)
      → Reach blank s
      → Uses (s.stealers i) a
      → IsKept s.unlinked s.active_buffer × IsKept s.unlinked a
  used-IsKept i a r u = let inv = Reach-Kept r in (inv.active_kept, inv.kept i a u)
