-- ===== src/LfQueue/Invariant.antt =====
-- What holds of the cells, the positions and the threads of a queue in every reachable state.
mod Defs
mod Moves
mod Numbers
pub use Defs.*
use Moves.{Move-Inv}
pub use Numbers.{pushing, popping, IsFull, IsFree, Cells}
use Numbers.{Move-Cells}
use parallel_operations_tool.Prelude.{ℕ, ◌+◌, ◌≤◌, ◌<◌, ◌≡◌, refl, inl, arith, length, length-snoc}
use parallel_operations_tool.LfQueue.{limit, init}
use parallel_operations_tool.LfQueue.Threads.{
  Shared, Pc, idle, Move, push_start, push_win, System, Step, pick, Reach, start, later,
  start_state,
}

module _ {A : Type 0} where
  Inv-init : (blank : A) → Inv (start_state blank).shared (start_state blank).pc
  unfolding init
  Inv-init blank = record {
    counted = refl;
    behind = omega arith;
    near = λ p. omega arith;
    published = λ p h. absurd (omega arith);
    fresh = λ i. tt;
    unique = λ i j p h k. cc;
  }

  Cells-init : (blank : A) → Cells (start_state blank).shared (start_state blank).pc
  unfolding init
  Cells-init blank = record {
    room = omega arith;
    ahead = λ i p h. cc;
    back = λ i p h. cc;
    full = λ p lo hi. absurd (omega arith);
    free = λ p lo hi. inl (omega arith);
  }

  -- A step never forgets a message that was given a position.
  Move-length : {s t : Shared A} {p p' : Pc A} → Move s p t p' → length s.pushed ≤ length t.pushed
  Move-length (push_start msg) = omega arith
  Move-length {s} (push_win {msg} g) = omega (arith, length-snoc s.pushed msg)
  Move-length mv = omega arith

  pub Step-length : {s t : System A} → Step s t → length s.shared.pushed ≤ length t.shared.pushed
  Step-length (pick i mv) = Move-length mv

  pub Step-Inv :
      {s t : System A}
      → Step s t
      → length t.shared.pushed < limit
      → Inv s.shared s.pc
      → Inv t.shared t.pc
  Step-Inv (pick i mv) lim inv = Move-Inv inv i mv lim

  -- Fewer than `limit` messages: no position has wrapped.
  pub Reach-Inv :
      {blank : A} {s : System A}
      → Reach blank s
      → length s.shared.pushed < limit
      → Inv s.shared s.pc
  Reach-Inv {blank} start lim = Inv-init blank
  Reach-Inv (later r st) lim = Step-Inv st lim (Reach-Inv r (omega (arith, Step-length st)))

  pub Reach-Cells :
      {blank : A} {s : System A}
      → Reach blank s
      → length s.shared.pushed < limit
      → Cells s.shared s.pc
  Reach-Cells {blank} start lim = Cells-init blank
  Reach-Cells (later r (pick i mv)) lim =
      let lim' = below r mv lim in Move-Cells (Reach-Inv r lim') (Reach-Cells r lim') i mv lim
    where
      below :
          {blank : A} {s : System A} {i : ℕ} {t : Shared A} {p : Pc A}
          → Reach blank s
          → Move s.shared (s.pc i) t p
          → length t.pushed < limit
          → length s.shared.pushed < limit
      below r mv lim = omega (arith, Move-length mv)
