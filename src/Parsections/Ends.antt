-- ===== src/Parsections/Ends.antt =====
-- `parsections` comes to its end.
use parallel_operations_tool.Prelude.{ℕ, ◌+◌, sum_of}
use parallel_operations_tool.Parsections.{
  Section, absent, submitted, running, ending, ended, threw_early, refused, Main, submitting,
  awaiting, returned, threw, System,
}

module _ {E : Type 0} (n : ℕ) where
  -- A state in which `parsections` has come to its end.
  abbrev pub IsOver : Main E → Type 0
  IsOver (submitting k) = ⊥
  IsOver (awaiting k) = ⊥
  IsOver returned = Unit
  IsOver (threw k e) = Unit
  IsOver (threw_early k) = Unit

  -- How far a section is, and how far the coroutine is.
  abbrev rank : Section E → ℕ
  rank absent = 0
  rank submitted = 1
  rank running = 2
  rank (ending o) = 3
  rank (ended o) = 4
  rank (refused e) = 4

  abbrev main_rank : Main E → ℕ
  main_rank (submitting k) = 0
  main_rank (awaiting k) = k + 1
  main_rank returned = n + 2
  main_rank (threw k e) = k + 2
  main_rank (threw_early k) = k + 2

  abbrev progress : System E → ℕ
  progress s = sum_of rank n s.sections + main_rank s.main
