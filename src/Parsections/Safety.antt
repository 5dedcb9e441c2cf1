-- ===== src/Parsections/Safety.antt =====
-- What holds in every state of `parsections`.
use parallel_operations_tool.Prelude.{ℕ, ◌<◌, ◌≤◌, ◌≡◌, ◌≢◌, none, some, arith}
use parallel_operations_tool.Schedule.{count}
use parallel_operations_tool.Parsections.{
  Section, absent, submitted, running, ending, ended, threw_early, store_ready, find_early, refused,
  Main, submitting, awaiting, returned, threw, exception, System, Step, emplace, refuse, wait,
  invoke, finish, advance, rethrow, return, Reach, start, later,
}

module _ {E : Type 0} (n : ℕ) where
  -- The tasks that are there, and those that were awaited with no exception.
  abbrev pub emplaced : Main E → ℕ
  emplaced (submitting k) = k
  emplaced (awaiting k) = n
  emplaced returned = n
  emplaced (threw k e) = n
  emplaced (threw_early k) = n

  abbrev pub passed : Main E → ℕ
  passed (submitting k) = 0
  passed (awaiting k) = k
  passed returned = n
  passed (threw k e) = k
  passed (threw_early k) = k

  -- How often the function of a section was called.
  abbrev calls : Section E → ℕ
  calls absent = 0
  calls submitted = 0
  calls running = 1
  calls (ending o) = 1
  calls (ended o) = 1
  calls (refused e) = 0

  -- The function of the section has returned or thrown.
  abbrev pub IsDone : Section E → Type 0
  IsDone (ending o) = Unit
  IsDone (ended o) = Unit
  IsDone _ = ⊥

  pub record Inv (s : System E) : Type 0 where
    pub some_emplaced : emplaced s.main ≤ n
    pub some_passed : passed s.main ≤ emplaced s.main
    pub absent_rest : (i : ℕ) → emplaced s.main ≤ i → s.sections i ≡ absent
    pub present : (i : ℕ) → i < emplaced s.main → s.sections i ≢ absent
    pub no_exception : (i : ℕ) → i < passed s.main → s.sections i ≡ ended none
    pub first_exception :
        (k : ℕ) (e : E) → s.main ≡ threw k e → (k < n) × (exception (s.sections k) ≡ some e)
    pub early : (k : ℕ) → s.main ≡ threw_early k → (k < n) × IsDone (s.sections k)
    pub once : (i : ℕ) → count i s.invoked ≡ calls (s.sections i)

  Step-Inv : {s t : System E} → Inv s → Step n s t → Inv t
  Step-Inv inv (emplace k e l) = grind arith
  Step-Inv inv (refuse k x e l) = grind arith
  Step-Inv inv (wait e) = grind arith
  Step-Inv {s} inv (invoke i e) = record {
    some_emplaced = inv.some_emplaced;
    some_passed = inv.some_passed;
    absent_rest = grind arith;
    present = grind arith;
    no_exception = grind arith;
    first_exception = λ k x h. grind (arith, inv.first_exception k x h);
    early = λ k h. grind (arith, inv.early k h);
    once = grind arith;
  }
  Step-Inv {s} inv (finish i o e) = record {
    some_emplaced = inv.some_emplaced;
    some_passed = inv.some_passed;
    absent_rest = grind arith;
    present = grind arith;
    no_exception = grind arith;
    first_exception = λ k x h. grind (arith, inv.first_exception k x h);
    early = λ k h. grind (arith, inv.early k h);
    once = grind arith;
  }
  Step-Inv {s} inv (store_ready i o e) = record {
    some_emplaced = inv.some_emplaced;
    some_passed = inv.some_passed;
    absent_rest = grind arith;
    present = grind arith;
    no_exception = grind arith;
    first_exception = λ k x h. grind (arith, inv.first_exception k x h);
    early = λ k h. grind (arith, inv.early k h);
    once = grind arith;
  }
  Step-Inv inv (find_early k o e l h) = grind arith
  Step-Inv inv (advance k e l h) = grind arith
  Step-Inv inv (rethrow k x e l h) = grind arith
  Step-Inv inv (return e) = grind arith

  pub Reach-Inv : {k : ℕ} {s : System E} → Reach n k s → Inv s
  Reach-Inv start = grind arith
  Reach-Inv (later r step) = Step-Inv (Reach-Inv r) step
