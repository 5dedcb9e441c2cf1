-- ===== src/ThisThread.antt =====
-- include/pot/utils/this_thread.h and src/utils/this_thread.cpp: the scheduling parameters of a thread
-- on Linux. The calls of the operating system are a parameter.
pub mod Laws
mod Tests
use parallel_operations_tool.Prelude.{ℕ, ◌==◌, ltb, ◌||◌, if◌then◌else◌, Bool, true, false}

-- `int`: `pos n` is n, and `negsuc n` is -(n + 1).
pub data ℤ : Type 0 where
  pos negsuc : (n : ℕ) → ℤ

abbrev pub ltb_ℤ : ℤ → ℤ → Bool
ltb_ℤ (pos m) (pos n) = ltb m n
ltb_ℤ (pos m) (negsuc n) = false
ltb_ℤ (negsuc m) (pos n) = true
ltb_ℤ (negsuc m) (negsuc n) = ltb n m

abbrev pub eq_ℤ : ℤ → ℤ → Bool
eq_ℤ (pos m) (pos n) = m == n
eq_ℤ (negsuc m) (negsuc n) = m == n
eq_ℤ _ _ = false

abbrev pub minus_one : ℤ
minus_one = negsuc 0

-- `std::clamp`
abbrev pub clamp : ℤ → ℤ → ℤ → ℤ
clamp v lo hi = if ltb_ℤ v lo then lo else if ltb_ℤ hi v then hi else v

-- The calls that the code makes, over the state `S` of the operating system, in which the parameters
-- of the thread and `errno` are. `setschedparam` and `getschedparam` return an error code.
pub record Os (S : Type 0) : Type 0 where
  pub sched_other : ℤ
  pub sched_fifo : ℤ
  pub sched_rr : ℤ
  pub einval : ℤ
  pub priority_min : ℤ → S → ℤ × S
  pub priority_max : ℤ → S → ℤ × S
  pub setschedparam : ℤ → ℤ → S → ℤ × S
  pub getschedparam : S → (ℤ × ℤ) × ℤ
  pub set_errno : ℤ → S → S

module _ {S : Type 0} (os : Os S) where
  abbrev pub is_policy : ℤ → Bool
  is_policy policy =
      eq_ℤ policy os.sched_other || (eq_ℤ policy os.sched_fifo || eq_ℤ policy os.sched_rr)

  unfoldable pub set_params : ℤ → ℤ → S → Bool × S
  set_params policy priority s =
      let (pmin, s1) = os.priority_min policy s in
      let (pmax, s2) = os.priority_max policy s1 in
      let (err, s3) = os.setschedparam policy (clamp priority pmin pmax) s2 in
      if is_policy policy
      then if eq_ℤ pmin minus_one
        then (false, s1)
        else if eq_ℤ pmax minus_one
        then (false, s2)
        else if eq_ℤ err (pos 0)
        then (true, s3)
        else (false, os.set_errno err s3)
      else (false, os.set_errno os.einval s)

  unfoldable pub get_params : S → (ℤ × ℤ) × S
  get_params s =
      let (params, err) = os.getschedparam s in
      if eq_ℤ err (pos 0) then (params, s) else ((minus_one, minus_one), os.set_errno err s)
