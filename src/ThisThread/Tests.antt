-- ===== src/ThisThread/Tests.antt =====
-- A system with priorities from 1 to 99, or only 0 for the first policy.
use parallel_operations_tool.Prelude.{arith, ◌≡◌, ◌⊎◌, true, false, if◌then◌else◌, refl}
use parallel_operations_tool.ThisThread.{ℤ, pos, negsuc, eq_ℤ, Os, set_params, get_params}
use parallel_operations_tool.ThisThread.Laws.{Documented, set_params-get_params}

-- The parameters and `errno`. A priority of 99 is refused.
abbrev State : Type 0
State = (ℤ × ℤ) × ℤ

abbrev sample : Os State
sample = record {
  sched_other = pos 0;
  sched_fifo = pos 1;
  sched_rr = pos 2;
  einval = pos 22;
  priority_min = λ policy s. (if eq_ℤ policy (pos 0) then pos 0 else pos 1, s);
  priority_max = λ policy s. (if eq_ℤ policy (pos 0) then pos 0 else pos 99, s);
  setschedparam = λ policy priority s.
      if eq_ℤ priority (pos 99) then (pos 1, s) else (pos 0, ((policy, priority), s.1));
  getschedparam = λ s. (s.0, pos 0);
  set_errno = λ e s. (s.0, e);
}

sample-Documented : Documented sample
sample-Documented = record {
  params = λ s. s.0;
  priority_min_keeps = λ policy s. refl;
  priority_max_keeps = λ policy s. refl;
  errno_keeps = λ e s. refl;
  sets = λ policy priority s h. ground arith;
  fails = λ policy priority s h. ground arith;
  gets = λ s. refl;
}

abbrev before : State
before = ((pos 0, pos 0), pos 0)

set_params-get_params_example :
    (((set_params sample (pos 1) (negsuc 4) before).0 ≡ true)
      × ((get_params sample (set_params sample (pos 1) (negsuc 4) before).1).0 ≡ (pos 1, pos 1)))
    ⊎ (((set_params sample (pos 1) (negsuc 4) before).0 ≡ false)
        × ((get_params sample (set_params sample (pos 1) (negsuc 4) before).1).0
            ≡ (get_params sample before).0))
set_params-get_params_example =
    set_params-get_params sample sample-Documented (pos 1) (negsuc 4) before

cut_low : set_params sample (pos 1) (negsuc 4) before ≡ (true, ((pos 1, pos 1), pos 0))
unfolding set_params
cut_low = refl

no_policy : set_params sample (pos 7) (pos 5) before ≡ (false, ((pos 0, pos 0), pos 22))
unfolding set_params
no_policy = refl

refused : set_params sample (pos 2) (pos 120) before ≡ (false, ((pos 0, pos 0), pos 1))
unfolding set_params
refused = refl
