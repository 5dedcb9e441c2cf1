-- ===== src/SimdForced/Tests.antt =====
-- SSE registers of four numbers.
use parallel_operations_tool.Prelude.{ℕ, ◌≡◌, refl, ltb, arith, zero, suc}
use parallel_operations_tool.SimdAuto.Folds.{Ordered}
use parallel_operations_tool.SimdForced.{Ps, max_scalar_ps, min_scalar_ps}
use parallel_operations_tool.SimdForced.Extrema.{PsLanes, Extreme, ps-Extreme, greater, lesser}

abbrev select : ℕ → ℕ → ℕ → ℕ → ℕ → ℕ
select a b c d zero = a
select a b c d (suc zero) = b
select a b c d (suc (suc zero)) = c
select a b c d (suc (suc (suc k))) = d

abbrev lanes : Ps (ℕ → ℕ) ℕ
lanes = record {
  shuffle_ps = λ a b z y x w. select (a w) (a x) (b y) (b z);
  max_ps = λ a b k. greater ltb (a k) (b k);
  min_ps = λ a b k. lesser ltb (a k) (b k);
  cvtss_f32 = λ a. a 0;
}

lanes-PsLanes : PsLanes (λ v. v) ltb lanes
lanes-PsLanes = record {
  shuffle0 = λ a z y x w. refl;
  shuffle1 = λ a z y x w. refl;
  shuffle2 = λ a z y x w. refl;
  shuffle3 = λ a z y x w. refl;
  max_lanes = λ a b k l. refl;
  min_lanes = λ a b k l. refl;
  first_lane = λ a. refl;
}

ltb-Ordered : Ordered ltb
ltb-Ordered = record { asymmetric = λ a b h. ground arith; chained = λ a b c h k. ground arith }

ps-Extreme_example :
    Extreme ltb (max_scalar_ps lanes (select 3 9 4 1)) 3 9 4 1
    × Extreme (λ x y. ltb y x) (min_scalar_ps lanes (select 3 9 4 1)) 3 9 4 1
ps-Extreme_example = ps-Extreme (λ v. v) ltb lanes lanes-PsLanes ltb-Ordered (select 3 9 4 1)

max_scalar_test : max_scalar_ps lanes (select 3 9 4 1) ≡ 9
unfolding max_scalar_ps
max_scalar_test = refl
