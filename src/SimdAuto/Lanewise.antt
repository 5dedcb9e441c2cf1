-- ===== src/SimdAuto/Lanewise.antt =====
-- The loops of include/pot/simd/simd_auto.h against their description lane by lane.
use parallel_operations_tool.Prelude.{
  ℕ, ◌≤◌, ◌<◌, ◌≡◌, ◌↔◌, Option, none, some, arith, ltb, if◌then◌else◌,
}
use parallel_operations_tool.SimdAuto.{Scalar, Simd, fill, std_max, std_min}
use parallel_operations_tool.SimdAuto.Arith
use parallel_operations_tool.SimdAuto.Maths.{Cmath}
use parallel_operations_tool.SimdAuto.Maths
use parallel_operations_tool.SimdAuto.Fill.{Lanes, fill_iff, fill-none_iff}

module _ {A : Type 0} (s : Scalar A) (n : ℕ) (garbage : Simd A) where
  -- An operator on two vectors is `f` on each pair of lanes.
  abbrev pub Lanewise : (A → A → Option A) → (Simd A → Simd A → Option (Simd A)) → Type 0
  Lanewise f op = (a b r : Simd A) → (op a b ≡ some r) ↔ Lanes (λ i. f (a i) (b i)) n garbage r

  -- Each of the ten operators on two vectors, and `max` and `min` with another vector, computes
  -- exactly the vector of the scalar operator's results: it gives a vector when and only when no
  -- lane is undefined, that vector's lanes are the scalar results, and the loop touches no lane
  -- from `scalar_count` on.
  pub operators-Lanewise :
      Lanewise s.add (Arith.add s n garbage)
      × Lanewise s.sub (Arith.sub s n garbage)
      × Lanewise s.mul (Arith.mul s n garbage)
      × Lanewise s.div (Arith.div s n garbage)
      × Lanewise s.modulo (Arith.modulo s n garbage)
      × Lanewise s.bit_and (Arith.bit_and s n garbage)
      × Lanewise s.bit_or (Arith.bit_or s n garbage)
      × Lanewise s.bit_xor (Arith.bit_xor s n garbage)
      × Lanewise (λ a b. some (std_max s a b)) (Arith.max_with s n garbage)
      × Lanewise (λ a b. some (std_min s a b)) (Arith.min_with s n garbage)
  unfolding Arith.add Arith.sub Arith.mul Arith.div Arith.modulo Arith.bit_and Arith.bit_or
      Arith.bit_xor Arith.max_with Arith.min_with
  operators-Lanewise = (
    λ a b. fill_iff _ n garbage,
    λ a b. fill_iff _ n garbage,
    λ a b. fill_iff _ n garbage,
    λ a b. fill_iff _ n garbage,
    λ a b. fill_iff _ n garbage,
    λ a b. fill_iff _ n garbage,
    λ a b. fill_iff _ n garbage,
    λ a b. fill_iff _ n garbage,
    λ a b. fill_iff _ n garbage,
    λ a b. fill_iff _ n garbage,
  )

  -- An operator on one vector is `f` on each lane.
  abbrev pub LanewiseUnary : (A → Option A) → (Simd A → Option (Simd A)) → Type 0
  LanewiseUnary f op = (a r : Simd A) → (op a ≡ some r) ↔ Lanes (λ i. f (a i)) n garbage r

  -- `abs` and `sqr` compute the vector of the scalar results, and the shifts shift every lane by
  -- their one scalar: they give a vector when and only when no lane is undefined.
  pub unary-Lanewise :
      LanewiseUnary s.abs (Arith.abs s n garbage)
      × LanewiseUnary (λ x. s.mul x x) (Arith.sqr s n garbage)
      × ((k : A) → LanewiseUnary (λ x. s.shift_left x k) (λ a. Arith.shift_left s n garbage a k))
      × ((k : A) → LanewiseUnary (λ x. s.shift_right x k) (λ a. Arith.shift_right s n garbage a k))
  unfolding Arith.abs Arith.sqr Arith.shift_left Arith.shift_right
  unary-Lanewise = (
    λ a. fill_iff _ n garbage,
    λ a. fill_iff _ n garbage,
    λ k a. fill_iff _ n garbage,
    λ k a. fill_iff _ n garbage,
  )

  -- An operator fails exactly when the scalar operator is undefined in one of the lanes.
  abbrev FailsByLane : (A → A → Option A) → (Simd A → Simd A → Option (Simd A)) → Type 0
  FailsByLane f op = (a b : Simd A) → (op a b ≡ none) ↔ ((j : ℕ) × (j < n) × (f (a j) (b j) ≡ none))

  -- Each of the operators `+ - * / %` is undefined, on two vectors, exactly when the scalar
  -- operator is undefined in one of the first `scalar_count` lanes, as a division by zero is.
  pub operators_undefined :
      FailsByLane s.add (Arith.add s n garbage)
      × FailsByLane s.sub (Arith.sub s n garbage)
      × FailsByLane s.mul (Arith.mul s n garbage)
      × FailsByLane s.div (Arith.div s n garbage)
      × FailsByLane s.modulo (Arith.modulo s n garbage)
  unfolding Arith.add Arith.sub Arith.mul Arith.div Arith.modulo
  operators_undefined = (
    λ a b. fill-none_iff _ n garbage,
    λ a b. fill-none_iff _ n garbage,
    λ a b. fill-none_iff _ n garbage,
    λ a b. fill-none_iff _ n garbage,
    λ a b. fill-none_iff _ n garbage,
  )

module _ {A : Type 0} (std : Cmath A) (n : ℕ) (garbage : Simd A) where
  -- The function `f` on each lane, which is always defined.
  abbrev MapsLanes : (A → A) → (Simd A → Option (Simd A)) → Type 0
  MapsLanes f op =
      (a : Simd A)
      → (r : Simd A) × (op a ≡ some r)
        × ((j : ℕ) → j < n → r j ≡ f (a j))
        × ((j : ℕ) → n ≤ j → r j ≡ garbage j)

  maps_lanes : (f : A → A) → MapsLanes f (λ a. fill (λ i. some (f (a i))) 0 n garbage)
  maps_lanes f a =
      let r = (λ (j : ℕ). if ltb j n then f (a j) else garbage j) in
      (
        r,
        (fill_iff (λ i. some (f (a i))) n garbage r).1 (λ j. (λ l. inside j l, λ g. outside j g)),
        λ j l. ground arith,
        λ j g. ground arith,
      )
    where
      inside : (j : ℕ) → j < n → some (f (a j)) ≡ some (if ltb j n then f (a j) else garbage j)
      inside j l = ground arith

      outside : (j : ℕ) → n ≤ j → (if ltb j n then f (a j) else garbage j) ≡ garbage j
      outside j g = ground arith

  -- Each function of `<cmath>` on a vector is the function of that name on each of the first
  -- `scalar_count` lanes, and is always defined.
  pub cmath_lanes :
      MapsLanes std.sqrt (Maths.sqrt std n garbage)
      × MapsLanes std.exp (Maths.exp std n garbage)
      × MapsLanes std.log (Maths.log std n garbage)
      × MapsLanes std.log2 (Maths.log2 std n garbage)
      × MapsLanes std.log10 (Maths.log10 std n garbage)
      × MapsLanes std.sin (Maths.sin std n garbage)
      × MapsLanes std.cos (Maths.cos std n garbage)
      × MapsLanes std.tan (Maths.tan std n garbage)
      × MapsLanes std.asin (Maths.asin std n garbage)
      × MapsLanes std.acos (Maths.acos std n garbage)
      × MapsLanes std.atan (Maths.atan std n garbage)
      × MapsLanes std.sinh (Maths.sinh std n garbage)
      × MapsLanes std.cosh (Maths.cosh std n garbage)
      × MapsLanes std.tanh (Maths.tanh std n garbage)
      × MapsLanes std.asinh (Maths.asinh std n garbage)
      × MapsLanes std.acosh (Maths.acosh std n garbage)
      × MapsLanes std.atanh (Maths.atanh std n garbage)
      × MapsLanes std.ceil (Maths.ceil std n garbage)
      × MapsLanes std.floor (Maths.floor std n garbage)
      × MapsLanes std.trunc (Maths.trunc std n garbage)
      × MapsLanes std.round (Maths.round std n garbage)
  unfolding Maths.sqrt Maths.exp Maths.log Maths.log2 Maths.log10 Maths.sin Maths.cos Maths.tan
      Maths.asin Maths.acos Maths.atan Maths.sinh Maths.cosh Maths.tanh Maths.asinh Maths.acosh
      Maths.atanh Maths.ceil Maths.floor Maths.trunc Maths.round
  cmath_lanes = (
    maps_lanes std.sqrt,
    maps_lanes std.exp,
    maps_lanes std.log,
    maps_lanes std.log2,
    maps_lanes std.log10,
    maps_lanes std.sin,
    maps_lanes std.cos,
    maps_lanes std.tan,
    maps_lanes std.asin,
    maps_lanes std.acos,
    maps_lanes std.atan,
    maps_lanes std.sinh,
    maps_lanes std.cosh,
    maps_lanes std.tanh,
    maps_lanes std.asinh,
    maps_lanes std.acosh,
    maps_lanes std.atanh,
    maps_lanes std.ceil,
    maps_lanes std.floor,
    maps_lanes std.trunc,
    maps_lanes std.round,
  )
