-- ===== src/Prelude/Words.antt =====
-- `size_t` and `intptr_t` of a 64-bit platform.
use Prim.Native.Nat.{ℕ, ◌+◌, ◌-◌, ◌*◌, ◌%◌, ◌^◌, ◌<◌}
use mathlib.Core.Path.{◌≡◌}
use native.Mathlib.Omega.{arith}
use parallel_operations_tool.Prelude.Tests.{◌==◌, ltb, if◌then◌else◌}

-- `size_t` addition wraps.
abbrev pub add_size : ℕ → ℕ → ℕ
add_size a b = (a + b) % 2 ^ 64

-- `size_t` multiplication wraps.
abbrev pub mul_size : ℕ → ℕ → ℕ
mul_size a b = a * b % 2 ^ 64

-- The sign of a signed difference.
pub data Sign : Type 0 where
  negative equal positive : Sign

-- The sign of `(intptr_t)a - (intptr_t)b`. The subtraction is the machine's, in two's complement:
-- a pattern from 2 ^ 63 on is a negative number.
abbrev pub sign_of : ℕ → Sign
sign_of d = if d == 0 then equal else if ltb d (2 ^ 63) then positive else negative

abbrev pub dif : ℕ → ℕ → Sign
dif a b = sign_of ((a + 2 ^ 64 - b) % 2 ^ 64)

-- Below 2 ^ 63 the sign is that of the exact difference.
pub dif_exact :
    (a b : ℕ)
    → a < 2 ^ 63
    → b < 2 ^ 63
    → (dif a b ≡ equal → a ≡ b) × (dif a b ≡ negative → a < b) × (dif a b ≡ positive → b < a)
dif_exact a b ha hb = (λ e. ground arith, λ e. ground arith, λ e. ground arith)
