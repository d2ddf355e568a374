-- ===== src/Common/Words.antt =====
-- `usize` and `u64` arithmetic on a 64-bit target: the two widths agree.
use Prim.Native.Nat.{ℕ, ◌+◌, ◌-◌, ◌*◌, ◌%◌, ◌≤◌, min}
use mathlib.Core.Path.{◌≡◌}
use native.Mathlib.Omega.{arith}

-- `u64::MAX` and `usize::MAX`
abbrev pub u64_max : ℕ
u64_max = 18446744073709551615

-- `wrapping_add`, and the arithmetic of the atomics
abbrev pub wrap : ℕ → ℕ
wrap n = n % 18446744073709551616

-- `saturating_add` and `saturating_mul`; `saturating_sub` is the subtraction of ℕ
abbrev pub sat_add : ℕ → ℕ → ℕ
sat_add a b = min (a + b) u64_max

abbrev pub sat_mul : ℕ → ℕ → ℕ
sat_mul a b = min (a * b) u64_max

-- `a.wrapping_sub(b)` of words
abbrev pub wrap_sub : ℕ → ℕ → ℕ
wrap_sub a b = (a + 18446744073709551616 - b) % 18446744073709551616

pub wrap_small : (n : ℕ) → n ≤ u64_max → wrap n ≡ n
wrap_small n h = omega arith
