-- ===== src/Base/Words.antt =====
-- Machine words as native numbers. A value of Rust's `u32`, `u64` and of ethers' `U256` is a number
-- below its modulus; the saturating operations take the greatest value of the type.
use Prim.Native.Nat.{ℕ, ◌+◌, ◌-◌, ◌*◌, ◌≤◌, ◌^◌, min}
use mathlib.Core.Path.{◌≡◌}
use native.Mathlib.Nat.{mul-le-mul}
use native.Mathlib.Omega.{arith}

abbrev pub u32_max : ℕ
u32_max = 2 ^ 32 - 1

abbrev pub u64_max : ℕ
u64_max = 2 ^ 64 - 1

abbrev pub u256_max : ℕ
u256_max = 2 ^ 256 - 1

unfoldable pub saturating_add : ℕ → ℕ → ℕ → ℕ
saturating_add top a b = min (a + b) top

unfoldable pub saturating_mul : ℕ → ℕ → ℕ → ℕ
saturating_mul top a b = min (a * b) top

-- On ℕ subtraction stops at 0, as `saturating_sub` does.
abbrev pub saturating_sub : ℕ → ℕ → ℕ
saturating_sub a b = a - b

pub saturating_add_fits : (top a b : ℕ) → a + b ≤ top → saturating_add top a b ≡ a + b
unfolding saturating_add
saturating_add_fits top a b h = omega arith

pub saturating_mul_fits : (top a b : ℕ) → a * b ≤ top → saturating_mul top a b ≡ a * b
unfolding saturating_mul
saturating_mul_fits top a b h = omega arith

pub saturating_add-le : (top a b : ℕ) → saturating_add top a b ≤ top
unfolding saturating_add
saturating_add-le top a b = omega arith

pub saturating_mul-le : (top a b : ℕ) → saturating_mul top a b ≤ top
unfolding saturating_mul
saturating_mul-le top a b = omega arith

pub mul_mono : (a b c d : ℕ) → a ≤ c → b ≤ d → a * b ≤ c * d
mul_mono a b c d h k = mul-le-mul h k
