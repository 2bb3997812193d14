-- ===== src/Base/Div.antt =====
-- Division by a variable: what `omega` does not read.
use Prim.Native.Nat.{ℕ, ◌+◌, ◌*◌, ◌/◌, ◌%◌, ◌≤◌, ◌<◌}
use mathlib.Core.Path.{◌≡◌}
use native.Mathlib.Nat.{le-div_iff_mul-le, div-lt_iff_lt-mul, mul-le-mul_left, div-add-mod, mod-lt}
pub use native.Mathlib.Nat.{mul_comm}
use native.Mathlib.Omega.{arith}

pub le-div : (x y k : ℕ) → 0 < k → x * k ≤ y → x ≤ y / k
le-div x y k h = (le-div_iff_mul-le h).1

pub div-lt : (x y k : ℕ) → 0 < k → x < y * k → x / k < y
div-lt x y k h = (div-lt_iff_lt-mul h).1

pub mul_mono : (k m n : ℕ) → m ≤ n → k * m ≤ k * n
mul_mono k m n = mul-le-mul_left k

-- A number is its quotient, times the divisor, and a remainder below the divisor.
pub quotient : (n k : ℕ) → 0 < k → (r : ℕ) × (n ≡ k * (n / k) + r) × (r < k)
quotient n k h = (n % k, omega (arith, div-add-mod n k), mod-lt n h)
