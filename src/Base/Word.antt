-- ===== src/Base/Word.antt =====
-- Machine words: a value is a number, and each conversion or wrapping operation is written out.
use Prim.Native.Nat.{ℕ, ◌+◌, ◌-◌, ◌*◌, ◌/◌, ◌%◌, ◌^◌, ◌≤◌, ◌<◌}
use mathlib.Core.Bool.{Bool}
use mathlib.Core.Path.{◌≡◌}
use native.Mathlib.Omega.{arith}
use lunarkernel_sched_extent.Base.Booleans.{ltb, leb, if◌then◌else◌}
use lunarkernel_sched_extent.Base.Int.{ℤ, pos, negsuc}

-- The conversions (u8), (u16), (u32) and (u64).
abbrev pub u8 : ℕ → ℕ
u8 x = x % 2 ^ 8

abbrev pub u16 : ℕ → ℕ
u16 x = x % 2 ^ 16

abbrev pub u32 : ℕ → ℕ
u32 x = x % 2 ^ 32

abbrev pub u64 : ℕ → ℕ
u64 x = x % 2 ^ 64

-- a + b, a - b and a * b on `u64`; a + b on `u32`.
abbrev pub add64 : ℕ → ℕ → ℕ
add64 a b = (a + b) % 2 ^ 64

abbrev pub sub64 : ℕ → ℕ → ℕ
sub64 a b = (a + 2 ^ 64 - b) % 2 ^ 64

abbrev pub mul64 : ℕ → ℕ → ℕ
mul64 a b = (a * b) % 2 ^ 64

abbrev pub mul32 : ℕ → ℕ → ℕ
mul32 a b = (a * b) % 2 ^ 32

abbrev pub add32 : ℕ → ℕ → ℕ
add32 a b = (a + b) % 2 ^ 32

abbrev pub sub32 : ℕ → ℕ → ℕ
sub32 a b = (a + 2 ^ 32 - b) % 2 ^ 32

-- The conversion of a word to `int`: the low 32 bits, read as two's complement.
abbrev pub to_int : ℕ → ℤ
to_int x = if ltb (x % 2 ^ 32) (2 ^ 31) then pos (x % 2 ^ 32) else negsuc (2 ^ 32 - x % 2 ^ 32 - 1)

-- The conversion of an `int` to `u64` (with sign extension), `u32`, `u16` and `u8`.
abbrev pub int_to_u64 : ℤ → ℕ
int_to_u64 (pos n) = n % 2 ^ 64
int_to_u64 (negsuc n) = 2 ^ 64 - 1 - n % 2 ^ 64

abbrev pub int_to_u32 : ℤ → ℕ
int_to_u32 i = int_to_u64 i % 2 ^ 32

abbrev pub int_to_u16 : ℤ → ℕ
int_to_u16 i = int_to_u64 i % 2 ^ 16

abbrev pub int_to_u8 : ℤ → ℕ
int_to_u8 i = int_to_u64 i % 2 ^ 8

-- Whether a `u64`, read as `s64`, is negative.
abbrev pub is_neg64 : ℕ → Bool
is_neg64 x = leb (2 ^ 63) x

-- x >> SCHED_CAPACITY_SHIFT and x << SCHED_CAPACITY_SHIFT on `u64`.
abbrev pub shr10 : ℕ → ℕ
shr10 x = x / 1024

abbrev pub shl10 : ℕ → ℕ
shl10 x = (x * 1024) % 2 ^ 64

pub sub64_of_le : (a b : ℕ) → b ≤ a → a < 2 ^ 64 → sub64 a b ≡ a - b
sub64_of_le a b h k = omega arith
