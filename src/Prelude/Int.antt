-- ===== src/Prelude/Int.antt =====
-- Go's signed integers: ℤ over the native numbers, and the conversions that wrap around.
use Prim.Native.Nat.{ℕ, ◌+◌, ◌-◌, ◌%◌, ◌<◌, ◌≤◌}
use mathlib.Core.Path.{◌≡◌}
use native.Mathlib.Omega.{arith}
use e5renew.Prelude.Tests.{ltb, if◌then◌else◌}

-- `negsuc n` is -(n + 1).
pub data ℤ : Type 0 where
  pos : ℕ → ℤ
  negsuc : ℕ → ℤ

-- -n
abbrev pub neg : ℕ → ℤ
neg n = if ltb 0 n then negsuc (n - 1) else pos 0

-- The value of w bits that hold `m`, read as two's complement, for half = 2 ^ (w - 1).
abbrev signed : ℕ → ℕ → ℤ
signed half m = if ltb m half then pos m else negsuc (half + half - 1 - m)

-- `int32(z)` and `int64(z)`: the low bits, with Go's wrap-around.
abbrev low_bits : ℕ → ℤ → ℕ
low_bits modulus (pos n) = n % modulus
low_bits modulus (negsuc n) = modulus - 1 - n % modulus

unfoldable pub to_int32 : ℤ → ℤ
to_int32 z = signed 0x8000_0000 (low_bits 0x1_0000_0000 z)

unfoldable pub to_int64 : ℤ → ℤ
to_int64 z = signed 0x8000_0000_0000_0000 (low_bits 0x1_0000_0000_0000_0000 z)

pub to_int32_pos : (n : ℕ) → n < 0x8000_0000 → to_int32 (pos n) ≡ pos n
unfolding to_int32
to_int32_pos n h = ground arith

pub to_int64_pos : (n : ℕ) → n < 0x8000_0000_0000_0000 → to_int64 (pos n) ≡ pos n
unfolding to_int64
to_int64_pos n h = ground arith

pub to_int64-neg : (n : ℕ) → n ≤ 0x8000_0000_0000_0000 → to_int64 (neg n) ≡ neg n
unfolding to_int64
to_int64-neg n h = ground arith
