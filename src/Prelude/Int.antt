-- ===== src/Prelude/Int.antt =====
-- int64 values as integers.
use Prim.Native.Nat.{ℕ, ◌-◌, ◌%◌, ◌^◌, ◌<◌}
use mathlib.Core.Path.{◌≡◌}
use mathlib.Core.Logic.{inl, inr}
use multi_log.Prelude.Tests.{ltb, if◌then◌else◌, Bool-cases}
use native.Mathlib.Omega.{arith}

-- `negsuc n` is -(n + 1).
pub data ℤ : Type 0 where
  pos : ℕ → ℤ
  negsuc : ℕ → ℤ

abbrev pub IsI64 : ℤ → Type 0
IsI64 (pos n) = n < 2 ^ 63
IsI64 (negsuc n) = n < 2 ^ 63

-- `uint64(n)` of an int64: two's complement.
abbrev pub to_u64 : ℤ → ℕ
to_u64 (pos n) = n % 2 ^ 64
to_u64 (negsuc n) = 2 ^ 64 - 1 - n % 2 ^ 64

pub to_u64-IsU64 : (z : ℤ) → to_u64 z < 2 ^ 64
to_u64-IsU64 (pos n) = omega arith
to_u64-IsU64 (negsuc n) = omega arith

pub to_u64-injective : (a b : ℤ) → IsI64 a → IsI64 b → to_u64 a ≡ to_u64 b → a ≡ b
to_u64-injective (pos n) (pos m) ha hb e = ground arith
to_u64-injective (pos n) (negsuc m) ha hb e = absurd (omega arith)
to_u64-injective (negsuc n) (pos m) ha hb e = absurd (omega arith)
to_u64-injective (negsuc n) (negsuc m) ha hb e = ground arith

-- `int64(n)` of a uint64.
abbrev pub of_u64 : ℕ → ℤ
of_u64 n = if ltb n (2 ^ 63) then pos n else negsuc (2 ^ 64 - 1 - n)

pub of_u64-IsI64 : (n : ℕ) → n < 2 ^ 64 → IsI64 (of_u64 n)
of_u64-IsI64 n h = elim (Bool-cases (ltb n (2 ^ 63))) [
  | inl small ↦ rw small (ground arith)
  | inr large ↦ rw large (ground arith)
]
