-- ===== src/Prelude/Int.antt =====
-- Signed integers over the native numbers, under the library's names, and Rust's casts between the
-- machine types: an `i32` or `i64` is the integer it stands for, a `u32` or `u64` a number.
use Prim.Native.Nat.{ℕ, ◌+◌, ◌-◌, ◌%◌, ◌^◌, ◌<◌}
use mathlib.Core.Path.{◌≡◌}
use mathlib.Core.Bool.{Bool, true, false}
use native.Mathlib.Omega.{arith}
use eventstore_tcp.Prelude.Tests.{ltb, ◌==◌, if◌then◌else◌}

-- `negsuc n` is -(n + 1).
pub data ℤ : Type 0 where
  pos : ℕ → ℤ
  negsuc : ℕ → ℤ

-- The ranges of the signed types.
abbrev pub IsI32 : ℤ → Type 0
IsI32 (pos n) = n < 2 ^ 31
IsI32 (negsuc n) = n < 2 ^ 31

abbrev pub IsI64 : ℤ → Type 0
IsI64 (pos n) = n < 2 ^ 63
IsI64 (negsuc n) = n < 2 ^ 63

-- `i < 0`
abbrev pub is_neg : ℤ → Bool
is_neg (pos n) = false
is_neg (negsuc n) = true

-- `i32 == i32`
abbrev pub int_eq : ℤ → ℤ → Bool
int_eq (pos a) (pos b) = a == b
int_eq (negsuc a) (negsuc b) = a == b
int_eq _ _ = false

-- The number of a non-negative integer; `x as u32` on one.
abbrev pub nat_of : ℤ → ℕ
nat_of (pos n) = n
nat_of (negsuc n) = 0

-- A `w`-bit pattern, `h` being half its range, read as a signed number.
abbrev signed : ℕ → ℕ → ℤ
signed h n = if ltb n h then pos n else negsuc (h + h - 1 - n)

-- `x as i32` for an unsigned `x`, `x as i64` for a `u64`.
unfoldable pub as_i32 : ℕ → ℤ
as_i32 n = signed (2 ^ 31) (n % 2 ^ 32)

unfoldable pub as_i64 : ℕ → ℤ
as_i64 n = signed (2 ^ 63) (n % 2 ^ 64)

-- `x as u64` for an `i32` or `i64`: the sign is extended.
unfoldable pub as_u64 : ℤ → ℕ
as_u64 (pos n) = n % 2 ^ 64
as_u64 (negsuc n) = 2 ^ 64 - 1 - n % 2 ^ 64

-- `x as u32` for an `i32`.
unfoldable pub as_u32 : ℤ → ℕ
as_u32 (pos n) = n % 2 ^ 32
as_u32 (negsuc n) = 2 ^ 32 - 1 - n % 2 ^ 32

pub as_i32_small : (n : ℕ) → n < 2 ^ 31 → as_i32 n ≡ pos n
unfolding as_i32
as_i32_small n h = ground arith

pub as_i64_small : (n : ℕ) → n < 2 ^ 63 → as_i64 n ≡ pos n
unfolding as_i64
as_i64_small n h = ground arith
