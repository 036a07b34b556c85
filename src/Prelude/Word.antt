-- ===== src/Prelude/Word.antt =====
-- Machine integers as bit patterns: a value of w bits is a number below 2 ^ w, and a signed value
-- is read off its pattern (two's complement).
use Prim.Native.Nat.{ℕ, ◌+◌, ◌-◌, ◌/◌, ◌%◌, ◌^◌}
use mathlib.Core.Path.{◌≡◌}
use mathlib.Core.Bool.{Bool}
use native.Mathlib.Omega.{arith}
use sentinel_cpp.Prelude.Tests.{ltb, leb, if◌then◌else◌}

abbrev pub add64 : ℕ → ℕ → ℕ
add64 a b = (a + b) % 2 ^ 64

abbrev pub sub64 : ℕ → ℕ → ℕ
sub64 a b = (a + 2 ^ 64 - b % 2 ^ 64) % 2 ^ 64

abbrev pub inc32 : ℕ → ℕ
inc32 a = (a + 1) % 2 ^ 32

abbrev pub dec32 : ℕ → ℕ
dec32 a = (a + 2 ^ 32 - 1) % 2 ^ 32

-- `a < b` of two `int64_t`.
abbrev pub lt_int64 : ℕ → ℕ → Bool
lt_int64 a b = ltb ((a + 2 ^ 63) % 2 ^ 64) ((b + 2 ^ 63) % 2 ^ 64)

pub add64-mod : (a b : ℕ) → add64 (a % 2 ^ 64) b ≡ (a + b) % 2 ^ 64
add64-mod a b = omega arith

pub add64_mod : (a b : ℕ) → add64 (a % 2 ^ 64) (b % 2 ^ 64) ≡ (a + b) % 2 ^ 64
add64_mod a b = omega arith

-- `a <= 0` of an `int64_t`.
abbrev pub is_nonpos_int64 : ℕ → Bool
is_nonpos_int64 a = leb ((a + 2 ^ 63) % 2 ^ 64) (2 ^ 63)

-- `a / b` of two `int64_t` with b > 0, towards zero.
abbrev pub div_int64 : ℕ → ℕ → ℕ
div_int64 a b = if lt_int64 a 0 then (2 ^ 64 - (2 ^ 64 - a) / b) % 2 ^ 64 else a / b

-- `std::max(a, b)` of two `int64_t`.
abbrev pub max_int64 : ℕ → ℕ → ℕ
max_int64 a b = if lt_int64 a b then b else a

-- A value narrowed to an `int32_t`, as its 64-bit pattern.
abbrev pub sext32 : ℕ → ℕ
sext32 n = let low = n % 2 ^ 32 in if ltb low (2 ^ 31) then low else low + (2 ^ 64 - 2 ^ 32)

-- `a + b` of two `int32_t`, each as the 64-bit pattern of its value.
abbrev pub add_int : ℕ → ℕ → ℕ
add_int a b = sext32 (a + b)
