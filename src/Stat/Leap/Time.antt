-- ===== src/Stat/Leap/Time.antt =====
-- The arithmetic of windows: the number of a window, and the order of their starts.
use native.Mathlib.Nat.{div-add-mod, mod-lt}
use sentinel_cpp.Prelude.{ℕ, ◌+◌, ◌-◌, ◌*◌, ◌/◌, ◌%◌, ◌≤◌, ◌<◌, ◌≡◌, arith}

pub sub-mod : (t d : ℕ) → t - t % d ≡ d * (t / d)
sub-mod t d = omega (arith, div-add-mod t d)

pub mul_le : (d a b : ℕ) → a ≤ b → d * a ≤ d * b
mul_le d a b h = grind arith

pub mul_lt : (d a b : ℕ) → 0 < d → a < b → d * a < d * b
mul_lt d a b p h = grind arith

pub lt_of_mul : (d a b : ℕ) → d * a < d * b → a < b
lt_of_mul d a b h = grind arith

pub mul_eq : (d a b : ℕ) → 0 < d → d * a ≡ d * b → a ≡ b
mul_eq d a b p h = grind (arith, mul_lt d a b, mul_lt d b a)

pub div_mono : (d a b : ℕ) → 0 < d → a ≤ b → a / d ≤ b / d
div_mono d a b p h = grind (arith, div-add-mod a d, div-add-mod b d, mod-lt a p, mod-lt b p)

pub mul-div_le : (d t : ℕ) → d * (t / d) ≤ t
mul-div_le d t = omega (arith, div-add-mod t d)

pub lt_mul-suc-div : (d t : ℕ) → 0 < d → t < d * (t / d) + d
lt_mul-suc-div d t p = omega (arith, div-add-mod t d, mod-lt t p)

-- Two windows of one slot are at least `n` windows apart.
pub same_slot : (n a b : ℕ) → 0 < n → a % n ≡ b % n → a < b → a + n ≤ b
same_slot n a b p e h = grind (arith, div-add-mod a n, div-add-mod b n)

-- A window that starts by `t` is not after the window of `t`.
pub window_after : (d t k : ℕ) → 0 < d → d * k ≤ t → k ≤ t / d
window_after d t k p h = grind (arith, lt_mul-suc-div d t p)
