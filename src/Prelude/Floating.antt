-- ===== src/Prelude/Floating.antt =====
-- The operations of `double` that the code uses. The arithmetic of the machine is not part of the
-- repository: a carrier with these operations is a parameter of every definition that computes with
-- doubles. `x > y` is written `lt y x`, and `x >= y` is `le y x`, which agree with C++ on NaN too.
use Prim.Native.Nat.{ℕ, ◌+◌, ◌*◌, ◌/◌}
use mathlib.Core.Bool.{Bool}
use sentinel_cpp.Prelude.Tests.{ltb, leb, ◌==◌}

pub record Double (D : Type 0) : Type 0 where
  -- of the bit pattern of an `int64_t`; of an `int32_t` it is the pattern after sign extension
  pub of_int64 : ℕ → D
  pub of_uint32 : ℕ → D
  pub add : D → D → D
  pub mul : D → D → D
  pub div : D → D → D
  pub lt : D → D → Bool
  pub le : D → D → Bool
  pub eq : D → D → Bool
  -- `std::round`, converted to an `int64_t`
  pub round : D → ℕ
  -- the conversion to an `int`, as the pattern of its value
  pub to_int : D → ℕ

-- Thousandths, rounded down: a carrier on which the witnesses evaluate.
abbrev pub milli : Double ℕ
milli = record {
  of_int64 = λ n. n * 1000;
  of_uint32 = λ n. n * 1000;
  add = λ a b. a + b;
  mul = λ a b. a * b / 1000;
  div = λ a b. a * 1000 / b;
  lt = ltb;
  le = leb;
  eq = ◌==◌;
  round = λ a. (a + 500) / 1000;
  to_int = λ a. a / 1000;
}
