-- ===== src/Param/Value.antt =====
-- sentinel-core/param/statistic/any_cmp.h and any_cmp.cc: the values that `absl::any` holds, as far as
-- the code tells them apart. A number is the pattern of its value.
use sentinel_cpp.Prelude.{ℕ, ◌==◌, Bool, true, false, String, str_eq}

pub data AnyValue : Type 0 where
  no_value : AnyValue
  int32_value : ℕ → AnyValue
  int64_value : ℕ → AnyValue
  string_value : String → AnyValue
  other_value : AnyValue

-- operator== of `absl::any`: a value of another type equals nothing, itself included.
abbrev pub any_eq : AnyValue → AnyValue → Bool
any_eq (int32_value a) (int32_value b) = a == b
any_eq (int64_value a) (int64_value b) = a == b
any_eq (string_value a) (string_value b) = str_eq a b
any_eq _ _ = false

abbrev pub has_value : AnyValue → Bool
has_value no_value = false
has_value _ = true
