-- ===== src/Log/Format.antt =====
-- Texts as lists of bytes, and what the code takes from absl/strings and absl/time to write and read
-- them.
use Prim.Native.Char.{code}
use Prim.Native.String.{String}
use sentinel_cpp.Prelude.{ℕ, ◌^◌, ◌<◌, ◌≡◌, ◌==◌, false, Option, some, List, [], ◌∷◌, ◌++◌, All}

abbrev pub Text : Type 0
Text = List ℕ

-- The bytes of an ASCII literal.
abbrev pub codes : String → Text
codes String.[] = []
codes (String.◌∷◌ c s) = code c ∷ codes s

-- `print_int` is "%d" of an `int64_t`, which is the pattern of its value; `format_time` is the local
-- time of a Unix time in milliseconds.
pub record Format : Type 0 where
  pub print_int : ℕ → Text
  pub simple_atoi : Text → Option ℕ
  pub str_split : ℕ → Text → List Text
  pub format_time : ℕ → Text

-- No byte is the delimiter.
abbrev pub IsPlain : ℕ → Text → Type 0
IsPlain d s = All (λ c. (c == d) ≡ false) s

-- A number that is printed is read back, `str_split` cuts at each delimiter, and neither a number
-- nor a time has a '|' in it.
pub record IsFormat (f : Format) : Type 0 where
  pub atoi_print : (n : ℕ) → n < 2 ^ 64 → f.simple_atoi (f.print_int n) ≡ some n
  pub print_plain : (n : ℕ) → n < 2 ^ 64 → IsPlain b'|' (f.print_int n)
  pub time_plain : (n : ℕ) → IsPlain b'|' (f.format_time n)
  pub split_last : (d : ℕ) (s : Text) → IsPlain d s → f.str_split d s ≡ s ∷ []
  pub split_first :
      (d : ℕ) (s rest : Text) → IsPlain d s → f.str_split d (s ++ d ∷ rest) ≡ s ∷ f.str_split d rest
