-- ===== src/Log/Stream.antt =====
-- `std::ifstream` as the searcher of metric files reads numbers from it: the text that is left, of a
-- file of `size` bytes, and the two flags. Numbers are patterns of an `int64_t`.
pub mod Laws
pub mod Length
use sentinel_cpp.Prelude.{
  ℕ, zero, suc, ◌+◌, ◌-◌, ◌*◌, ◌%◌, ◌^◌, ◌==◌, ltb, leb, if◌then◌else◌, Bool, true, false, not,
  ◌&&◌, ◌||◌, List, [], ◌∷◌, length,
}
use sentinel_cpp.Log.Format.{Text}

pub record Istream : Type 0 where
  pub size : ℕ
  pub rest : Text
  pub eof : Bool
  pub fail : Bool

abbrev pub drop : ℕ → Text → Text
drop zero s = s
drop (suc n) [] = []
drop (suc n) (c ∷ s) = drop n s

-- The opened file after `seekg`, which fails for a negative offset.
abbrev pub open_at : Text → ℕ → Istream
open_at content offset = record {
  size = length content;
  rest = drop offset content;
  eof = false;
  fail = leb (2 ^ 63) offset;
}

abbrev pub is_good : Istream → Bool
is_good st = if st.eof then false else if st.fail then false else true

-- The place of a stream, -1 where it is not good.
abbrev pub tellg : Istream → ℕ
tellg st = if is_good st then st.size - length st.rest else 2 ^ 64 - 1

abbrev pub is_space : ℕ → Bool
is_space c = (c == b' ') || (leb 9 c && leb c 13)

abbrev pub is_digit : ℕ → Bool
is_digit c = leb b'0' c && leb c b'9'

pub skip : Text → Text
skip [] = []
skip (c ∷ s) = let rest = skip s in if is_space c then rest else c ∷ s

-- The value of the digits in front, after `v`, and what follows them.
pub scan : ℕ → Text → ℕ × Text
scan v [] = (v, [])
scan v (c ∷ s) = let rest = scan (v * 10 + (c - b'0')) s in if is_digit c then rest else (v, c ∷ s)

abbrev pub is_nil : Text → Bool
is_nil [] = true
is_nil (c ∷ s) = false

abbrev pub starts_number : Text → Bool
starts_number [] = false
starts_number (c ∷ s) = is_digit c

-- A value cut to the range, and whether it was in it.
pub bounded : Bool → ℕ → ℕ × Bool
bounded false v = if ltb v (2 ^ 63) then (v, true) else (2 ^ 63 - 1, false)
bounded true v = if leb v (2 ^ 63) then ((2 ^ 64 - v) % 2 ^ 64, true) else (2 ^ 63, false)

-- The number with the digits in front of a text, in a stream of that size. Without a digit it is 0.
pub number : Bool → Text → ℕ → ℕ × Istream
unfolding scan bounded
number negative s size =
    if starts_number s
    then (let (v, rest) = scan 0 s in
        let (x, fits) = bounded negative v in
        (x, record { size = size; rest = rest; eof = is_nil rest; fail = not fits }))
    else (0, record { size = size; rest = s; eof = is_nil s; fail = true })

-- What follows the white space.
pub signed : ℕ → Text → ℕ → ℕ × Istream
unfolding number
signed old [] size = (old, record { size = size; rest = []; eof = true; fail = true })
signed old (c ∷ s) size =
    if c == b'-'
    then number true s size
    else if c == b'+'
    then number false s size
    else number false (c ∷ s) size

-- `in >> x`: the value of `x`, which was `old`, and the stream.
unfoldable pub extract : ℕ → Istream → ℕ × Istream
unfolding skip signed
extract old st =
    if is_good st then signed old (skip st.rest) st.size else (old, record st { fail = true })

abbrev pub before : ℕ → List Text → List Text
before c [] = (c ∷ []) ∷ []
before c (line ∷ lines) = (c ∷ line) ∷ lines

-- The lines that `getline` gives: after the last line break there is none.
unfoldable pub lines_of_text : Text → List Text
lines_of_text [] = []
lines_of_text (c ∷ s) =
    let lines = lines_of_text s in if c == b'\n' then [] ∷ lines else before c lines
