-- ===== src/Log/Tests.antt =====
-- Reading decimal numbers, and an item of a resource whose name has a bar in it.
use mathlib.Core.Path.{subst}
use sentinel_cpp.Prelude.{
  ℕ, true, All, length, sym, ◌+◌, ◌-◌, ◌^◌, ◌<◌, ◌==◌, ltb, ◌≡◌, refl, ◌∙◌, ap, arith,
  if◌then◌else◌, Option, some, List, [], ◌∷◌, ◌++◌, Bool-cases, inl, inr,
}
use sentinel_cpp.Log.Decimal.{
  digits, value, value-digits, digits-IsPlain, digits-IsPlain_bar, print,
}
use sentinel_cpp.Log.Format.{Text, Format, IsPlain, IsFormat, codes}
use sentinel_cpp.Log.Disk.{Disk, read_file}
use sentinel_cpp.Log.Stream.{lines_of_text}
use sentinel_cpp.Log.Searcher.{disk_lines}
use sentinel_cpp.Log.Item.{
  MetricItem, legal_name, to_thin_string, to_fat_string, from_thin_string, from_fat_string,
}
use sentinel_cpp.Log.Item.RoundTrip.{IsInt64, item_roundtrip}
use sentinel_cpp.Log.Block.{BlockLogTask, write_block_log}
use sentinel_cpp.Log.Block.Once.{Call, count_lines, mentions, log_calls, block_logged_once}
use sentinel_cpp.Log.Reader.{read_metrics_by_end_time}
use sentinel_cpp.Log.Reader.Range.{IsReadable, lines_read, Answers, read_in_range}

unfoldable pub read : Text → Option ℕ
unfolding value
read [] = some 0
read (c ∷ s) = if c == b'-' then some (2 ^ 64 - value 0 s) else some (value 0 (c ∷ s))

read_plain : (s : Text) → IsPlain b'-' s → read s ≡ some (value 0 s)
unfolding read value
read_plain [] h = refl
read_plain (c ∷ s) h = rw h.0 refl

read-print : (n : ℕ) → n < 2 ^ 64 → read (print n) ≡ some n
unfolding read print value
read-print n h = elim (Bool-cases (ltb n (2 ^ 63))) [
  | inl e ↦ rw e (
      read_plain (digits 20 n []) (digits-IsPlain b'-' 20 n [] (λ k lt. ground (arith, lt)) tt)
      ∙ ap some (value-digits 20 n [] (omega (arith, h)) (omega arith)))
  | inr e ↦
      rw (e, value-digits 20 (2 ^ 64 - n) [] (omega (arith, h)) (omega arith), value)
        (ap some (ground (arith, h, e)))
]

print-IsPlain : (n : ℕ) → n < 2 ^ 64 → IsPlain b'|' (print n)
unfolding print
print-IsPlain n h = elim (Bool-cases (ltb n (2 ^ 63))) [
  | inl e ↦ rw e (digits-IsPlain_bar 20 n)
  | inr e ↦ rw e (refl, digits-IsPlain_bar 20 (2 ^ 64 - n))
]

before : ℕ → List Text → List Text
before c [] = (c ∷ []) ∷ []
before c (t ∷ ts) = (c ∷ t) ∷ ts

unfoldable pub split : ℕ → Text → List Text
unfolding before
split d [] = [] ∷ []
split d (c ∷ s) = let rest = split d s in if c == d then [] ∷ rest else before c rest

split_last : (d : ℕ) (s : Text) → IsPlain d s → split d s ≡ s ∷ []
unfolding split
split_last d [] h = refl
split_last d (c ∷ s) h = rw (h.0, split_last d s h.1) refl

split_first : (d : ℕ) (s rest : Text) → IsPlain d s → split d (s ++ d ∷ rest) ≡ s ∷ split d rest
unfolding split
split_first d [] rest h = ground arith
split_first d (c ∷ s) rest h = rw (h.0, split_first d s rest h.1) refl

-- The time of every item is midnight.
abbrev pub decimal : Format
decimal = record {
  print_int = print;
  simple_atoi = read;
  str_split = split;
  format_time = λ t. b'0' ∷ b':' ∷ b'0' ∷ [];
}

pub decimal-IsFormat : IsFormat decimal
decimal-IsFormat = record {
  atoi_print = read-print;
  print_plain = print-IsPlain;
  time_plain = λ n. (refl, (refl, (refl, tt)));
  split_last = split_last;
  split_first = split_first;
}

abbrev item : MetricItem
item = record {
  resource = b'a' ∷ b'|' ∷ b'b' ∷ [];
  timestamp = 1_500_000_000_000;
  pass_qps = 12;
  block_qps = 0;
  complete_qps = 11;
  exception_qps = 1;
  rt = 30;
}

item_roundtrip_example :
    (from_thin_string decimal (to_thin_string decimal item)
      ≡ some (record item { resource = legal_name item.resource }))
    × (from_fat_string decimal (to_fat_string decimal item)
        ≡ some (record item { resource = legal_name item.resource }))
item_roundtrip_example = item_roundtrip decimal-IsFormat item (record {
  timestamp_lt = omega arith;
  pass_lt = omega arith;
  block_lt = omega arith;
  complete_lt = omega arith;
  exception_lt = omega arith;
  rt_lt = omega arith;
})

item-IsInt64 : IsInt64 item
item-IsInt64 = record {
  timestamp_lt = omega arith;
  pass_lt = omega arith;
  block_lt = omega arith;
  complete_lt = omega arith;
  exception_lt = omega arith;
  rt_lt = omega arith;
}

-- A file with the line of the item twice, and one with it once.
abbrev fat_line : Text
fat_line = to_fat_string decimal item ++ b'\n' ∷ []

abbrev two_files : Disk
two_files = (codes "/a", fat_line ++ fat_line) ∷ (codes "/b", fat_line) ∷ []

abbrev line_of_item : List Text
line_of_item = to_fat_string decimal item ∷ []

second_line : lines_read (disk_lines two_files (codes "/a") (length fat_line)) ≡ line_of_item
unfolding disk_lines read_file lines_of_text to_fat_string print
second_line = refl

whole_file : lines_read (disk_lines two_files (codes "/b") 0) ≡ line_of_item
unfolding disk_lines read_file lines_of_text to_fat_string print
whole_file = refl

line_of_item-IsReadable : All (IsReadable decimal) line_of_item
line_of_item-IsReadable = ((_, (item_roundtrip decimal-IsFormat item item-IsInt64).1), tt)

-- From the second line of the first file on.
read_in_range_example :
    Answers decimal (disk_lines two_files) 1_500_000_000_000 1_500_000_009_000 [] (
      read_metrics_by_end_time decimal
        (disk_lines two_files)
        1_500_000_000_000
        1_500_000_009_000
        []
        (codes "/a" ∷ codes "/b" ∷ [])
        (length fat_line))
read_in_range_example =
    read_in_range decimal (disk_lines two_files) 1_500_000_000_000 1_500_000_009_000 [] (codes "/a")
      (codes "/b" ∷ []) (length fat_line)
      (subst (All (IsReadable decimal)) (sym second_line) line_of_item-IsReadable)
      (subst (All (IsReadable decimal)) (sym whole_file) line_of_item-IsReadable, tt)

abbrev blocks : List Call
blocks =
    ("shop", "FlowException", 5000)
    ∷ ("shop", "FlowException", 5100)
    ∷ ("cafe", "DegradeException", 5200)
    ∷ []

abbrev idle_task : BlockLogTask
idle_task = record { has_logger = true; records = []; written = (4000, "shop|FlowException") ∷ [] }

block_logged_once_example :
    (count_lines "shop|FlowException" (write_block_log 6000 (log_calls blocks idle_task)).written
      ≡ count_lines "shop|FlowException" idle_task.written
        + (if mentions "shop|FlowException" blocks then 1 else 0))
    × ((write_block_log 6000 (log_calls blocks idle_task)).records ≡ [])
block_logged_once_example =
    block_logged_once blocks 6000 "shop|FlowException" idle_task refl refl
      (refl, (refl, (refl, tt)))

mentioned : mentions "shop|FlowException" blocks ≡ true
mentioned = refl
