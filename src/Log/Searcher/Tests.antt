-- ===== src/Log/Searcher/Tests.antt =====
-- A writer that is called four times on one day, once too late, and a search for a resource.
use sentinel_cpp.Prelude.{
  ℕ, ◌^◌, ◌<◌, ◌≡◌, refl, arith, ◌==◌, Bool, true, false, not, ◌&&◌, List, [], ◌∷◌, Option, some,
  All, length,
}
use sentinel_cpp.Log.Format.{Text, IsPlain}
use sentinel_cpp.Log.Decimal.{print}
use sentinel_cpp.Log.Item.{MetricItem, to_fat_string, legal_name}
use sentinel_cpp.Log.Item.RoundTrip.{IsInt64}
use sentinel_cpp.Log.Tests.{decimal, decimal-IsFormat, read, split}
use sentinel_cpp.Log.Disk.{Disk, read_file, write_file}
use sentinel_cpp.Log.Names.{
  list_metric_files, next_file_name_of_day, form_metric_file_name, form_index_file_name,
}
use sentinel_cpp.Log.Reader.{max_lines_return}
use sentinel_cpp.Log.Reader.Sorted.{wanted}
use sentinel_cpp.Log.Writer.{
  Host, stamp, stamped, write_all, write, write_open, write_same, write_later, turn_day,
  ensure_open, new_metric_writer, do_write, close_and_new_file, remove_more_files, do_close,
  write_index, put, tellp, is_exceed_max_single_file_size, is_new_day,
}
use sentinel_cpp.Log.Writer.Batches.{Batch, accepted, batches_text}
use sentinel_cpp.Log.Writer.Content.{IsLine}
use sentinel_cpp.Log.Searcher.{
  MetricSearcher, Position, new_metric_searcher, find_by_time_and_resource, first_offset,
}
use sentinel_cpp.Log.Searcher.Ends.{first_offset_ends}
use sentinel_cpp.Log.Searcher.Finds.{base_of, kept, written, search_finds_written}

-- "/", "a", and a date.
abbrev pub host : Host
host = record {
  app_name = b'a' ∷ [];
  base_dir = b'/' ∷ [];
  use_pid = false;
  pid = 1;
  time_second_base = 0;
  format_date = λ t. b'2' ∷ b'0' ∷ b'2' ∷ b'4' ∷ b'-' ∷ b'0' ∷ b'1' ∷ b'-' ∷ b'0' ∷ b'1' ∷ [];
}

abbrev pub passes : ℕ → ℕ → MetricItem
passes name n = record {
  resource = name ∷ [];
  timestamp = 0;
  pass_qps = n;
  block_qps = 0;
  complete_qps = 0;
  exception_qps = 0;
  rt = 0;
}

abbrev pub later : List Batch
later =
    (5100, passes b'y' 2 ∷ [])
    ∷ (4000, passes b'x' 3 ∷ [])
    ∷ (7000, passes b'x' 4 ∷ passes b'y' 5 ∷ [])
    ∷ []

abbrev pub first_nodes : List MetricItem
first_nodes = passes b'x' 1 ∷ []

abbrev pub kept_items : List MetricItem
kept_items =
    kept decimal-IsFormat host 1000 2 4500 0 6000 9000 (b'x' ∷ []) 5000 first_nodes later []

pub small-IsInt64 :
    (time name n : ℕ)
    → time < 2 ^ 64
    → n < 2 ^ 64
    → IsInt64 (record (passes name n) { timestamp = time })
small-IsInt64 time name n h k = record {
  timestamp_lt = h;
  pass_lt = k;
  block_lt = omega arith;
  complete_lt = omega arith;
  exception_lt = omega arith;
  rt_lt = omega arith;
}

unfoldable pub is_plain : ℕ → Text → Bool
is_plain d [] = true
is_plain d (c ∷ s) = not (c == d) && is_plain d s

pub is_plain-IsPlain : (d : ℕ) (s : Text) → is_plain d s ≡ true → IsPlain d s
unfolding is_plain
is_plain-IsPlain d [] h = tt
is_plain-IsPlain d (c ∷ s) h = (ground (arith, h), is_plain-IsPlain d s (ground (arith, h)))

pub kept-IsInt64 : All IsInt64 kept_items
unfolding stamp
kept-IsInt64 = (
  small-IsInt64 5000 b'x' 1 (omega arith) (omega arith),
  (
    small-IsInt64 5100 b'y' 2 (omega arith) (omega arith),
    (
      small-IsInt64 7000 b'x' 4 (omega arith) (omega arith),
      (small-IsInt64 7000 b'y' 5 (omega arith) (omega arith), tt),
    ),
  ),
)

is_line :
    (item : MetricItem) → is_plain b'\n' (to_fat_string decimal item) ≡ true → IsLine decimal item
is_line item h = is_plain-IsPlain b'\n' (to_fat_string decimal item) h

pub kept-IsLine : All (IsLine decimal) kept_items
unfolding stamp is_plain to_fat_string print
kept-IsLine = (
  is_line (stamped 5000 (passes b'x' 1)) refl,
  (
    is_line (stamped 5100 (passes b'y' 2)) refl,
    (
      is_line (stamped 7000 (passes b'x' 4)) refl,
      (is_line (stamped 7000 (passes b'y' 5)) refl, tt),
    ),
  ),
)

abbrev pub after_calls : Disk
after_calls =
    (written decimal-IsFormat host 1000 2 4500 0 6000 9000 (b'x' ∷ []) 5000 first_nodes later
      []).disk

pub only_file :
    list_metric_files decimal host.base_dir (base_of host) after_calls
    ≡ next_file_name_of_day decimal host.format_date host.base_dir (base_of host) 5000 [] ∷ []
unfolding list_metric_files next_file_name_of_day write_all write write_open write_same write_later
    turn_day ensure_open new_metric_writer do_write close_and_new_file remove_more_files do_close
    write_index put tellp is_exceed_max_single_file_size is_new_day stamp form_metric_file_name
    form_index_file_name print to_fat_string read_file write_file read split
only_file = refl

abbrev pub short : ℕ
short = length (batches_text decimal (accepted 4 ((5000, first_nodes) ∷ later)))

pub short_lt : short < 1000
unfolding stamp to_fat_string print
short_lt = omega arith

pub limit : length (wanted 6 9 (b'x' ∷ []) kept_items) < max_lines_return
unfolding stamp legal_name
limit = omega arith

search_finds_written_example :
    (s : MetricSearcher) × (find_by_time_and_resource decimal 0 after_calls 6000 9000
        (b'x' ∷ [])
        (new_metric_searcher host.base_dir (base_of host))
      ≡ some (wanted 6 9 (b'x' ∷ []) kept_items, s))
search_finds_written_example =
    search_finds_written decimal-IsFormat host 1000 2 4500 0 6000 9000 (b'x' ∷ []) 5000 first_nodes
      later [] 0 (omega arith)
      ((omega arith, refl), ((omega arith, refl), ((omega arith, refl), ((omega arith, refl), tt))))
      refl short_lt kept-IsInt64 kept-IsLine only_file limit

-- What is found is the one item of that resource at 7000.
found : wanted 6 9 (b'x' ∷ []) kept_items ≡ stamped 7000 (passes b'x' 4) ∷ []
unfolding stamp legal_name
found = refl

first_offset_ends_example :
    (r : Option (List Text × ℕ) × Position) × (first_offset 0 6000
        ((b'/' ∷ b'm' ∷ []) ∷ [])
        0
        after_calls
        (new_metric_searcher host.base_dir (base_of host)).last_pos
      ≡ some r)
first_offset_ends_example =
    first_offset_ends 0 6000 ((b'/' ∷ b'm' ∷ []) ∷ []) 0 after_calls
      (new_metric_searcher host.base_dir (base_of host)).last_pos
