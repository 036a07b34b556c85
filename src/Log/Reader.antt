-- ===== src/Log/Reader.antt =====
-- sentinel-core/log/metric/metric_reader.h and .cc: metric items from the metric files. A file is
-- what `lines` says it holds from a byte offset on, `none` where it cannot be opened; numbers are
-- patterns of 64 bits. The result `none` is the use of a null item, for a line that is no item.
pub mod Range
pub mod Sorted
use sentinel_cpp.Prelude.{
  ℕ, ◌-◌, ◌^◌, ◌==◌, ltb, leb, if◌then◌else◌, Bool, true, false, not, ◌&&◌, ◌||◌, Option, none,
  some, List, [], ◌∷◌, ◌++◌, length, lt_int64, div_int64,
}
use sentinel_cpp.Log.Format.{Text, Format}
use sentinel_cpp.Log.Text.{text_eq}
use sentinel_cpp.Log.Item.{MetricItem, from_fat_string}

-- kMaxLinesReturn
abbrev pub max_lines_return : ℕ
max_lines_return = 100_000

-- The second of an item.
abbrev pub second_of : MetricItem → ℕ
second_of item = div_int64 item.timestamp 1000

-- The timestamp's second of the last item, -1 without one.
abbrev pub last_second : ℕ → List MetricItem → ℕ
last_second second [] = second
last_second second (item ∷ items) = last_second (second_of item) items

module _ (f : Format) where
  -- The loop of `ReadMetricsInOneFile`.
  read_lines : ℕ → List Text → ℕ → List MetricItem → Option (List MetricItem)
  read_lines recommend [] last vec = some vec
  read_lines recommend (line ∷ rest) last vec = elim (from_fat_string f line) [
    | none ↦ none
    | some item ↦
        let more = read_lines recommend rest (second_of item) (vec ++ item ∷ []) in
        if ltb (length vec) recommend || second_of item == last then more else some vec
  ]

  -- The loop of `ReadMetricsInOneFileByEndTime`: whether to read on, and the items.
  unfoldable pub read_lines_by_end_time :
      ℕ → ℕ → Text → List Text → List MetricItem → Option (Bool × List MetricItem)
  read_lines_by_end_time begin_second end_second identity [] vec = some (true, vec)
  read_lines_by_end_time begin_second end_second identity (line ∷ rest) vec =
      elim (from_fat_string f line) [
        | none ↦ none
        | some item ↦
            let vec' =
              if text_eq identity [] || text_eq item.resource identity
              then vec ++ item ∷ []
              else vec in
            let more = read_lines_by_end_time begin_second end_second identity rest vec' in
            if lt_int64 (second_of item) begin_second
            then some (false, vec)
            else if lt_int64 end_second (second_of item)
            then some (false, vec)
            else if leb max_lines_return (length vec')
            then some (false, vec')
            else more
      ]

  module _ (lines : Text → ℕ → Option (List Text)) where
    unfoldable pub read_metrics_in_one_file :
        ℕ → Text → ℕ → List MetricItem → Option (List MetricItem)
    unfolding read_lines
    read_metrics_in_one_file recommend name offset vec = elim (lines name offset) [
      | none ↦ some vec
      | some ls ↦ read_lines recommend ls (last_second (2 ^ 64 - 1) vec) vec
    ]

    -- The loop of `ReadMetrics` over the files that are left.
    read_files : ℕ → List Text → List MetricItem → Option (List MetricItem)
    unfolding read_metrics_in_one_file
    read_files recommend [] vec = some vec
    read_files recommend (name ∷ names) vec =
        if ltb (length vec) recommend
        then elim (read_metrics_in_one_file recommend name 0 vec) [
          | none ↦ none
          | some vec' ↦ read_files recommend names vec'
        ]
        else some vec

    -- ReadMetrics, for the files from `pos` on.
    unfoldable pub read_metrics : ℕ → List Text → ℕ → Option (List MetricItem)
    unfolding read_files
    read_metrics recommend [] offset = some []
    read_metrics recommend (name ∷ names) offset =
        elim (read_metrics_in_one_file recommend name offset []) [
          | none ↦ none
          | some vec ↦ read_files recommend names vec
        ]

    -- The times in it are in milliseconds.
    unfoldable pub read_metrics_in_one_file_by_end_time :
        ℕ → ℕ → Text → Text → ℕ → List MetricItem → Option (Bool × List MetricItem)
    read_metrics_in_one_file_by_end_time begin_time end_time identity name offset vec =
        elim (lines name offset) [
          | none ↦ some (false, vec)
          | some ls ↦
              read_lines_by_end_time (div_int64 begin_time 1000) (div_int64 end_time 1000) identity
                ls vec
        ]

    -- The loop of `ReadMetricsByEndTime` over the files that are left.
    unfoldable pub read_files_by_end_time :
        ℕ → ℕ → Text → List Text → List MetricItem → Option (List MetricItem)
    unfolding read_metrics_in_one_file_by_end_time
    read_files_by_end_time begin_time end_time identity [] vec = some vec
    read_files_by_end_time begin_time end_time identity (name ∷ names) vec =
        elim (read_metrics_in_one_file_by_end_time begin_time end_time identity name 0 vec) [
          | none ↦ none
          | some (more, vec') ↦
              let rest = read_files_by_end_time begin_time end_time identity names vec' in
              if more then rest else some vec'
        ]

    -- ReadMetricsByEndTime, for the files from `pos` on.
    unfoldable pub read_metrics_by_end_time :
        ℕ → ℕ → Text → List Text → ℕ → Option (List MetricItem)
    unfolding read_files_by_end_time
    read_metrics_by_end_time begin_time end_time identity [] offset = some []
    read_metrics_by_end_time begin_time end_time identity (name ∷ names) offset =
        elim (read_metrics_in_one_file_by_end_time begin_time end_time identity name offset []) [
          | none ↦ none
          | some (more, vec) ↦
              let rest = read_files_by_end_time begin_time end_time identity names vec in
              if more then rest else some vec
        ]
