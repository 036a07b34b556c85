-- ===== src/Log/Searcher.antt =====
-- sentinel-core/log/metric/metric_searcher.h and metric_searcher.cc: the search of the metric files
-- by their indexes. A number that the code reads before it is set has the value `unset`.
pub mod Ends
pub mod Index
pub mod Written
pub mod Finds
pub mod Tests
use mathlib.Core.Option
use sentinel_cpp.Prelude.{
  ℕ, zero, suc, ◌-◌, ◌^◌, ◌==◌, leb, if◌then◌else◌, Bool, true, false, not, ◌&&◌, ◌||◌, Option,
  none, some, List, [], ◌∷◌, length, lt_int64, div_int64,
}
use sentinel_cpp.Log.Format.{Text, Format}
use sentinel_cpp.Log.Item.{MetricItem}
use sentinel_cpp.Log.Text.{text_eq}
use sentinel_cpp.Log.Stream.{Istream, open_at, tellg, is_good, extract, drop, lines_of_text}
use sentinel_cpp.Log.Disk.{Disk, read_file, file_exists}
use sentinel_cpp.Log.Names.{form_index_file_name, list_metric_files}
use sentinel_cpp.Log.Reader.{read_metrics, read_metrics_by_end_time}

pub record Position : Type 0 where
  pub metric_file_name : Text
  pub index_file_name : Text
  pub offset_in_index : ℕ
  pub second : ℕ

pub record MetricSearcher : Type 0 where
  pub base_dir : Text
  pub base_file_name : Text
  pub last_pos : Position

unfoldable pub new_metric_searcher : Text → Text → MetricSearcher
new_metric_searcher base_dir base_file_name = record {
  base_dir = base_dir;
  base_file_name = base_file_name;
  last_pos = record {
    metric_file_name = [];
    index_file_name = [];
    offset_in_index = 2 ^ 64 - 1;
    second = 2 ^ 64 - 1;
  };
}

-- ValidPosition
unfoldable pub valid_position : ℕ → ℕ → Disk → Position → Bool
valid_position unset begin_time_ms disk pos =
    if lt_int64 (div_int64 begin_time_ms 1000) pos.second
    then false
    else if text_eq pos.index_file_name []
    then false
    else elim (read_file pos.index_file_name disk) [
      | none ↦ false
      | some content ↦ (extract unset (open_at content pos.offset_in_index)).0 == pos.second
    ]

-- The loop of `FindOffset` from the values of its two numbers: the offset, -1 if the loop ends
-- without one, and `offset_in_index`. The fuel bounds the rounds; `none` is that it ran out.
unfoldable pub find_loop : ℕ → ℕ → ℕ → ℕ → ℕ → Istream → Option (ℕ × ℕ)
find_loop zero begin_second second tmp_offset in_index st = none
find_loop (suc fuel) begin_second second tmp_offset in_index st =
    let (second', st') = extract second st in
    let (tmp_offset', st'') = extract tmp_offset st' in
    let rest = find_loop fuel begin_second second' tmp_offset' (tellg st'') st'' in
    if not (is_good st)
    then some (2 ^ 64 - 1, in_index)
    else if lt_int64 second' begin_second
    then rest
    else some (tmp_offset', in_index)

-- The loop over an index, with fuel for a round at each of its bytes, and two more.
abbrev pub find_in_index : ℕ → ℕ → ℕ → ℕ → Text → Option (ℕ × ℕ)
find_in_index unset begin_second in_index offset content =
    find_loop (suc (suc (length content))) begin_second unset (2 ^ 64 - 1) in_index
      (open_at content offset)

-- FindOffset: the offset, and the position.
unfoldable pub find_offset : ℕ → ℕ → Text → Text → ℕ → Disk → Position → Option (ℕ × Position)
unfolding find_loop
find_offset unset begin_time_ms metric_file_name idx_file_name offset_in_index disk pos =
    let cleared : Position = record pos { metric_file_name = []; index_file_name = [] } in
    elim (read_file idx_file_name disk) [
      | none ↦ some (2 ^ 64 - 1, cleared)
      | some content ↦
          elim (find_in_index unset (div_int64 begin_time_ms 1000) cleared.offset_in_index
            offset_in_index content) [
              | none ↦ none
              | some (offset, in_index) ↦
                  let moved : Position = record cleared { offset_in_index = in_index } in
                  some (
                    offset,
                    if offset == 2 ^ 64 - 1 then moved else record moved {
                      metric_file_name = metric_file_name;
                      index_file_name = idx_file_name;
                    },
                  )
            ]
    ]

-- `std::find`: the names from that one on.
unfoldable pub names_from : Text → List Text → List Text
names_from name [] = []
names_from name (x ∷ xs) = let rest = names_from name xs in if text_eq x name then x ∷ xs else rest

-- Where the search starts: the names that are left, and the offset in the first one's index.
unfoldable pub start_of_search : ℕ → ℕ → Disk → Position → List Text → List Text × ℕ
unfolding valid_position names_from
start_of_search unset begin_time_ms disk pos names =
    if valid_position unset begin_time_ms disk pos
    then elim (names_from pos.metric_file_name names) [
      | [] ↦ (names, 0)
      | x ∷ xs ↦ (x ∷ xs, pos.offset_in_index)
    ]
    else (names, 0)

-- The loop of the two searches: the files from the first one with an offset on, and that offset.
unfoldable pub first_offset :
    ℕ → ℕ → List Text → ℕ → Disk → Position → Option (Option (List Text × ℕ) × Position)
unfolding find_offset
first_offset unset begin_time_ms [] offset_in_index disk pos = some (none, pos)
first_offset unset begin_time_ms (name ∷ names) offset_in_index disk pos =
    elim (find_offset unset begin_time_ms name (form_index_file_name name) offset_in_index disk
      pos) [
        | none ↦ none
        | some (offset, pos') ↦
            let rest = first_offset unset begin_time_ms names 0 disk pos' in
            if offset == 2 ^ 64 - 1 then rest else some (some (name ∷ names, offset), pos')
      ]

-- What the reader finds in a file from an offset on.
unfoldable pub disk_lines : Disk → Text → ℕ → Option (List Text)
disk_lines disk name offset = elim (read_file name disk) [
  | none ↦ none
  | some content ↦ some (if leb (2 ^ 63) offset then [] else lines_of_text (drop offset content))
]

-- What both searches do with the offset that they find. `none` is the use of a null item, or that
-- the fuel ran out.
unfoldable pub search :
    ℕ
    → ℕ
    → List Text
    → (List Text → ℕ → Option (List MetricItem))
    → Disk
    → MetricSearcher
    → Option (List MetricItem × MetricSearcher)
unfolding start_of_search first_offset
search unset begin_time_ms file_names read disk s =
    let (names, offset_in_index) = start_of_search unset begin_time_ms disk s.last_pos file_names in
    elim (first_offset unset begin_time_ms names offset_in_index disk s.last_pos) [
      | none ↦ none
      | some (none, pos) ↦ some ([], record s { last_pos = pos })
      | some (some (files, offset), pos) ↦
          Option.map (λ items. (items, record s { last_pos = pos })) (read files offset)
    ]

module _ (f : Format) (unset : ℕ) (disk : Disk) where
  abbrev pub file_names : MetricSearcher → List Text
  file_names s = list_metric_files f s.base_dir s.base_file_name disk

  unfoldable pub find : ℕ → ℕ → MetricSearcher → Option (List MetricItem × MetricSearcher)
  unfolding search
  find begin_time_ms recommend_lines s =
      search unset begin_time_ms (file_names s)
        (λ files offset. read_metrics f (disk_lines disk) recommend_lines files offset) disk s

  unfoldable pub find_by_time_and_resource :
      ℕ → ℕ → Text → MetricSearcher → Option (List MetricItem × MetricSearcher)
  unfolding search
  find_by_time_and_resource begin_time_ms end_time_ms identity s =
      search unset begin_time_ms (file_names s)
        (λ files offset.
          read_metrics_by_end_time f (disk_lines disk) begin_time_ms end_time_ms identity files
            offset)
        disk s
