-- ===== src/Log/Writer.antt =====
-- sentinel-core/log/metric/metric_writer.h and metric_writer.cc: the writer of the metric files. A
-- stream that writes is the path of its file, `none` where it is closed; what it is given stands in
-- the file at once. Numbers are patterns of an `int64_t`.
pub mod Batches
pub mod Volume
pub mod Limit
pub mod Content
pub mod Run
mod Tests
use sentinel_cpp.Prelude.{
  ℕ, zero, suc, ◌-◌, ◌^◌, ◌==◌, leb, if◌then◌else◌, Bool, true, false, Option, none, some, List, [],
  ◌∷◌, ◌++◌, map, length, lt_int64, div_int64, sub64,
}
use sentinel_cpp.Log.Format.{Text, Format}
use sentinel_cpp.Log.Item.{MetricItem, to_fat_string}
use sentinel_cpp.Log.Decimal.{print}
use sentinel_cpp.Log.Disk.{Disk, read_file, write_file, remove_file}
use sentinel_cpp.Log.Names.{
  form_metric_file_name, form_index_file_name, list_metric_files, next_file_name_of_day,
}

-- What the writer takes from the rest of the process: LocalConfig's name of the application,
-- LogBase's directory and whether it uses the pid, the pid, the time zone's midnight of 1970-01-01,
-- and the dates of times.
pub record Host : Type 0 where
  pub app_name : Text
  pub base_dir : Text
  pub use_pid : Bool
  pub pid : ℕ
  pub time_second_base : ℕ
  pub format_date : ℕ → Text

pub record MetricWriter : Type 0 where
  pub single_file_size : ℕ
  pub total_file_count : ℕ
  pub base_file_name : Text
  pub metric_out : Option Text
  pub metric_index_out : Option Text
  pub last_second : ℕ
  pub first_write : Bool
  pub disk : Disk

-- What the file of a stream holds.
abbrev pub content_of : Text → Disk → Text
content_of name disk = elim (read_file name disk) [ none ↦ [] | some s ↦ s ]

-- A stream's `<<`.
unfoldable pub put : Option Text → Text → Disk → Disk
put none text disk = disk
put (some name) text disk = write_file name (content_of name disk ++ text) disk

-- `tellp`, -1 of a closed stream.
unfoldable pub tellp : Option Text → Disk → ℕ
tellp none disk = 2 ^ 64 - 1
tellp (some name) disk = length (content_of name disk)

-- The lines of some items.
abbrev pub lines_text : Format → List MetricItem → Text
lines_text f [] = []
lines_text f (node ∷ nodes) = to_fat_string f node ++ b'\n' ∷ lines_text f nodes

abbrev pub index_line : ℕ → ℕ → Text
index_line time offset = print time ++ b' ' ∷ (print offset ++ b'\n' ∷ [])

unfoldable pub write_index : ℕ → ℕ → MetricWriter → MetricWriter
unfolding put
write_index time offset w = record w {
  disk = put w.metric_index_out (index_line time offset) w.disk;
}

unfoldable pub is_exceed_max_single_file_size : MetricWriter → Bool
unfolding tellp
is_exceed_max_single_file_size w =
    if lt_int64 (tellp w.metric_out w.disk) w.single_file_size then false else true

unfoldable pub do_close : MetricWriter → MetricWriter
do_close w = record w { metric_out = none; metric_index_out = none }

abbrev pub stamped : ℕ → MetricItem → MetricItem
stamped time node = record node { timestamp = time }

-- Every item has the time of the call, unless that is -1.
unfoldable pub stamp : ℕ → List MetricItem → List MetricItem
stamp time nodes = if time == 2 ^ 64 - 1 then nodes else map (stamped time) nodes

module _ (f : Format) (host : Host) where
  -- The constructor.
  unfoldable pub new_metric_writer : ℕ → ℕ → ℕ → Disk → MetricWriter
  new_metric_writer single_file_size total_file_count now disk = record {
    single_file_size = single_file_size;
    total_file_count = total_file_count;
    base_file_name = form_metric_file_name host.use_pid host.app_name host.pid;
    metric_out = none;
    metric_index_out = none;
    last_second = div_int64 now 1000;
    first_write = true;
    disk = disk;
  }

  -- IsNewDay
  unfoldable pub is_new_day : ℕ → ℕ → Bool
  is_new_day last second =
      lt_int64 (div_int64 (sub64 last host.time_second_base) 86400)
        (div_int64 (sub64 second host.time_second_base) 86400)

  -- The loop of `RemoveMoreFiles`.
  remove_first : ℕ → List Text → Disk → Disk
  remove_first zero names disk = disk
  remove_first (suc n) [] disk = disk
  remove_first (suc n) (name ∷ names) disk =
      remove_first n names (remove_file (form_index_file_name name) (remove_file name disk))

  unfoldable pub remove_more_files : MetricWriter → MetricWriter
  unfolding remove_first
  remove_more_files w =
      let names = list_metric_files f host.base_dir w.base_file_name w.disk in
      if leb (length names) w.total_file_count
      then w
      else record w { disk = remove_first (length names - w.total_file_count) names w.disk }

  unfoldable pub close_and_new_file : Text → MetricWriter → MetricWriter
  close_and_new_file file_name w =
      let w' = do_close (remove_more_files w) in
      let index = form_index_file_name file_name in
      record w' {
        metric_out = some file_name;
        metric_index_out = some index;
        disk = write_file index [] (write_file file_name [] w'.disk);
      }

  abbrev pub next_file : ℕ → MetricWriter → MetricWriter
  next_file time w =
      close_and_new_file
        (next_file_name_of_day f host.format_date host.base_dir w.base_file_name time w.disk) w

  unfoldable pub do_write : ℕ → List MetricItem → MetricWriter → MetricWriter
  unfolding put is_exceed_max_single_file_size
  do_write time nodes w =
      let w' : MetricWriter = record w { disk = put w.metric_out (lines_text f nodes) w.disk } in
      if is_exceed_max_single_file_size w' then next_file time w' else w'

  -- The opening of the first file.
  unfoldable pub ensure_open : ℕ → MetricWriter → MetricWriter
  ensure_open time w = elim w.metric_out [
    | some name ↦ w
    | none ↦
        next_file time
          (record w { base_file_name = form_metric_file_name host.use_pid host.app_name host.pid })
  ]

  -- Write in the second of the last one.
  unfoldable pub write_same : ℕ → List MetricItem → MetricWriter → MetricWriter
  write_same time nodes w = do_write time nodes (
      if w.first_write
      then write_index (div_int64 time 1000) (tellp w.metric_out w.disk)
          (record w { first_write = false })
      else w)

  -- The change to the next file on a new day.
  unfoldable pub turn_day : ℕ → MetricWriter → MetricWriter
  turn_day time w = if is_new_day w.last_second (div_int64 time 1000) then next_file time w else w

  -- Write in a later second.
  unfoldable pub write_later : ℕ → List MetricItem → MetricWriter → MetricWriter
  write_later time nodes w =
      let second = div_int64 time 1000 in
      let w' = write_index second (tellp w.metric_out w.disk) w in
      record (do_write time nodes (turn_day time w')) { last_second = second }

  -- Write, behind the opening.
  unfoldable pub write_open : ℕ → List MetricItem → MetricWriter → MetricWriter
  write_open time nodes w =
      let second = div_int64 time 1000 in
      if lt_int64 second w.last_second
      then w
      else if second == w.last_second
      then write_same time nodes w
      else write_later time nodes w

  unfoldable pub write : ℕ → List MetricItem → MetricWriter → MetricWriter
  write time nodes w = write_open time (stamp time nodes) (ensure_open time w)

  -- The loop of one round of `RunLogTask` over the map of times.
  unfoldable pub write_all : List (ℕ × List MetricItem) → MetricWriter → MetricWriter
  write_all [] w = w
  write_all ((time, nodes) ∷ calls) w = write_all calls (write time nodes w)
