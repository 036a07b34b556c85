-- ===== src/Log/Writer/Tests.antt =====
-- A writer that is to leave one file, in a directory with two of its files.
use sentinel_cpp.Prelude.{
  ◌-◌, if◌then◌else◌, some, ◌≤◌, ◌≡◌, refl, true, false, none, [], ◌∷◌, length,
}
use sentinel_cpp.Log.Format.{codes}
use sentinel_cpp.Log.Tests.{decimal, split}
use sentinel_cpp.Log.Text.{starts_with, less, ends_with}
use sentinel_cpp.Log.Disk.{read_file, write_file, remove_file}
use sentinel_cpp.Log.Names.{
  metric_index_file_suffix, list_metric_files, file_name_matches, form_index_file_name,
}
use sentinel_cpp.Log.Writer.{Host, MetricWriter, do_close, remove_more_files, close_and_new_file}
use sentinel_cpp.Log.Writer.Limit.{among_first, files_limited}

abbrev host : Host
host = record {
  app_name = codes "a";
  base_dir = codes "/";
  use_pid = false;
  pid = 1;
  time_second_base = 0;
  format_date = λ t. codes "2024-01-03";
}

abbrev writer : MetricWriter
writer = record {
  single_file_size = 100;
  total_file_count = 1;
  base_file_name = codes "m.log";
  metric_out = none;
  metric_index_out = none;
  last_second = 0;
  first_write = true;
  disk =
      (codes "/m.log.2024-01-01", codes "x")
      ∷ (codes "/m.log.2024-01-01.idx", [])
      ∷ (codes "/m.log.2024-01-02", codes "y")
      ∷ (codes "/m.log.2024-01-02.idx", [])
      ∷ [];
}

files_limited_example :
    (read_file (codes "/m.log.2024-01-02") (remove_more_files decimal host writer).disk ≡ (
      if among_first
        (length (list_metric_files decimal host.base_dir writer.base_file_name writer.disk) - 1)
        (list_metric_files decimal host.base_dir writer.base_file_name writer.disk)
        (codes "/m.log.2024-01-02")
      then none
      else some (codes "y")))
    × (length (
          list_metric_files decimal host.base_dir writer.base_file_name
            (remove_more_files decimal host writer).disk)
        ≤ 1)
    × (length (
          list_metric_files decimal host.base_dir writer.base_file_name
            (close_and_new_file decimal host (codes "/m.log.2024-01-03") writer).disk)
        ≤ 2)
unfolding read_file ends_with metric_index_file_suffix
files_limited_example =
    files_limited decimal host writer (codes "m.log.2024-01-03") (codes "/m.log.2024-01-02") refl

two_files : length (list_metric_files decimal host.base_dir writer.base_file_name writer.disk) ≡ 2
unfolding list_metric_files file_name_matches split starts_with less
two_files = refl

-- The oldest one is removed, and with the new one there are two again.
two_again :
    list_metric_files decimal host.base_dir writer.base_file_name
      (close_and_new_file decimal host (codes "/m.log.2024-01-03") writer).disk
    ≡ codes "/m.log.2024-01-02" ∷ codes "/m.log.2024-01-03" ∷ []
unfolding list_metric_files file_name_matches split close_and_new_file remove_more_files write_file
    do_close starts_with less remove_file form_index_file_name
two_again = refl
