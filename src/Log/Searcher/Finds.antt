-- ===== src/Log/Searcher/Finds.antt =====
-- MetricWriter and MetricSearcher together: what is written is found.
use sentinel_cpp.Prelude.{
  ℕ, ◌^◌, ◌<◌, ◌≡◌, refl, ap, sym, ◌∙◌, leb, true, none, some, List, [], ◌∷◌, length, Bool-cases,
  inl, inr, All, All-mono,
}
use mathlib.Core.Path.{subst}
use sentinel_cpp.Log.Format.{Text, Format, IsFormat}
use sentinel_cpp.Log.Item.{MetricItem}
use sentinel_cpp.Log.Item.RoundTrip.{IsInt64}
use sentinel_cpp.Log.Disk.{Disk, write_file}
use sentinel_cpp.Log.Disk.Laws.{read-write_self, read-write_other}
use sentinel_cpp.Log.Names.{
  form_metric_file_name, form_index_file_name, list_metric_files, next_file_name_of_day,
}
use sentinel_cpp.Log.Reader.{max_lines_return}
use sentinel_cpp.Log.Reader.Sorted.{wanted}
use sentinel_cpp.Log.Writer.{
  Host, MetricWriter, new_metric_writer, remove_more_files, do_close, close_and_new_file,
  ensure_open, write, write_all, write_open, stamp,
}
use sentinel_cpp.Log.Writer.Batches.{Batch, second_at, accepted, batches_text}
use sentinel_cpp.Log.Writer.Content.{items_of, IsLine, accepted-Stamped}
use sentinel_cpp.Log.Writer.Volume.{day_of, opened, Holds, name-ne-index}
use sentinel_cpp.Log.Writer.Run.{OnDay, write_all-Holds}
use sentinel_cpp.Log.Searcher.{new_metric_searcher, find_by_time_and_resource, MetricSearcher}
use sentinel_cpp.Log.Searcher.Index.{index_text}
use sentinel_cpp.Log.Searcher.Written.{find-Holds}

abbrev pub base_of : Host → Text
base_of host = form_metric_file_name host.use_pid host.app_name host.pid

module _ (f : Format) (host : Host) (size total : ℕ) where
  abbrev base : Text
  base = base_of host

  -- A writer with no file open.
  closed : ℕ → Disk → MetricWriter
  closed last disk = record {
    single_file_size = size;
    total_file_count = total;
    base_file_name = base;
    metric_out = none;
    metric_index_out = none;
    last_second = last;
    first_write = true;
    disk = disk;
  }

  remove_more_files-closed :
      (last : ℕ) (disk : Disk)
      → remove_more_files f host (closed last disk)
        ≡ closed last (remove_more_files f host (closed last disk)).disk
  unfolding remove_more_files closed
  remove_more_files-closed last disk =
      elim (Bool-cases (leb (length (list_metric_files f host.base_dir base disk)) total)) [
        | inl e ↦ rw e refl
        | inr e ↦ rw e refl
      ]

  -- A file that is begun is empty, and so is its index.
  close_and_new_file-Holds :
      (name : Text) (last : ℕ) (disk : Disk)
      → (disk' : Disk) × (close_and_new_file f host name (closed last disk)
          ≡ opened f host size total base name last true disk')
        × Holds f host size total base name [] [] last true disk'
  unfolding close_and_new_file do_close closed index_text
  close_and_new_file-Holds name last disk =
      let disk' = (remove_more_files f host (closed last disk)).disk in
      let e = remove_more_files-closed last disk in
      (
        write_file (form_index_file_name name) [] (write_file name [] disk'),
        rw e refl,
        record {
          content =
              read-write_other (form_index_file_name name) name [] (write_file name [] disk')
                (name-ne-index f host size total base name)
              ∙ read-write_self name [] disk';
          index = read-write_self (form_index_file_name name) [] (write_file name [] disk');
          covered = inl refl;
          finds = λ b. refl;
          small = tt;
        },
      )

  -- The first call opens the file, and then is as if it had been open.
  first_write-Holds :
      (now time : ℕ) (nodes : List MetricItem) (batches : List Batch) (disk : Disk)
      → let name = next_file_name_of_day f host.format_date host.base_dir base time disk in
        let last = second_at now in
        (disk' : Disk) × (write_all f host
            ((time, nodes) ∷ batches)
            (new_metric_writer f host size total now disk)
          ≡ write_all f host
              ((time, nodes) ∷ batches)
              (opened f host size total base name last true disk'))
        × Holds f host size total base name [] [] last true disk'
  unfolding write_all write ensure_open new_metric_writer closed
  first_write-Holds now time nodes batches disk =
      let name = next_file_name_of_day f host.format_date host.base_dir base time disk in
      let (disk', e, h) = close_and_new_file-Holds name (second_at now) disk in
      (disk', ap (λ w. write_all f host batches (write_open f host time (stamp time nodes) w)) e, h)

module _ {f : Format} (law : IsFormat f) (host : Host) (size total now unset t u : ℕ)
    (identity : Text) (time : ℕ) (nodes : List MetricItem) (batches : List Batch)
    (disk : Disk) where
  abbrev pub all_calls : List Batch
  all_calls = (time, nodes) ∷ batches

  -- The writer after the calls.
  abbrev pub written : MetricWriter
  written = write_all f host all_calls (new_metric_writer f host size total now disk)

  -- The items of the calls that are not dropped, with their times.
  abbrev pub kept : List MetricItem
  kept = items_of (accepted (second_at now) all_calls)

  -- Let a new writer be called any number of times on the day on which it was made, at times that are
  -- not negative, and let the texts of the items have no line breaks and stay below the size of a
  -- file. If the file of the first call is then the only metric file, a new search by times and
  -- resource returns, and returns those items that the calls kept (all but those of seconds before the
  -- last one) whose second is between the two times and whose resource is the one named, if one is, in
  -- their order and with each '|' in the names a '_', if there are fewer than kMaxLinesReturn of them.
  pub search_finds_written :
      (day : ℕ)
      → size < 2 ^ 63
      → OnDay host day all_calls
      → day_of host (second_at now) ≡ day
      → length (batches_text f (accepted (second_at now) all_calls)) < size
      → All IsInt64 kept
      → All (IsLine f) kept
      → list_metric_files f host.base_dir (base_of host) written.disk
        ≡ next_file_name_of_day f host.format_date host.base_dir (base_of host) time disk ∷ []
      → length (wanted (second_at t) (second_at u) identity kept) < max_lines_return
      → (s : MetricSearcher) × (find_by_time_and_resource f unset written.disk t u identity
            (new_metric_searcher host.base_dir (base_of host))
          ≡ some (wanted (second_at t) (second_at u) identity kept, s))
  search_finds_written day size_lt on today fits numbers lines only limit =
      let base = base_of host in
      let name = next_file_name_of_day f host.format_date host.base_dir base time disk in
      let calls = accepted (second_at now) all_calls in
      let (disk', e, h) = first_write-Holds f host size total now time nodes batches disk in
      let (last, (entries, first, end, q, k)) =
        write_all-Holds f host size total base name size_lt all_calls [] [] (second_at now) day true
          disk' h on today fits in
      let ended = e ∙ q in
      let times =
        All-mono (λ (c : Batch) (p : (c.0 < 2 ^ 63) × (day_of host (second_at c.0) ≡ day)). p.0)
          all_calls on in
      subst
        (λ w.
          (s : MetricSearcher) × (find_by_time_and_resource f unset w.disk t u identity
              (new_metric_searcher host.base_dir base)
            ≡ some (wanted (second_at t) (second_at u) identity kept, s)))
        (sym ended)
        (find-Holds f host size total base name calls entries last first end k law unset t u
          identity host.base_dir base (second_at now)
          (accepted-Stamped (second_at now) all_calls times) numbers lines limit
          (subst (λ w. list_metric_files f host.base_dir base w.disk ≡ name ∷ []) ended only))
