-- ===== src/Log/Task/Tests.antt =====
-- Two resources with requests in one second, and one of them in the next.
use mathlib.Core.List.{Perm}
use sentinel_cpp.Prelude.{ℕ, ◌≡◌, refl, arith, false, [], ◌∷◌, String, map}
use sentinel_cpp.Stat.Bucket.{pass, new_bucket}
use sentinel_cpp.Stat.Leap.{buckets, current_window, record_at}
use sentinel_cpp.Stat.Sliding.{details, add_event, new_metric}
use sentinel_cpp.Stat.Config.{default_config}
use sentinel_cpp.Stat.Node.{
  StatisticNode, new_node, add_request, metrics, is_node_in_time, is_valid_metric_item,
}
use sentinel_cpp.Stat.Storage.{ClusterNode, ResourceNodeStorage, new_storage}
use sentinel_cpp.Log.Format.{Text}
use sentinel_cpp.Log.Tests.{decimal}
use sentinel_cpp.Log.Writer.{Host, MetricWriter, new_metric_writer, write_all}
use sentinel_cpp.Log.Task.{MetricItemTimeMap, run_log_task, collect}
use sentinel_cpp.Log.Task.Round.{Increasing, entries_of, reports, round_writes_reports}

abbrev cluster : StatisticNode → ClusterNode
cluster n = record { node = n; tag_node_map = [] }

abbrev storage : ResourceNodeStorage
storage = record (new_storage default_config) {
  node_map =
      (
        "shop",
        cluster (add_request pass 2 62_100 (add_request pass 3 61_200 (new_node default_config))),
      )
      ∷ ("cafe", cluster (add_request pass 1 61_900 (new_node default_config)))
      ∷ [];
}

-- One byte for every name.
abbrev short_name : String → Text
short_name name = b'r' ∷ []

abbrev host : Host
host = record {
  app_name = b'a' ∷ [];
  base_dir = b'/' ∷ [];
  use_pid = false;
  pid = 1;
  time_second_base = 0;
  format_date = λ t. b'd' ∷ [];
}

abbrev writer : MetricWriter
writer = new_metric_writer decimal host 1000 2 60_000 []

abbrev clock : String → ℕ
clock name = 63_500

round_writes_reports_example :
    (calls : MetricItemTimeMap) × ((run_log_task short_name clock decimal host storage writer).1
      ≡ write_all decimal host calls writer)
    × Increasing calls
    × Perm (entries_of calls) (reports short_name clock storage.node_map)
round_writes_reports_example =
    round_writes_reports short_name clock (λ name. omega arith) decimal host storage writer

-- The times of the calls.
times : map (λ c. c.0) (collect short_name clock storage.node_map []).0 ≡ 61_000 ∷ 62_000 ∷ []
unfolding collect new_node add_request metrics details buckets current_window add_event record_at
    new_metric is_node_in_time is_valid_metric_item new_bucket
times = refl
