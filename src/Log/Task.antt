-- ===== src/Log/Task.antt =====
-- sentinel-core/log/metric/metric_log_task.h and metric_log_task.cc: the thread that writes the
-- metrics of all resources once a second. `bytes` is the bytes of a resource's name, and `clock` the
-- time at which the node of a resource is asked.
pub mod Round
mod Tests
use sentinel_cpp.Prelude.{ℕ, ◌==◌, if◌then◌else◌, List, [], ◌∷◌, ◌++◌, String, lt_int64}
use sentinel_cpp.Stat.Sliding
use sentinel_cpp.Stat.Node.{metrics}
use sentinel_cpp.Stat.Storage.{ClusterNode, ResourceNodeStorage}
use sentinel_cpp.Log.Format.{Text, Format}
use sentinel_cpp.Log.Item.{MetricItem}
use sentinel_cpp.Log.Writer.{Host, MetricWriter, write_all}

-- MetricItemTimeMap, in the order of its keys.
abbrev pub MetricItemTimeMap : Type 0
MetricItemTimeMap = List (ℕ × List MetricItem)

-- `set_resource`, of an item that a node reports.
abbrev pub set_resource : Text → Sliding.MetricItem → MetricItem
set_resource resource item = record {
  resource = resource;
  timestamp = item.timestamp;
  pass_qps = item.pass_qps;
  block_qps = item.block_qps;
  complete_qps = item.complete_qps;
  exception_qps = item.exception_qps;
  rt = item.response_time;
}

-- An item at the end of the vector of its time, which is made if it is not there.
pub add_item : ℕ → MetricItem → MetricItemTimeMap → MetricItemTimeMap
add_item t item [] = (t, item ∷ []) ∷ []
add_item t item ((k, items) ∷ m) =
    let rest = add_item t item m in
    if k == t
    then (k, items ++ item ∷ []) ∷ m
    else if lt_int64 t k
    then (t, item ∷ []) ∷ (k, items) ∷ m
    else (k, items) ∷ rest

unfoldable pub aggregate_metrics :
    Text → List (ℕ × Sliding.MetricItem) → MetricItemTimeMap → MetricItemTimeMap
unfolding add_item
aggregate_metrics resource [] m = m
aggregate_metrics resource ((t, item) ∷ items) m =
    aggregate_metrics resource items (add_item t (set_resource resource item) m)

module _ (bytes : String → Text) (clock : String → ℕ) where
  -- The loop of `RunLogTask` over the nodes, which reports what they have, and leaves the nodes.
  unfoldable pub collect :
      List (String × ClusterNode)
      → MetricItemTimeMap
      → MetricItemTimeMap × List (String × ClusterNode)
  unfolding aggregate_metrics
  collect [] m = (m, [])
  collect ((name, n) ∷ nodes) m =
      let (items, node) = metrics (clock name) n.node in
      let (m', rest) = collect nodes (aggregate_metrics (bytes name) items m) in
      (m', (name, record n { node = node }) ∷ rest)

  -- One round of `RunLogTask`.
  unfoldable pub run_log_task :
      Format → Host → ResourceNodeStorage → MetricWriter → ResourceNodeStorage × MetricWriter
  unfolding collect
  run_log_task f host s w =
      let (m, nodes) = collect s.node_map [] in
      (record s { node_map = nodes }, write_all f host m w)
