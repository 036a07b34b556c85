-- ===== src/Transport/Handlers.antt =====
-- sentinel-core/transport/command/handler: the commands. A handler is its constructor, and the
-- state is what they read and change: GlobalStatus::activated, the nodes of the resources, and the
-- searcher of the metric command.
pub mod Nodes
pub mod Metric
use sentinel_cpp.Prelude.{
  ℕ, map, ◌++◌, if◌then◌else◌, Bool, true, false, Option, none, some, List, [], ◌∷◌, String,
  lt_int64, Double,
}
use sentinel_cpp.Stat.Bucket.{pass, block, complete, exception}
use sentinel_cpp.Stat.Node.{
  StatisticNode, qps, total_qps, avg_rt, count_in_minute, total_count_in_minute,
}
use sentinel_cpp.Stat.Storage.{ClusterNode, ResourceNodeStorage}
use sentinel_cpp.Log.Format.{Text, Format}
use sentinel_cpp.Log.Text.{text_eq}
use sentinel_cpp.Log.Disk.{Disk}
use sentinel_cpp.Log.Item.{MetricItem, to_thin_string}
use sentinel_cpp.Log.Searcher.{MetricSearcher, find, find_by_time_and_resource}
use sentinel_cpp.Transport.{
  CommandRequest, CommandResponse, get_param, of_success, of_failure, codes,
}

pub record StatisticNodeVo : Type 0 where
  pub id : Text
  pub parent_id : Text
  pub resource : Text
  pub thread_num : ℕ
  pub pass_qps : ℕ
  pub block_qps : ℕ
  pub total_qps : ℕ
  pub complete_qps : ℕ
  pub avg_rt : ℕ
  pub exception_qps : ℕ
  pub pass_per_min : ℕ
  pub block_per_min : ℕ
  pub exception_per_min : ℕ
  pub total_per_min : ℕ
  pub timestamp : ℕ

-- A text or a number of a JSON object.
pub data JsonValue : Type 0 where
  json_text : Text → JsonValue
  json_number : ℕ → JsonValue

-- ConvertNodeVoToJson
unfoldable pub convert_node_vo_to_json : StatisticNodeVo → List (Text × JsonValue)
convert_node_vo_to_json node =
    (codes "id", json_text node.id)
    ∷ (codes "parentId", json_text node.parent_id)
    ∷ (codes "resource", json_text node.resource)
    ∷ (codes "threadNum", json_number node.thread_num)
    ∷ (codes "passQps", json_number node.pass_qps)
    ∷ (codes "blockQps", json_number node.block_qps)
    ∷ (codes "totalQps", json_number node.total_qps)
    ∷ (codes "averageRt", json_number node.avg_rt)
    ∷ (codes "successQps", json_number node.complete_qps)
    ∷ (codes "exceptionQps", json_number node.exception_qps)
    ∷ (codes "oneMinutePass", json_number node.pass_per_min)
    ∷ (codes "oneMinuteBlock", json_number node.block_per_min)
    ∷ (codes "oneMinuteException", json_number node.exception_per_min)
    ∷ (codes "oneMinuteTotal", json_number node.total_per_min)
    ∷ (codes "timestamp", json_number node.timestamp)
    ∷ []

-- What the handlers take from elsewhere: the texts of absl, with SimpleAtoi to an `int32_t`, the
-- value of a number that is not set, the files, the bytes of a resource's name, the conversion of a
-- double to an `int64_t`, and the JSON text of an array of objects.
pub record Platform (D : Type 0) : Type 0 where
  pub format : Format
  pub simple_atoi32 : Text → Option ℕ
  pub unset : ℕ
  pub disk : Disk
  pub bytes : String → Text
  pub to_int64 : D → ℕ
  pub dump_json : List (List (Text × JsonValue)) → Text

pub record HandlerState : Type 0 where
  pub activated : Bool
  pub storage : ResourceNodeStorage
  pub searcher : MetricSearcher

pub data CommandHandler : Type 0 where
  fetch_metric_log fetch_cluster_node set_switch_status get_switch_status version : CommandHandler

unfoldable pub command_name : CommandHandler → Text
command_name fetch_metric_log = codes "metric"
command_name fetch_cluster_node = codes "clusterNode"
command_name set_switch_status = codes "setSwitch"
command_name get_switch_status = codes "getSwitch"
command_name version = codes "version"

unfoldable pub set_switch_status_handle :
    CommandRequest → HandlerState → CommandResponse × HandlerState
set_switch_status_handle request st =
    let v = get_param (codes "value") request in
    if text_eq v (codes "true")
    then (of_success (codes "Sentinel has been enabled"), record st { activated = true })
    else if text_eq v (codes "false")
    then (of_success (codes "Sentinel has been disabled"), record st { activated = false })
    else (of_failure (codes "bad new status"), st)

unfoldable pub get_switch_status_handle : HandlerState → CommandResponse × HandlerState
get_switch_status_handle st = (
  of_success
      (codes "Sentinel status: " ++ (if st.activated then codes "enabled" else codes "disabled")),
  st,
)

abbrev pub max_lines : ℕ
max_lines = 12_000

-- `std::max` of two `int32_t`, as patterns of 64 bits.
abbrev pub max_int32 : ℕ → ℕ → ℕ
max_int32 a b = if lt_int64 a b then b else a

module _ {D : Type 0} ⦃d : Double D⦄ (p : Platform D) where
  -- StatisticNodeVO::FromResourceNode, of a node that is not null.
  unfoldable pub from_resource_node : ℕ → String → StatisticNode → StatisticNodeVo × StatisticNode
  from_resource_node now name n =
      let (passed, n1) = qps pass now n in
      let (blocked, n2) = qps block now n1 in
      let (total, n3) = total_qps now n2 in
      let (mean, n4) = avg_rt now n3 in
      let (completed, n5) = qps complete now n4 in
      let (failed, n6) = qps exception now n5 in
      let (pass_min, n7) = count_in_minute pass now n6 in
      let (block_min, n8) = count_in_minute block now n7 in
      let (total_min, n9) = total_count_in_minute now n8 in
      let (exception_min, n10) = count_in_minute exception now n9 in
      (
        record {
          id = [];
          parent_id = [];
          resource = p.bytes name;
          thread_num = n.cur_thread_num;
          pass_qps = p.to_int64 passed;
          block_qps = p.to_int64 blocked;
          total_qps = p.to_int64 total;
          complete_qps = p.to_int64 completed;
          avg_rt = p.to_int64 mean;
          exception_qps = p.to_int64 failed;
          pass_per_min = pass_min;
          block_per_min = block_min;
          exception_per_min = exception_min;
          total_per_min = total_min;
          timestamp = now;
        },
        n10,
      )

  -- One node of the loop of FetchClusterNodeCommandHandler::Handle.
  unfoldable pub report_node :
      ℕ → Bool → String → StatisticNode → Option StatisticNodeVo × StatisticNode
  unfolding from_resource_node
  report_node now not_zero name n =
      if not_zero
      then (let (total, n') = total_count_in_minute now n in
          let (vo, n'') = from_resource_node now name n' in
          if lt_int64 0 total then (some vo, n'') else (none, n'))
      else (let (vo, n') = from_resource_node now name n in (some vo, n'))

  unfoldable pub report_nodes :
      ℕ → Bool → List (String × ClusterNode) → List StatisticNodeVo × List (String × ClusterNode)
  unfolding report_node
  report_nodes now not_zero [] = ([], [])
  report_nodes now not_zero ((name, n) ∷ nodes) =
      let (vo, node) = report_node now not_zero name n.node in
      let (vos, rest) = report_nodes now not_zero nodes in
      (elim vo [ none ↦ vos | some v ↦ v ∷ vos ], (name, record n { node = node }) ∷ rest)

  unfoldable pub fetch_cluster_node_handle :
      ℕ → CommandRequest → HandlerState → CommandResponse × HandlerState
  unfolding report_nodes
  fetch_cluster_node_handle now request st =
      let not_zero = text_eq (get_param (codes "type") request) (codes "notZero") in
      let (vos, nodes) = report_nodes now not_zero st.storage.node_map in
      (
        of_success (p.dump_json (map convert_node_vo_to_json vos)),
        record st { storage = record (st.storage) { node_map = nodes } },
      )

  -- The loop over the items that were found.
  unfoldable pub items_text : List MetricItem → Text
  items_text [] = []
  items_text (item ∷ items) = to_thin_string p.format item ++ b'\n' ∷ items_text items

  -- The answer to what a search gives; `none` is that it uses a null item.
  unfoldable pub answer_items :
      HandlerState
      → Option (List MetricItem × MetricSearcher)
      → Option (CommandResponse × HandlerState)
  unfolding items_text
  answer_items st none = none
  answer_items st (some (items, s)) =
      some (of_success (items_text items), record st { searcher = s })

  unfoldable pub fetch_metric_log_handle :
      CommandRequest → HandlerState → Option (CommandResponse × HandlerState)
  unfolding answer_items
  fetch_metric_log_handle request st =
      let start_time_str = get_param (codes "startTime") request in
      let end_time_str = get_param (codes "endTime") request in
      let max_lines_str = get_param (codes "maxLines") request in
      let identity = get_param (codes "identity") request in
      if text_eq start_time_str []
      then some (of_success [], st)
      else elim (p.format.simple_atoi start_time_str) [
        | none ↦ some (of_failure (codes "Invalid start_time"), st)
        | some start_time ↦
            if text_eq end_time_str []
            then (if text_eq max_lines_str []
                then answer_items st (some ([], st.searcher))
                else elim (p.simple_atoi32 max_lines_str) [
                  | none ↦ some (of_failure (codes "Invalid max_lines"), st)
                  | some n ↦
                      answer_items st (
                        find p.format p.unset p.disk start_time (max_int32 n max_lines) st.searcher)
                ])
            else elim (p.format.simple_atoi end_time_str) [
              | none ↦ some (of_failure (codes "Invalid end_time"), st)
              | some end_time ↦ answer_items st (
                  find_by_time_and_resource p.format p.unset p.disk start_time end_time identity
                    st.searcher)
            ]
      ]

  -- Handle, of each class.
  unfoldable pub handle :
      CommandHandler → ℕ → CommandRequest → HandlerState → Option (CommandResponse × HandlerState)
  unfolding set_switch_status_handle get_switch_status_handle fetch_cluster_node_handle
      fetch_metric_log_handle
  handle fetch_metric_log now request st = fetch_metric_log_handle request st
  handle fetch_cluster_node now request st = some (fetch_cluster_node_handle now request st)
  handle set_switch_status now request st = some (set_switch_status_handle request st)
  handle get_switch_status now request st = some (get_switch_status_handle st)
  handle version now request st = some (of_success (codes "0.1.0"), st)
