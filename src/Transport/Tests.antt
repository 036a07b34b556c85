-- ===== src/Transport/Tests.antt =====
-- The commands of an agent with one resource and one file of metrics.
use sentinel_cpp.Prelude.{
  length, ℕ, ◌/◌, ◌≡◌, refl, arith, true, false, some, List, [], ◌∷◌, map, All, Double, milli,
}
use sentinel_cpp.Slot.Entry.{inbound}
use sentinel_cpp.Sph.{sph_u_entry}
use sentinel_cpp.Sph.Tests.{no_cache, world}
use sentinel_cpp.Log.Format.{Text}
use sentinel_cpp.Log.Text.{text_eq}
use sentinel_cpp.Log.Decimal.{print}
use sentinel_cpp.Log.Stream.{lines_of_text}
use sentinel_cpp.Log.Item.{legal_name, to_thin_string, from_thin_string}
use sentinel_cpp.Log.Tests.{decimal, decimal-IsFormat, read}
use sentinel_cpp.Log.Reader.Sorted.{wanted}
use sentinel_cpp.Log.Writer.{stamp}
use sentinel_cpp.Log.Searcher.{MetricSearcher, new_metric_searcher, find_by_time_and_resource}
use sentinel_cpp.Log.Searcher.Finds.{base_of, search_finds_written}
use sentinel_cpp.Log.Searcher.Tests.{
  host, passes, later, first_nodes, kept_items, after_calls, small-IsInt64, is_plain,
  is_plain-IsPlain, kept-IsInt64, kept-IsLine, only_file, short_lt, limit,
}
use sentinel_cpp.Transport.{CommandRequest, get_param, of_success, codes, find_key}
use sentinel_cpp.Transport.Uri.{Evhttp, bad_request, success_request}
use sentinel_cpp.Transport.Uri.Target.{last_value}
use sentinel_cpp.Transport.Handlers.{
  convert_node_vo_to_json, StatisticNodeVo, Platform, HandlerState, fetch_cluster_node_handle,
  fetch_metric_log_handle,
}
use sentinel_cpp.Transport.Handlers.Metric.{IsReadable, legal, fetched_items_read_back}
use sentinel_cpp.Transport.Handlers.Nodes.{
  shown, name_and_threads, asked_for, kept_of, nodes_reported,
}
use sentinel_cpp.Transport.Center.{new_center, all_commands, register_all, on_http_request}
use sentinel_cpp.Transport.Center.Routes.{request_of, routed, get_routed, post_unknown}
use sentinel_cpp.Transport.Center.Answers.{call_under, switch_governs_calls}

instance abbrev thousandths : Double ℕ
thousandths = milli

abbrev ev : Evhttp
ev = record { parse_query = λ uri. (codes "value", codes "false") ∷ []; printf = λ text. text }

abbrev agent : Platform ℕ
agent = record {
  format = decimal;
  simple_atoi32 = read;
  unset = 0;
  disk = after_calls;
  bytes = codes;
  to_int64 = λ x. x / 1000;
  dump_json = λ nodes. map length nodes;
}

abbrev searcher : MetricSearcher
searcher = new_metric_searcher host.base_dir (base_of host)

abbrev state : HandlerState
state = record { activated = true; storage = world.flow.storage; searcher = searcher }

get_routed_example :
    on_http_request ev agent 7000
      (record { uri = codes "/version?"; is_post = false; input_buffer = [] })
      (register_all all_commands new_center)
      state
    ≡ routed ev agent 7000
        (codes "version")
        (request_of ev agent (codes "version") (codes "/version?"))
        state
        (find_key (codes "version") (register_all all_commands new_center).handler_map)
get_routed_example =
    get_routed ev agent 7000 (codes "version") [] [] (register_all all_commands new_center) state
      (ground arith) (omega arith)

post_unknown_example :
    on_http_request ev agent 7000
      (record { uri = codes "/version"; is_post = true; input_buffer = [] })
      (register_all all_commands new_center)
      state
    ≡ some (bad_request ev (codes "Unknown command: "), state)
post_unknown_example =
    post_unknown ev agent 7000
      (record { uri = codes "/version"; is_post = true; input_buffer = [] }) all_commands state refl

switch_governs_calls_example :
    (st' : HandlerState) × (on_http_request ev agent 7000
        (record { uri = codes "/setSwitch?value=false"; is_post = false; input_buffer = [] })
        (register_all all_commands new_center)
        state
      ≡ some (success_request ev (codes "Sentinel has been disabled"), st'))
    × (on_http_request ev agent 7001
          (record { uri = codes "/getSwitch?"; is_post = false; input_buffer = [] })
          (register_all all_commands new_center)
          st'
        ≡ some (success_request ev (codes "Sentinel status: disabled"), st'))
    × (sph_u_entry no_cache st'.activated "shop" inbound world
        ≡ call_under no_cache ev agent false "shop" inbound world)
unfolding last_value
switch_governs_calls_example =
    switch_governs_calls no_cache ev agent false 7000 7001 (codes "value=false") [] [] [] state
      "shop" inbound world refl

abbrev no_zero : CommandRequest
no_zero = record { metadata = []; parameters = (codes "type", codes "notZero") ∷ []; body = [] }

nodes_reported_example :
    (vos : List StatisticNodeVo) × ((fetch_cluster_node_handle agent 7000 no_zero state).0
      ≡ of_success (agent.dump_json (map convert_node_vo_to_json vos)))
    × (map (shown agent) vos
        ≡ map (name_and_threads agent) (
            asked_for agent 7000
              (text_eq (get_param (codes "type") no_zero) (codes "notZero"))
              state.storage.node_map))
    × (map kept_of (fetch_cluster_node_handle agent 7000 no_zero state).1.storage.node_map
        ≡ map kept_of state.storage.node_map)
    × ((fetch_cluster_node_handle agent 7000 no_zero state).1.storage.entry_node
        ≡ state.storage.entry_node)
    × ((fetch_cluster_node_handle agent 7000 no_zero state).1.activated ≡ true)
    × ((fetch_cluster_node_handle agent 7000 no_zero state).1.searcher ≡ searcher)
nodes_reported_example = nodes_reported agent 7000 no_zero state

abbrev since_six : CommandRequest
since_six = record {
  metadata = [];
  parameters =
      (codes "startTime", codes "6000")
      ∷ (codes "endTime", codes "9000")
      ∷ (codes "identity", codes "x")
      ∷ [];
  body = [];
}

wanted-IsReadable : All (IsReadable agent) (wanted 6 9 (b'x' ∷ []) kept_items)
unfolding stamp legal_name to_thin_string print is_plain
wanted-IsReadable = (
  (
    small-IsInt64 7000 b'x' 4 (omega arith) (omega arith),
    is_plain-IsPlain b'\n' (to_thin_string decimal (record (passes b'x' 4) { timestamp = 7000 }))
        refl,
  ),
  tt,
)

searched :
    (s : MetricSearcher) × (find_by_time_and_resource decimal 0 after_calls 6000 9000
        (b'x' ∷ [])
        searcher
      ≡ some (wanted 6 9 (b'x' ∷ []) kept_items, s))
searched =
    search_finds_written decimal-IsFormat host 1000 2 4500 0 6000 9000 (b'x' ∷ []) 5000 first_nodes
      later [] 0 (omega arith)
      ((omega arith, refl), ((omega arith, refl), ((omega arith, refl), ((omega arith, refl), tt))))
      refl short_lt kept-IsInt64 kept-IsLine only_file limit

fetched_items_read_back_example :
    (result : Text) × (fetch_metric_log_handle agent since_six state
      ≡ some (of_success result, record state { searcher = searched.0 }))
    × (map (from_thin_string decimal) (lines_of_text result)
        ≡ map (λ item. some (legal agent item)) (wanted 6 9 (b'x' ∷ []) kept_items))
unfolding get_param read
fetched_items_read_back_example =
    fetched_items_read_back agent decimal-IsFormat since_six state 6000 9000
      (wanted 6 9 (b'x' ∷ []) kept_items) searched.0 refl refl refl refl searched.1
      wanted-IsReadable
