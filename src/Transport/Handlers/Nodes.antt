-- ===== src/Transport/Handlers/Nodes.antt =====
-- What the command that reports the nodes reads, and what it leaves alone.
use sentinel_cpp.Prelude.{
  ℕ, ◌≡◌, refl, ◌∙◌, ap, arith, if◌then◌else◌, ◌||◌, not, Bool, true, false, List, [], ◌∷◌, map,
  String, lt_int64, Bool-cases, inl, inr, Double,
}
use sentinel_cpp.Stat.Bucket.{MetricEvent, pass, block, exception, complete}
use sentinel_cpp.Stat.Leap.{Millis}
use sentinel_cpp.Stat.Node.{
  StatisticNode, count_in_minute, total_count_in_minute, qps, total_qps, avg_rt,
}
use sentinel_cpp.Stat.Storage.{ClusterNode}
use sentinel_cpp.Log.Format.{Text}
use sentinel_cpp.Log.Text.{text_eq}
use sentinel_cpp.Transport.{CommandRequest, get_param, of_success, codes}
use sentinel_cpp.Transport.Handlers.{
  StatisticNodeVo, Platform, HandlerState, from_resource_node, report_node, report_nodes,
  fetch_cluster_node_handle, convert_node_vo_to_json,
}

-- What a node has besides its counters.
abbrev pub apart_of : StatisticNode → ℕ × Millis
apart_of n = (n.cur_thread_num, n.last_fetch_timestamp)

abbrev pub kept_of : String × ClusterNode → String × ℕ × Millis × List (String × StatisticNode)
kept_of (name, n) = (name, n.node.cur_thread_num, n.node.last_fetch_timestamp, n.tag_node_map)

module _ {D : Type 0} ⦃d : Double D⦄ (p : Platform D) where
  qps_keeps :
      (event : MetricEvent) (now : ℕ) (n : StatisticNode)
      → apart_of (qps {D = D} event now n).1 ≡ apart_of n
  unfolding qps
  qps_keeps event now n = refl

  total_qps_keeps :
      (now : ℕ) (n : StatisticNode) → apart_of (total_qps {D = D} now n).1 ≡ apart_of n
  unfolding total_qps
  total_qps_keeps now n = refl

  avg_rt_keeps : (now : ℕ) (n : StatisticNode) → apart_of (avg_rt {D = D} now n).1 ≡ apart_of n
  unfolding avg_rt
  avg_rt_keeps now n = ground arith

  count_keeps :
      (event : MetricEvent) (now : ℕ) (n : StatisticNode)
      → apart_of (count_in_minute event now n).1 ≡ apart_of n
  unfolding count_in_minute
  count_keeps event now n = refl

  total_count_keeps :
      (now : ℕ) (n : StatisticNode) → apart_of (total_count_in_minute now n).1 ≡ apart_of n
  unfolding total_count_in_minute
  total_count_keeps now n = refl

  from_resource_node_keeps :
      (now : ℕ) (name : String) (n : StatisticNode)
      → apart_of (from_resource_node p now name n).1 ≡ apart_of n
  unfolding from_resource_node
  from_resource_node_keeps now name n =
      let n1 = (qps {D = D} pass now n).1 in
      let n2 = (qps {D = D} block now n1).1 in
      let n3 = (total_qps {D = D} now n2).1 in
      let n4 = (avg_rt {D = D} now n3).1 in
      let n5 = (qps {D = D} complete now n4).1 in
      let n6 = (qps {D = D} exception now n5).1 in
      let n7 = (count_in_minute pass now n6).1 in
      let n8 = (count_in_minute block now n7).1 in
      let n9 = (total_count_in_minute now n8).1 in
      count_keeps exception now n9
      ∙ total_count_keeps now n8
      ∙ count_keeps block now n7
      ∙ count_keeps pass now n6
      ∙ qps_keeps exception now n5
      ∙ qps_keeps complete now n4
      ∙ avg_rt_keeps now n3
      ∙ total_qps_keeps now n2
      ∙ qps_keeps block now n1
      ∙ qps_keeps pass now n

  report_node_keeps :
      (now : ℕ) (not_zero : Bool) (name : String) (n : StatisticNode)
      → apart_of (report_node p now not_zero name n).1 ≡ apart_of n
  unfolding report_node
  report_node_keeps now false name n = from_resource_node_keeps now name n
  report_node_keeps now true name n =
      elim (Bool-cases (lt_int64 0 (total_count_in_minute now n).0)) [
        | inl e ↦
            rw (report_node, e)
              (from_resource_node_keeps now name (total_count_in_minute now n).1
                ∙ total_count_keeps now n)
        | inr e ↦ rw (report_node, e) (total_count_keeps now n)
      ]

  report_nodes_keeps :
      (now : ℕ) (not_zero : Bool) (nodes : List (String × ClusterNode))
      → map kept_of (report_nodes p now not_zero nodes).1 ≡ map kept_of nodes
  unfolding report_nodes
  report_nodes_keeps now not_zero [] = refl
  report_nodes_keeps now not_zero ((name, n) ∷ nodes) =
      let head =
        ap (λ (a : ℕ × Millis). (name, a.0, a.1, n.tag_node_map))
          (report_node_keeps now not_zero name n.node) in
      ap (λ e. e ∷ map kept_of (report_nodes p now not_zero nodes).1) head
      ∙ ap (◌∷◌ (kept_of (name, n))) (report_nodes_keeps now not_zero nodes)

  -- The nodes that are asked for: all, or those with a request in the last minute.
  abbrev pub asked_for : ℕ → Bool → List (String × ClusterNode) → List (String × ClusterNode)
  asked_for now not_zero [] = []
  asked_for now not_zero ((name, n) ∷ nodes) =
      if not not_zero || lt_int64 0 (total_count_in_minute now n.node).0
      then (name, n) ∷ asked_for now not_zero nodes
      else asked_for now not_zero nodes

  abbrev pub name_and_threads : String × ClusterNode → Text × ℕ
  name_and_threads (name, n) = (p.bytes name, n.node.cur_thread_num)

  abbrev pub shown : StatisticNodeVo → Text × ℕ
  shown v = (v.resource, v.thread_num)

  from_resource_node-shown :
      (now : ℕ) (name : String) (n : StatisticNode)
      → shown (from_resource_node p now name n).0 ≡ (p.bytes name, n.cur_thread_num)
  unfolding from_resource_node
  from_resource_node-shown now name n = refl

  report_nodes-shown :
      (now : ℕ) (not_zero : Bool) (nodes : List (String × ClusterNode))
      → map shown (report_nodes p now not_zero nodes).0
        ≡ map name_and_threads (asked_for now not_zero nodes)
  unfolding report_nodes report_node
  report_nodes-shown now not_zero [] = refl
  report_nodes-shown now false ((name, n) ∷ nodes) =
      ap (◌∷◌ (name_and_threads (name, n))) (report_nodes-shown now false nodes)
  report_nodes-shown now true ((name, n) ∷ nodes) =
      elim (Bool-cases (lt_int64 0 (total_count_in_minute now n.node).0)) [
        | inl e ↦
            rw (report_nodes, report_node, e)
              (ap
                  (λ (a : ℕ × Millis).
                    (p.bytes name, a.0) ∷ map shown (report_nodes p now true nodes).0)
                  (total_count_keeps now n.node)
                ∙ ap (◌∷◌ (name_and_threads (name, n))) (report_nodes-shown now true nodes))
        | inr e ↦ rw (report_nodes, report_node, e) (report_nodes-shown now true nodes)
      ]

  -- A request for the nodes is answered by the JSON text of the nodes that are asked for, each
  -- once, in the order of the storage and with its number of threads: those with a request that
  -- passed or was blocked in the last minute if the type is "notZero", and else all. It changes no
  -- thread number, no time of the last fetch and no tag node, and no node comes or goes.
  pub nodes_reported :
      (now : ℕ) (request : CommandRequest) (st : HandlerState)
      → let not_zero = text_eq (get_param (codes "type") request) (codes "notZero") in
        let (response, st') = fetch_cluster_node_handle p now request st in
        (vos : List StatisticNodeVo) × (response
          ≡ of_success (p.dump_json (map convert_node_vo_to_json vos)))
        × (map shown vos ≡ map name_and_threads (asked_for now not_zero st.storage.node_map))
        × (map kept_of st'.storage.node_map ≡ map kept_of st.storage.node_map)
        × (st'.storage.entry_node ≡ st.storage.entry_node)
        × (st'.activated ≡ st.activated)
        × (st'.searcher ≡ st.searcher)
  unfolding fetch_cluster_node_handle
  nodes_reported now request st =
      let not_zero = text_eq (get_param (codes "type") request) (codes "notZero") in
      (
        (report_nodes p now not_zero st.storage.node_map).0,
        refl,
        report_nodes-shown now not_zero st.storage.node_map,
        report_nodes_keeps now not_zero st.storage.node_map,
        refl,
        refl,
        refl,
      )
