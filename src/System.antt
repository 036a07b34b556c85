-- ===== src/System.antt =====
-- sentinel-core/system: system_rule.h, system_rule_manager.h and .cc, system_slot.h and .cc: limits
-- on all inbound traffic together. An unordered map is a list; the load and the processor usage that
-- the status listener reads are parameters.
pub mod Strictest
pub mod Threads
pub mod Status
mod Tests
use sentinel_cpp.Prelude.{
  ℕ, if◌then◌else◌, Bool, true, false, not, ◌&&◌, Option, none, some, List, [], ◌∷◌, Double,
}
use sentinel_cpp.Stat.Bucket.{pass}
use sentinel_cpp.Stat.Node.{StatisticNode, qps, avg_rt, max_complete_qps, node_min_rt}
use sentinel_cpp.Stat.Storage.{ResourceNodeStorage, entry_node_ref, modify_node}
use sentinel_cpp.Slot.Token.{TokenResult, ok_result, blocked_result}
use sentinel_cpp.Slot.Entry.{Entry, EntryType, inbound, outbound}

pub data MetricType : Type 0 where
  system_load rt concurrency pass_qps cpu_usage : MetricType

pub record SystemRule (D : Type 0) : Type 0 where
  pub metric_type : MetricType
  pub threshold : D

abbrev pub same_type : MetricType → MetricType → Bool
same_type system_load system_load = true
same_type rt rt = true
same_type concurrency concurrency = true
same_type pass_qps pass_qps = true
same_type cpu_usage cpu_usage = true
same_type _ _ = false

module _ {D : Type 0} where
  -- `find` on the map from a metric to its rule.
  abbrev pub find_rule : MetricType → List (MetricType × D) → Option D
  find_rule k [] = none
  find_rule k ((j, t) ∷ m) = if same_type j k then some t else find_rule k m

  -- `set_threshold` on the rule found.
  abbrev pub set_threshold : MetricType → D → List (MetricType × D) → List (MetricType × D)
  set_threshold k t [] = []
  set_threshold k t ((j, u) ∷ m) =
      if same_type j k then (j, t) ∷ m else (j, u) ∷ set_threshold k t m

module _ {D : Type 0} ⦃d : Double D⦄ where
  valid_threshold : MetricType → D → Bool
  valid_threshold cpu_usage t = d.le (d.of_int64 0) t && d.le t (d.of_int64 1)
  valid_threshold _ t = d.le (d.of_int64 0) t

  unfoldable pub is_valid_rule : SystemRule D → Bool
  unfolding valid_threshold
  is_valid_rule rule = valid_threshold rule.metric_type rule.threshold

  -- One rule of the loop of `ConfigUpdate`.
  pub add_rule : SystemRule D → List (MetricType × D) → List (MetricType × D)
  unfolding is_valid_rule
  add_rule rule m = if not (is_valid_rule rule) then m else elim (find_rule rule.metric_type m) [
    | none ↦ (rule.metric_type, rule.threshold) ∷ m
    | some t ↦ if d.lt rule.threshold t then set_threshold rule.metric_type rule.threshold m else m
  ]

  pub add_rules : List (SystemRule D) → List (MetricType × D) → List (MetricType × D)
  add_rules [] m = m
  add_rules (rule ∷ rules) m = add_rules rules (add_rule rule m)

  -- SystemPropertyListener::ConfigUpdate: the new `rule_map_`.
  unfoldable pub config_update : List (SystemRule D) → List (MetricType × D)
  unfolding add_rules
  config_update values = add_rules values []

  -- CheckBbr
  unfoldable pub check_bbr : D → ℕ → StatisticNode → Bool × StatisticNode
  check_bbr threads now own =
      if d.lt (d.of_int64 1) threads
      then (let (most, n') = max_complete_qps now own in
          let (lowest, n'') = node_min_rt now n' in
          (not (d.lt (d.div (d.mul most lowest) (d.of_int64 1000)) threads), n''))
      else (true, own)

  -- The case of the switch of `CheckSystem` for one rule: whether it lets the request pass.
  pub check_metric : D → D → ℕ → ℕ → MetricType → D → StatisticNode → Bool × StatisticNode
  unfolding check_bbr
  check_metric load usage now acquire_count pass_qps threshold own =
      let (cur, n') = qps pass now own in
      (not (d.lt threshold (d.add cur (d.of_int64 acquire_count))), n')
  check_metric load usage now acquire_count concurrency threshold own = (
    not (d.lt threshold (d.add (d.of_uint32 own.cur_thread_num) (d.of_int64 acquire_count))),
    own,
  )
  check_metric load usage now acquire_count rt threshold own =
      let (cur, n') = avg_rt now own in (not (d.lt threshold cur), n')
  check_metric load usage now acquire_count system_load threshold own =
      if d.lt threshold load
      then check_bbr (d.of_uint32 own.cur_thread_num) now own
      else (true, own)
  check_metric load usage now acquire_count cpu_usage threshold own =
      if d.lt threshold usage
      then check_bbr (d.of_uint32 own.cur_thread_num) now own
      else (true, own)

  unfoldable pub check_system :
      D → D → ℕ → ℕ → List (MetricType × D) → StatisticNode → TokenResult × StatisticNode
  unfolding check_metric
  check_system load usage now acquire_count [] own = (ok_result, own)
  check_system load usage now acquire_count ((k, threshold) ∷ m) own =
      let (passes, n') = check_metric load usage now acquire_count k threshold own in
      let rest = check_system load usage now acquire_count m n' in
      if passes then rest else (blocked_result "SystemException", n')

  -- SystemSlot::Entry
  unfoldable pub system_slot_entry :
      D
      → D
      → ℕ
      → Entry
      → ℕ
      → List (MetricType × D)
      → ResourceNodeStorage
      → TokenResult × ResourceNodeStorage
  unfolding check_system
  system_slot_entry load usage now e count rule_map s = elim e.entry_type [
    | inbound ↦
        let (r, n') = check_system load usage now count rule_map s.entry_node.node in
        (r, modify_node (λ _. n') entry_node_ref s)
    | outbound ↦ (ok_result, s)
  ]
