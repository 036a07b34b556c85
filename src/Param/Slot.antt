-- ===== src/Param/Slot.antt =====
-- sentinel-core/param/param_flow_slot.h and .cc: the metrics of the resources, and the slot.
pub mod Rules
use sentinel_cpp.Prelude.{
  ℕ, ◌==◌, if◌then◌else◌, Bool, true, false, not, Option, none, some, List, [], ◌∷◌, String, str_eq,
  lookup, insert, length, ltb, Double,
}
use sentinel_cpp.Slot.Token.{TokenResult, ok_result, blocked_result}
use sentinel_cpp.Slot.Entry.{Entry}
use sentinel_cpp.Slot.Statistic as Statistic
use sentinel_cpp.Param.Value.{AnyValue}
use sentinel_cpp.Param.Cache.{Cache}
use sentinel_cpp.Param.Rule.{ParamFlowRule, HotItems}
use sentinel_cpp.Param.Manager.{ParamFlowRuleManager, get_rule_of_resource}
use sentinel_cpp.Param.Bucket.{pass, block}
use sentinel_cpp.Param.Metric.{
  ParamMetric, new_param_metric, initialize_for_rule, add_param_event, add_thread_count,
  decrease_thread_count,
}
use sentinel_cpp.Param.Checker.{pass_check}

-- `metric_map_`
abbrev pub MetricMap : Type 0 → Type 0
MetricMap C = List (String × ParamMetric C)

-- ParamFlowSlot::GetParamMetric: `none` is the null pointer.
unfoldable pub get_param_metric : {C : Type 0} → String → MetricMap C → Option (ParamMetric C)
get_param_metric resource m = if str_eq resource "" then none else lookup resource m

module _ {C : Type 0} (ops : Cache C) where
  -- initHotParamMetricsFor
  unfoldable pub init_hot_param_metrics_for :
      {D : Type 0} → String → ParamFlowRule D → MetricMap C → MetricMap C
  init_hot_param_metrics_for resource rule m = elim (lookup resource m) [
    | none ↦ insert resource (initialize_for_rule ops rule.metric_key new_param_metric) m
    | some metric ↦ insert resource (initialize_for_rule ops rule.metric_key metric) m
  ]

  -- A call on the metric of a resource, where it has one.
  abbrev pub with_metric : String → (ParamMetric C → ParamMetric C) → MetricMap C → MetricMap C
  with_metric resource f m = elim (get_param_metric resource m) [
    | none ↦ m
    | some metric ↦ insert resource (f metric) m
  ]

  module _ {D : Type 0} ⦃d : Double D⦄ (hot : HotItems D) where
    -- One rule: a metric that is null would be dereferenced, and counts as passing here.
    unfoldable pub check_rule :
        String
        → ParamFlowRule D
        → ℕ
        → List AnyValue
        → ℕ
        → Option (ParamMetric C)
        → MetricMap C
        → Bool × MetricMap C
    check_rule resource rule count ps now none m = (true, m)
    check_rule resource rule count ps now (some metric) m =
        let (passes, metric') = pass_check ops hot rule count ps now metric in
        if not passes
        then (false, insert resource (add_param_event ops block count now ps metric') m)
        else (true, insert resource metric' m)

    -- The loop of `CheckFlow`.
    unfoldable pub check_rules :
        String
        → List (ParamFlowRule D)
        → ℕ
        → List AnyValue
        → ℕ
        → MetricMap C
        → TokenResult × MetricMap C
    unfolding check_rule
    check_rules resource [] count ps now m = (ok_result, m)
    check_rules resource (rule ∷ rules) count ps now m =
        let m' = init_hot_param_metrics_for resource rule m in
        let (passes, m'') =
          check_rule resource rule count ps now (get_param_metric resource m') m' in
        let rest = check_rules resource rules count ps now m'' in
        if passes then rest else (blocked_result "param exception", m'')

  module _ {D : Type 0} ⦃d : Double D⦄ where
    unfoldable pub check_flow :
        String
        → ParamFlowRuleManager D
        → ℕ
        → List AnyValue
        → ℕ
        → MetricMap C
        → TokenResult × MetricMap C
    unfolding check_rules get_rule_of_resource
    check_flow resource manager count ps now m = elim (get_rule_of_resource resource manager) [
      | none ↦ (ok_result, m)
      | some rules ↦ check_rules manager.hot_items resource rules count ps now m
    ]

    -- ParamFlowSlot::Entry
    unfoldable pub param_slot_entry :
        Entry
        → ParamFlowRuleManager D
        → ℕ
        → List AnyValue
        → ℕ
        → MetricMap C
        → TokenResult × MetricMap C
    unfolding check_flow
    param_slot_entry e manager count ps now m =
        if ltb 0 (length manager.rule_map)
        then check_flow e.resource manager count ps now m
        else (ok_result, m)

  -- What the statistic slot calls, for the parameters of a call at a time.
  abbrev pub metric_calls : List AnyValue → ℕ → Statistic.ParamMetric (MetricMap C)
  metric_calls ps now = record {
    add_pass = λ resource count m. with_metric resource (add_param_event ops pass count now ps) m;
    add_thread_count = λ resource m. with_metric resource (add_thread_count ops ps) m;
    decrease_thread_count = λ resource m. with_metric resource (decrease_thread_count ops ps) m;
  }
