-- ===== src/Param/Checker.antt =====
-- sentinel-core/param/param_flow_rule_checker.h and .cc: the check of the parameters against a rule.
use sentinel_cpp.Prelude.{
  ℕ, if◌then◌else◌, Bool, true, false, not, none, some, List, [], ◌∷◌, lt_int64, add_int, Double,
}
use sentinel_cpp.Param.Value.{AnyValue}
use sentinel_cpp.Param.Cache.{Cache}
use sentinel_cpp.Param.Rule.{
  ParamFlowRule, HotItems, ParamFlowMetricType, thread_count, qps, num, find_item,
}
use sentinel_cpp.Param.Bucket.{pass}
use sentinel_cpp.Param.Metric.{ParamMetric, get_interval, get_thread_count}

module _ {C D : Type 0} (ops : Cache C) ⦃d : Double D⦄ (hot : HotItems D) where
  -- The threshold of a value: its own, if it has one.
  abbrev pub threshold_for : ParamFlowRule D → AnyValue → ℕ
  threshold_for rule p = elim (find_item p (hot rule.parsed_hot_items)) [
    | none ↦ d.to_int rule.threshold
    | some t ↦ d.to_int t
  ]

  unfoldable pub check_for :
      ParamFlowMetricType
      → ParamFlowRule D
      → ℕ
      → AnyValue
      → ℕ
      → ParamMetric C
      → Bool × ParamMetric C
  check_for qps rule count p now m =
      let (cur, m') = get_interval ops rule.metric_key pass p now m in
      (not (lt_int64 (threshold_for rule p) (add_int count cur)), m')
  check_for thread_count rule count p now m =
      let (threads, m') = get_thread_count ops rule.param_idx p m in
      (not (lt_int64 (threshold_for rule p) (add_int threads 1)), m')
  check_for num rule count p now m = (true, m)

  unfoldable pub pass_single_value_check :
      ParamFlowRule D → ℕ → AnyValue → ℕ → ParamMetric C → Bool × ParamMetric C
  unfolding check_for
  pass_single_value_check rule count p now m = check_for rule.metric_type rule count p now m

  -- PassCheck, PassLocalCheck
  unfoldable pub pass_check :
      ParamFlowRule D → ℕ → List AnyValue → ℕ → ParamMetric C → Bool × ParamMetric C
  unfolding pass_single_value_check
  pass_check rule count [] now m = (true, m)
  pass_check rule count (p ∷ ps) now m =
      let (passes, m') = pass_single_value_check rule count p now m in
      let rest = pass_check rule count ps now m' in if not passes then (false, m') else rest
