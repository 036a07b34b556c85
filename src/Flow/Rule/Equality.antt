-- ===== src/Flow/Rule/Equality.antt =====
-- The equality of flow rules (sentinel-core/flow/flow_rule.h, flow_rule.cc), field by field.
use sentinel_cpp.Prelude.{◌≡◌, refl, arith, Bool, true, false, String, str_eq, eq_iff}
use sentinel_cpp.Flow.Rule.{
  FlowMetricType, qps, thread_count, FlowRelationStrategy, direct, associated_resource,
  invocation_chain_entrance, FlowControlBehavior, reject, warm_up, throtting, warm_up_throttling,
  same_metric, same_strategy, same_behavior, same_bool, limit_origin_equals,
}

pub same_metric-≡ : (a b : FlowMetricType) → same_metric a b ≡ true → a ≡ b
same_metric-≡ thread_count thread_count h = refl
same_metric-≡ qps qps h = refl
same_metric-≡ thread_count qps h = absurd (ground (arith, h))
same_metric-≡ qps thread_count h = absurd (ground (arith, h))

pub same_metric_refl : (a : FlowMetricType) → same_metric a a ≡ true
same_metric_refl thread_count = refl
same_metric_refl qps = refl

pub same_strategy_refl : (a : FlowRelationStrategy) → same_strategy a a ≡ true
same_strategy_refl direct = refl
same_strategy_refl associated_resource = refl
same_strategy_refl invocation_chain_entrance = refl

pub same_behavior_refl : (a : FlowControlBehavior) → same_behavior a a ≡ true
same_behavior_refl reject = refl
same_behavior_refl warm_up = refl
same_behavior_refl throtting = refl
same_behavior_refl warm_up_throttling = refl

pub same_bool_refl : (a : Bool) → same_bool a a ≡ true
same_bool_refl true = refl
same_bool_refl false = refl

pub str_eq_refl : (s : String) → str_eq s s ≡ true
str_eq_refl s = (eq_iff s s).1 refl

pub limit_origin_equals_refl : (s : String) → limit_origin_equals s s ≡ true
unfolding limit_origin_equals
limit_origin_equals_refl s = ground (arith, str_eq_refl s)
