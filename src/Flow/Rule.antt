-- ===== src/Flow/Rule.antt =====
-- sentinel-core/flow/flow_rule_constants.h, flow_rule.h, flow_rule.cc, common/rule.h, and
-- IsValidRule of flow_rule_manager.cc. An `int32_t` field is the 64-bit pattern of its value.
pub mod Equality
use sentinel_cpp.Prelude.{
  ℕ, ◌==◌, if◌then◌else◌, Bool, true, false, not, ◌&&◌, ◌||◌, String, str_eq, is_nonpos_int64,
  Double,
}

pub data FlowMetricType : Type 0 where
  thread_count qps : FlowMetricType

pub data FlowRelationStrategy : Type 0 where
  direct associated_resource invocation_chain_entrance : FlowRelationStrategy

pub data FlowControlBehavior : Type 0 where
  reject warm_up throtting warm_up_throttling : FlowControlBehavior

-- Constants::kLimitOriginDefault, kLimitOriginOther
abbrev pub limit_origin_default : String
limit_origin_default = "default"

abbrev pub limit_origin_other : String
limit_origin_other = "other"

pub record FlowRule (D : Type 0) : Type 0 where
  pub resource : String
  pub limit_origin : String
  pub metric_type : FlowMetricType
  pub count : D
  pub strategy : FlowRelationStrategy
  pub control_behavior : FlowControlBehavior
  pub ref_resource : String
  pub warm_up_period_sec : ℕ
  pub max_queueing_time_ms : ℕ
  pub cluster_mode : Bool

abbrev pub empty : String → Bool
empty s = str_eq s ""

-- Rule::LimitOriginEquals
unfoldable pub limit_origin_equals : String → String → Bool
limit_origin_equals lhs rhs =
    if empty lhs
    then empty rhs || str_eq rhs limit_origin_default
    else if str_eq lhs limit_origin_default
    then empty rhs || str_eq rhs limit_origin_default
    else str_eq lhs rhs

abbrev pub same_metric : FlowMetricType → FlowMetricType → Bool
same_metric thread_count thread_count = true
same_metric qps qps = true
same_metric _ _ = false

abbrev pub same_strategy : FlowRelationStrategy → FlowRelationStrategy → Bool
same_strategy direct direct = true
same_strategy associated_resource associated_resource = true
same_strategy invocation_chain_entrance invocation_chain_entrance = true
same_strategy _ _ = false

abbrev pub same_behavior : FlowControlBehavior → FlowControlBehavior → Bool
same_behavior reject reject = true
same_behavior warm_up warm_up = true
same_behavior throtting throtting = true
same_behavior warm_up_throttling warm_up_throttling = true
same_behavior _ _ = false

abbrev pub same_bool : Bool → Bool → Bool
same_bool true b = b
same_bool false b = not b

module _ {D : Type 0} ⦃d : Double D⦄ where
  -- FlowRule::operator==
  unfoldable pub flow_rule_eq : FlowRule D → FlowRule D → Bool
  unfolding limit_origin_equals
  flow_rule_eq a b =
      str_eq a.resource b.resource
      && limit_origin_equals a.limit_origin b.limit_origin
      && same_metric a.metric_type b.metric_type
      && d.eq a.count b.count
      && same_strategy a.strategy b.strategy
      && str_eq a.ref_resource b.ref_resource
      && same_behavior a.control_behavior b.control_behavior
      && a.warm_up_period_sec == b.warm_up_period_sec
      && a.max_queueing_time_ms == b.max_queueing_time_ms
      && same_bool a.cluster_mode b.cluster_mode

  -- The check of the control behaviour.
  cb_valid : FlowRule D → FlowControlBehavior → Bool
  cb_valid r warm_up = not (is_nonpos_int64 r.warm_up_period_sec)
  cb_valid r throtting = not (is_nonpos_int64 r.max_queueing_time_ms)
  cb_valid r _ = true

  unfoldable pub is_valid_rule : FlowRule D → Bool
  unfolding cb_valid
  is_valid_rule r =
      if not (not (empty r.resource) && d.le (d.of_int64 0) r.count)
      then false
      else let rel =
          same_strategy r.strategy associated_resource
          || same_strategy r.strategy invocation_chain_entrance in
        (not rel || not (empty r.ref_resource)) && cb_valid r r.control_behavior
