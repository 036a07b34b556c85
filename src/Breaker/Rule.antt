-- ===== src/Breaker/Rule.antt =====
-- sentinel-core/circuitbreaker/rule.h, rule.cc, and IsValidRule of rule_manager.cc. An `int32_t`
-- field is the 64-bit pattern of its value, as the comparisons widen it.
use sentinel_cpp.Prelude.{
  ℕ, ◌==◌, if◌then◌else◌, Bool, true, false, not, ◌&&◌, ◌||◌, String, str_eq, lt_int64,
  is_nonpos_int64, Double,
}

pub data Strategy : Type 0 where
  slow_rt_ratio error_ratio error_count : Strategy

pub record Rule (D : Type 0) : Type 0 where
  pub resource : String
  pub strategy : Strategy
  pub threshold : D
  pub retry_timeout_sec : ℕ
  pub min_request_amount : ℕ
  pub stat_interval_ms : ℕ
  pub max_allowed_rt : ℕ

abbrev pub same_strategy : Strategy → Strategy → Bool
same_strategy slow_rt_ratio slow_rt_ratio = true
same_strategy error_ratio error_ratio = true
same_strategy error_count error_count = true
same_strategy _ _ = false

abbrev pub is_empty : String → Bool
is_empty s = str_eq s ""

module _ {D : Type 0} ⦃d : Double D⦄ where
  -- CircuitBreaker::Rule::operator==
  unfoldable pub rule_eq : Rule D → Rule D → Bool
  rule_eq a b =
      str_eq a.resource b.resource
      && d.eq a.threshold b.threshold
      && same_strategy a.strategy b.strategy
      && a.retry_timeout_sec == b.retry_timeout_sec
      && a.min_request_amount == b.min_request_amount
      && a.stat_interval_ms == b.stat_interval_ms
      && a.max_allowed_rt == b.max_allowed_rt

  valid_strategy : Rule D → Strategy → Bool
  valid_strategy r slow_rt_ratio =
      not (lt_int64 r.max_allowed_rt 0) && d.le r.threshold (d.of_int64 1)
  valid_strategy r error_ratio = d.le r.threshold (d.of_int64 1)
  valid_strategy r error_count = true

  unfoldable pub is_valid_rule : Rule D → Bool
  unfolding valid_strategy
  is_valid_rule r =
      if not (not (is_empty r.resource) && d.le (d.of_int64 0) r.threshold)
      then false
      else if is_nonpos_int64 r.retry_timeout_sec
          || is_nonpos_int64 r.stat_interval_ms
          || lt_int64 r.min_request_amount 0
      then false
      else valid_strategy r r.strategy
