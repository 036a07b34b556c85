-- ===== src/Breaker/Manager/Tests.antt =====
-- Two breakers of one resource.
use sentinel_cpp.Prelude.{ℕ, ◌≡◌, true, get_elem?, refl, List, [], ◌∷◌, All, arith, milli, Double}
use sentinel_cpp.Breaker.Rule.{Rule, error_ratio, slow_rt_ratio, is_valid_rule, rule_eq}
use sentinel_cpp.Breaker.Error.{new_error_breaker}
use sentinel_cpp.Breaker.ResponseTime.{new_response_time_breaker}
use sentinel_cpp.Breaker.CircuitBreaker.{
  CircuitBreaker, error_breaker, response_time_breaker, try_pass,
}
use sentinel_cpp.Breaker.Manager.{
  RuleManager, try_all, config_update, get_circuit_breakers, find_same,
}
use sentinel_cpp.Breaker.Manager.Place.{contains}
use sentinel_cpp.Breaker.Manager.Unchanged.{unchanged_keeps_breaker}
use sentinel_cpp.Breaker.Manager.Checks.{NotOpenAt, none_open_after_pass}

instance abbrev thousandths : Double ℕ
thousandths = milli

abbrev half_errors : Rule ℕ
half_errors = record {
  resource = "shop";
  strategy = error_ratio;
  threshold = 500;
  retry_timeout_sec = 10;
  min_request_amount = 2;
  stat_interval_ms = 1000;
  max_allowed_rt = 0;
}

abbrev heap : List (CircuitBreaker ℕ)
heap =
    error_breaker (new_error_breaker half_errors)
    ∷ response_time_breaker (
        new_response_time_breaker
          (record half_errors { strategy = slow_rt_ratio; max_allowed_rt = 50 }))
    ∷ []

none_open_after_pass_example : All (NotOpenAt (try_all 2000 (0 ∷ 1 ∷ []) heap).1) (0 ∷ 1 ∷ [])
unfolding try_all try_pass new_error_breaker new_response_time_breaker
none_open_after_pass_example = none_open_after_pass 2000 (0 ∷ 1 ∷ []) heap refl

abbrev manager : RuleManager ℕ
manager = record { rule_map = []; cb_map = ("shop", 0 ∷ 1 ∷ []) ∷ []; heap = heap }

unchanged_keeps_breaker_example :
    (contains 0 (
        get_circuit_breakers "shop"
          (config_update (record half_errors { resource = "cart" } ∷ half_errors ∷ []) manager))
      ≡ true)
    × (get_elem?
          (config_update (record half_errors { resource = "cart" } ∷ half_errors ∷ []) manager).heap
          0
        ≡ get_elem? heap 0)
unfolding is_valid_rule rule_eq find_same get_circuit_breakers new_error_breaker
unchanged_keeps_breaker_example =
    unchanged_keeps_breaker 0 half_errors (record half_errors { resource = "cart" } ∷ []) [] manager
      ((omega arith, (omega arith, tt)), tt) refl refl
