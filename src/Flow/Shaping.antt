-- ===== src/Flow/Shaping.antt =====
-- sentinel-core/flow/default_traffic_shaping_calculator.cc, default_traffic_shaping_checker.cc and
-- traffic_shaping_controller.cc: a calculator gives the allowed tokens, a checker decides on them.
use sentinel_cpp.Prelude.{ℕ, if◌then◌else◌, Option, Double}
use sentinel_cpp.Stat.Bucket.{pass}
use sentinel_cpp.Stat.Node
use sentinel_cpp.Stat.Storage.{ResourceNodeStorage, NodeRef, call_node}
use sentinel_cpp.Slot.Token.{TokenResult, ok_result, blocked_result}
use sentinel_cpp.Flow.Rule.{FlowMetricType, thread_count, qps}
use sentinel_cpp.Flow.Throttle.{Throttler, do_check}

-- DefaultTrafficShapingCalculator
pub record DefaultCalculator (D : Type 0) : Type 0 where
  pub threshold : D

-- TrafficShapingChecker, over its implementations.
pub data Checker : Type 0 where
  default_checker : FlowMetricType → Checker
  throttling_checker : Throttler → Checker

-- TrafficShapingController
pub record Controller (D : Type 0) : Type 0 where
  pub calculator : DefaultCalculator D
  pub action_checker : Checker

module _ {D : Type 0} ⦃d : Double D⦄ where
  -- DefaultTrafficShapingCalculator::CalculateAllowedTokens
  unfoldable pub calculate_allowed_tokens : DefaultCalculator D → D
  calculate_allowed_tokens c = c.threshold

  -- What the checker compares: nothing without a own.
  unfoldable pub cur_pass :
      FlowMetricType → ℕ → Option NodeRef → ResourceNodeStorage → D × ResourceNodeStorage
  cur_pass thread_count now own s =
      call_node (λ n. (d.of_uint32 n.cur_thread_num, n)) (d.of_int64 0) own s
  cur_pass qps now own s = call_node (Node.qps pass now) (d.of_int64 0) own s

  -- DefaultTrafficShapingChecker::DoCheck
  unfoldable pub default_do_check :
      FlowMetricType
      → ℕ
      → Option NodeRef
      → ℕ
      → D
      → ResourceNodeStorage
      → TokenResult × ResourceNodeStorage
  unfolding cur_pass
  default_do_check mode now own acquire_count threshold s =
      let (cur, s') = cur_pass mode now own s in
      (
        if d.lt threshold (d.add cur (d.of_int64 acquire_count))
            then blocked_result "FlowException"
            else ok_result,
        s',
      )

  -- The checker's answer, with what it leaves of itself and of the nodes.
  unfoldable pub check :
      Checker
      → ℕ
      → Option NodeRef
      → ℕ
      → D
      → ResourceNodeStorage
      → TokenResult × Checker × ResourceNodeStorage
  unfolding default_do_check do_check
  check (default_checker mode) now own acquire_count threshold s =
      let (r, s') = default_do_check mode now own acquire_count threshold s in
      (r, default_checker mode, s')
  check (throttling_checker t) now own acquire_count threshold s =
      let (r, t') = do_check now acquire_count threshold t in (r, throttling_checker t', s)

  -- TrafficShapingController::CanPass
  unfoldable pub can_pass :
      ℕ
      → Option NodeRef
      → ℕ
      → Controller D
      → ResourceNodeStorage
      → TokenResult × Controller D × ResourceNodeStorage
  unfolding check calculate_allowed_tokens
  can_pass now own acquire_count c s =
      let (r, k, s') =
        check c.action_checker now own acquire_count (calculate_allowed_tokens c.calculator) s in
      (r, record c { action_checker = k }, s')
