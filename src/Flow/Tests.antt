-- ===== src/Flow/Tests.antt =====
-- A throttler that lets a request pass every 100 ms, and rules that an update filters.
use sentinel_cpp.Prelude.{ℕ, ◌+◌, ◌≡◌, ◌≤◌, ◌<◌, arith, false, List, [], ◌∷◌, Double, milli}
use sentinel_cpp.Slot.Token.{TokenResult, blocked}
use sentinel_cpp.Flow.Rule.{FlowRule, qps, direct, reject}
use sentinel_cpp.Flow.Throttle.{Throttler, schedule}
use sentinel_cpp.Flow.Throttle.Pace.{wait_of, schedule_pace}
use sentinel_cpp.Flow.Manager.{FlowRuleManager, config_update}
use sentinel_cpp.Flow.Manager.Under.{AllUnder}
use sentinel_cpp.Flow.Manager.Controllers.{IsServed, update_equips_rules}
use sentinel_cpp.Flow.Manager.Load.{AllLoaded, update_loads_valid}

instance abbrev thousandths : Double ℕ
thousandths = milli

abbrev busy : Throttler
busy = record { max_timeout = 500; last_passed_time = 5000 }

abbrev answer : TokenResult × Throttler
answer = schedule 5030 100 busy

schedule_pace_example :
    (answer.1.max_timeout ≡ 500)
    × ((answer.0.status ≡ blocked) → (answer.1.last_passed_time ≡ 5000) × (5030 + 500 < 5000 + 100))
    × (¬ (answer.0.status ≡ blocked)
        → (answer.1.last_passed_time ≡ 5030 + wait_of answer.0)
          × (wait_of answer.0 ≤ 500)
          × (5000 + 100 ≤ answer.1.last_passed_time))
schedule_pace_example =
    schedule_pace 5030 100 busy (omega arith) (omega arith) (omega arith) (omega arith)

abbrev limit : FlowRule ℕ
limit = record {
  resource = "shop";
  limit_origin = "";
  metric_type = qps;
  count = 20_000;
  strategy = direct;
  control_behavior = reject;
  ref_resource = "";
  warm_up_period_sec = 0;
  max_queueing_time_ms = 0;
  cluster_mode = false;
}

abbrev empty_manager : FlowRuleManager ℕ
empty_manager = record { rule_map = []; traffic_controller_map = [] }

-- The second rule has no resource, and the third is the first again.
abbrev rules : List (FlowRule ℕ)
rules = limit ∷ record limit { resource = "" } ∷ record limit { limit_origin = "default" } ∷ []

update_loads_valid_example : AllLoaded (config_update rules empty_manager).rule_map
update_loads_valid_example = update_loads_valid rules empty_manager

update_equips_rules_example :
    AllUnder
      (λ k r. IsServed thousandths (config_update rules empty_manager) r)
      (config_update rules empty_manager).rule_map
update_equips_rules_example = update_equips_rules (λ x h. ground arith) rules empty_manager
