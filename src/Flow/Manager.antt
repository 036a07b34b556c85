-- ===== src/Flow/Manager.antt =====
-- sentinel-core/flow/flow_rule_manager.h and flow_rule_manager.cc: the rules in force, and their
-- traffic controllers. Unordered containers are lists; their iteration order is that of insertion.
pub mod Controllers
pub mod Load
pub mod Under
use sentinel_cpp.Prelude.{
  ℕ, if◌then◌else◌, Bool, true, false, not, ◌||◌, Option, none, some, List, [], ◌∷◌, ◌++◌, String,
  str_eq, lookup, insert, Double,
}
use sentinel_cpp.Flow.Rule.{
  FlowRule, FlowMetricType, FlowControlBehavior, qps, thread_count, warm_up, throtting,
  limit_origin_default, empty, flow_rule_eq, is_valid_rule,
}
use sentinel_cpp.Flow.Shaping.{Controller, default_checker}

pub record FlowRuleManager (D : Type 0) : Type 0 where
  pub rule_map : List (String × List (FlowRule D))
  pub traffic_controller_map : List (FlowRule D × Controller D)

module _ {D : Type 0} where
  unfoldable pub has_rules : String → FlowRuleManager D → Bool
  has_rules resource m = elim (lookup resource m.rule_map) [ none ↦ false | some rs ↦ true ]

  concat_rules : List (String × List (FlowRule D)) → List (FlowRule D)
  concat_rules [] = []
  concat_rules ((k, rs) ∷ rest) = rs ++ concat_rules rest

  unfoldable pub get_rules : FlowRuleManager D → List (FlowRule D)
  unfolding concat_rules
  get_rules m = concat_rules m.rule_map

  unfoldable pub get_rules_for_resource : String → FlowRuleManager D → List (FlowRule D)
  get_rules_for_resource resource m = elim (lookup resource m.rule_map) [ none ↦ [] | some rs ↦ rs ]

  create_default_controller : FlowRule D → Controller D
  create_default_controller rule = record {
    calculator = record { threshold = rule.count };
    action_checker = default_checker rule.metric_type;
  }

  generate_for : FlowMetricType → FlowControlBehavior → FlowRule D → Controller D
  unfolding create_default_controller
  generate_for qps warm_up rule = create_default_controller rule
  generate_for qps throtting rule = create_default_controller rule
  generate_for qps _ rule = create_default_controller rule
  generate_for thread_count _ rule = create_default_controller rule

  -- GenerateController: the cases for warming up and throttling are not written, and fall through.
  unfoldable pub generate_controller : FlowRule D → Controller D
  unfolding generate_for
  generate_controller rule = generate_for rule.metric_type rule.control_behavior rule

  -- Whether a rule of the list has the tag for its origin.
  has_origin : String → List (FlowRule D) → Bool
  has_origin tag [] = false
  has_origin tag (rule ∷ rules) = str_eq rule.limit_origin tag || has_origin tag rules

  unfoldable pub is_tag_not_in_flow_rule_list : String → String → FlowRuleManager D → Bool
  unfolding has_origin
  is_tag_not_in_flow_rule_list resource_name tag m =
      if empty tag then false else elim (lookup resource_name m.rule_map) [
        | none ↦ true
        | some rules ↦ not (has_origin tag rules)
      ]

  -- The construction of `new_rule_map`.
  pub add_rule : FlowRule D → List (String × List (FlowRule D)) → List (String × List (FlowRule D))
  add_rule rule m = elim (lookup rule.resource m) [
    | none ↦ insert rule.resource (rule ∷ []) m
    | some rules ↦ insert rule.resource (rules ++ rule ∷ []) m
  ]

  abbrev pub normalise : FlowRule D → FlowRule D
  normalise rule =
      if empty rule.limit_origin then record rule { limit_origin = limit_origin_default } else rule

module _ {D : Type 0} ⦃d : Double D⦄ where
  -- Whether the set has the rule, by `==`.
  contains : FlowRule D → List (FlowRule D) → Bool
  contains rule [] = false
  contains rule (r ∷ rs) = flow_rule_eq r rule || contains rule rs

  -- `tmp_set`: the valid rules, with the default origin filled in, each once.
  unfoldable pub collect : List (FlowRule D) → List (FlowRule D) → List (FlowRule D)
  unfolding contains
  collect [] set = set
  collect (rule ∷ rules) set = collect rules (
      if not (is_valid_rule rule)
      then set
      else if contains (normalise rule) set
      then set
      else set ++ normalise rule ∷ [])

  find_controller : FlowRule D → List (FlowRule D × Controller D) → Option (Controller D)
  find_controller rule [] = none
  find_controller rule ((r, c) ∷ rest) =
      if flow_rule_eq r rule then some c else find_controller rule rest

  unfoldable pub get_traffic_controller_for : FlowRule D → FlowRuleManager D → Option (Controller D)
  unfolding find_controller
  get_traffic_controller_for rule m = find_controller rule m.traffic_controller_map

  -- The state of a controller changes in place.
  unfoldable pub put_controller :
      FlowRule D
      → Controller D
      → List (FlowRule D × Controller D)
      → List (FlowRule D × Controller D)
  put_controller rule c [] = []
  put_controller rule c ((r, k) ∷ rest) =
      if flow_rule_eq r rule then (r, c) ∷ rest else (r, k) ∷ put_controller rule c rest

  -- The loop over `tmp_set`.
  build : List (FlowRule D) → FlowRuleManager D → FlowRuleManager D
  unfolding add_rule generate_controller find_controller
  build [] m = m
  build (rule ∷ rules) m = build rules (record {
    rule_map = add_rule rule m.rule_map;
    traffic_controller_map = elim (find_controller rule m.traffic_controller_map) [
      | none ↦ m.traffic_controller_map ++ (rule, generate_controller rule) ∷ []
      | some c ↦ m.traffic_controller_map
    ];
  })

  -- FlowPropertyListener::ConfigUpdate
  unfoldable pub config_update : List (FlowRule D) → FlowRuleManager D → FlowRuleManager D
  unfolding build
  config_update [] m = record { rule_map = []; traffic_controller_map = [] }
  config_update (r ∷ rs) m =
      build (collect (r ∷ rs) []) (record { rule_map = []; traffic_controller_map = [] })
