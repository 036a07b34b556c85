-- ===== src/Param/Manager.antt =====
-- sentinel-core/param/param_flow_rule_manager.h and .cc: the rules in force for each resource.
pub mod Load
use sentinel_cpp.Prelude.{
  if◌then◌else◌, not, Option, none, some, List, [], ◌∷◌, ◌++◌, String, lookup, insert, Double,
}
use sentinel_cpp.Param.Rule.{ParamFlowRule, HotItems, is_valid_rule, fill_exception_flow_items}

-- `rule_map_`, and the maps of hot items of all rules.
pub record ParamFlowRuleManager (D : Type 0) : Type 0 where
  pub rule_map : List (String × List (ParamFlowRule D))
  pub hot_items : HotItems D

module _ {D : Type 0} where
  unfoldable pub get_rule_of_resource :
      String → ParamFlowRuleManager D → Option (List (ParamFlowRule D))
  get_rule_of_resource resource m = lookup resource m.rule_map

  -- `insert` of an empty list, which an existing one is kept before, and the `push_back`.
  abbrev pub push_rule :
      ParamFlowRule D
      → List (String × List (ParamFlowRule D))
      → List (String × List (ParamFlowRule D))
  push_rule rule m = elim (lookup rule.resource m) [
    | none ↦ insert rule.resource (rule ∷ []) m
    | some rules ↦ insert rule.resource (rules ++ rule ∷ []) m
  ]

module _ {D : Type 0} ⦃d : Double D⦄ where
  -- AggregatedHotParamRules, from the new map that is built so far.
  unfoldable pub aggregated_hot_param_rules :
      List (ParamFlowRule D) → ParamFlowRuleManager D → ParamFlowRuleManager D
  aggregated_hot_param_rules [] m = m
  aggregated_hot_param_rules (rule ∷ rules) m = aggregated_hot_param_rules rules (
      if not (is_valid_rule rule) then m else record {
        rule_map = push_rule rule m.rule_map;
        hot_items = fill_exception_flow_items rule m.hot_items;
      })

  -- ParamPropertyListener::ConfigUpdate
  unfoldable pub config_update :
      List (ParamFlowRule D) → ParamFlowRuleManager D → ParamFlowRuleManager D
  unfolding aggregated_hot_param_rules
  config_update value m = aggregated_hot_param_rules value (record m { rule_map = [] })
