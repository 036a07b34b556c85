-- ===== src/Sph/Named.antt =====
-- Each slot that blocks a call names its reason.
use sentinel_cpp.Prelude.{
  ℕ, ◌+◌, ◌≡◌, refl, arith, if◌then◌else◌, Bool, true, false, not, Option, none, some, List, [],
  ◌∷◌, String, str_eq, length, ltb, Double, Bool-cases, inl, inr,
}
use sentinel_cpp.Stat.Node.{StatisticNode}
use sentinel_cpp.Stat.Storage.{ResourceNodeStorage, NodeRef}
use sentinel_cpp.Slot.Token.{TokenResult, ok_result, is_blocked}
use sentinel_cpp.Slot.Entry.{Entry, EntryContext}
use sentinel_cpp.System.{MetricType, check_metric, check_system, system_slot_entry}
use sentinel_cpp.Flow.Rule.{FlowRule, empty}
use sentinel_cpp.Flow.Manager.{get_traffic_controller_for, get_rules_for_resource}
use sentinel_cpp.Flow.Throttle.{Throttler, schedule, do_check}
use sentinel_cpp.Flow.Shaping.{
  Controller, Checker, default_checker, throttling_checker, default_do_check, check, can_pass,
  calculate_allowed_tokens,
}
use sentinel_cpp.Flow.Checker.{
  FlowState, select_node, pass_with, pass_local_check, can_pass_check, wait_for, check_rules,
  flow_slot_entry,
}
use sentinel_cpp.Breaker.Manager.{RuleManager, checker_slot_entry}
use sentinel_cpp.Param.Value.{AnyValue}
use sentinel_cpp.Param.Cache.{Cache}
use sentinel_cpp.Param.Rule.{ParamFlowRule, HotItems}
use sentinel_cpp.Param.Manager.{ParamFlowRuleManager, get_rule_of_resource}
use sentinel_cpp.Param.Slot as ParamSlot

-- A blocked result with a reason that is not empty, or one that is not blocked.
abbrev pub named : TokenResult → Bool
named t =
    if is_blocked t
    then elim t.blocked_reason [ none ↦ false | some s ↦ not (str_eq s "") ]
    else true

module _ {D : Type 0} ⦃d : Double D⦄ where
  named-check_system :
      (load usage : D) (now count : ℕ) (m : List (MetricType × D)) (own : StatisticNode)
      → named (check_system load usage now count m own).0 ≡ true
  unfolding check_system
  named-check_system load usage now count [] own = refl
  named-check_system load usage now count ((k, threshold) ∷ m) own =
      let r = check_metric load usage now count k threshold own in
      elim (Bool-cases r.0) [
        | inl e ↦ rw e (named-check_system load usage now count m r.1)
        | inr e ↦ rw e refl
      ]

  pub named-system_slot :
      (load usage : D) (now : ℕ) (e : Entry) (count : ℕ) (m : List (MetricType × D))
      (s : ResourceNodeStorage)
      → named (system_slot_entry load usage now e count m s).0 ≡ true
  unfolding system_slot_entry
  named-system_slot load usage now e count m s =
      ground (arith, named-check_system load usage now count m s.entry_node.node)

  named-throttle :
      (now count : ℕ) (threshold : D) (t : Throttler)
      → named (do_check now count threshold t).0 ≡ true
  unfolding do_check schedule
  named-throttle now count threshold t = ground arith

  named-can_pass :
      (now : ℕ) (own : Option NodeRef) (count : ℕ) (c : Controller D) (s : ResourceNodeStorage)
      → named (can_pass now own count c s).0 ≡ true
  unfolding can_pass check default_do_check
  named-can_pass now own count c s = by_checker c.action_checker
    where
      by_checker :
          (k : Checker)
          → named (check k now own count (calculate_allowed_tokens c.calculator) s).0 ≡ true
      by_checker (default_checker mode) = ground arith
      by_checker (throttling_checker t) = named-throttle now count c.calculator.threshold t

  named-can_pass_check :
      (rule : FlowRule D) (context : EntryContext) (own : Option NodeRef) (count now : ℕ)
      (s : FlowState D)
      → named (can_pass_check rule context own count now s).0 ≡ true
  unfolding can_pass_check pass_local_check pass_with
  named-can_pass_check rule context own count now s = by_origin (empty rule.limit_origin) _ (
      by_node (select_node rule context own s.manager s.storage)
        (get_traffic_controller_for rule s.manager))
    where
      by_node :
          (q : Option NodeRef) (o : Option (Controller D))
          → named
              (elim q as (λ _. TokenResult × FlowState D) [
                | none ↦ (ok_result, s)
                | some n ↦ pass_with rule (some n) count now s o
              ]).0
            ≡ true
      by_node none o = refl
      by_node (some n) none = refl
      by_node (some n) (some c) = named-can_pass now (some n) count c s.storage

      by_origin :
          (b : Bool) (t : TokenResult × FlowState D)
          → named t.0 ≡ true
          → named (if b then (ok_result, s) else t).0 ≡ true
      by_origin true t h = refl
      by_origin false t h = h

  named-check_rules :
      (rules : List (FlowRule D)) (context : EntryContext) (own : Option NodeRef) (count now : ℕ)
      (s : FlowState D)
      → named (check_rules rules context own count now s).0 ≡ true
  unfolding check_rules
  named-check_rules [] context own count now s = refl
  named-check_rules (rule ∷ rules) context own count now s =
      let c = can_pass_check rule context own count now s in
      elim (Bool-cases (is_blocked c.0)) [
        | inl e ↦ rw e (named-can_pass_check rule context own count now s)
        | inr e ↦ rw e (
            named-check_rules rules context own count (now + wait_for c.0)
              (record (c.1) { slept = c.1.slept + wait_for c.0 }))
      ]

  pub named-flow_slot :
      (e : Entry) (context : EntryContext) (own : Option NodeRef) (count now : ℕ) (s : FlowState D)
      → named (flow_slot_entry e context own count now s).0 ≡ true
  unfolding flow_slot_entry
  named-flow_slot e context own count now s =
      named-check_rules (get_rules_for_resource e.resource s.manager) context own count now s

  pub named-checker_slot :
      (e : Entry) (now : ℕ) (m : RuleManager D) → named (checker_slot_entry e now m).0 ≡ true
  unfolding checker_slot_entry
  named-checker_slot e now m = ground arith

  module _ {C : Type 0} (ops : Cache C) where
    named-param_rules :
        (hot : HotItems D) (resource : String) (rules : List (ParamFlowRule D)) (count : ℕ)
        (ps : List AnyValue) (now : ℕ) (m : ParamSlot.MetricMap C)
        → named (ParamSlot.check_rules ops hot resource rules count ps now m).0 ≡ true
    unfolding ParamSlot.check_rules
    named-param_rules hot resource [] count ps now m = refl
    named-param_rules hot resource (rule ∷ rules) count ps now m =
        let m' = ParamSlot.init_hot_param_metrics_for ops resource rule m in
        let r =
          ParamSlot.check_rule ops hot resource rule count ps now
            (ParamSlot.get_param_metric resource m') m' in
        elim (Bool-cases r.0) [
          | inl e ↦ rw e (named-param_rules hot resource rules count ps now r.1)
          | inr e ↦ rw e refl
        ]

    pub named-param_slot :
        (e : Entry) (manager : ParamFlowRuleManager D) (count : ℕ) (ps : List AnyValue) (now : ℕ)
        (m : ParamSlot.MetricMap C)
        → named (ParamSlot.param_slot_entry ops e manager count ps now m).0 ≡ true
    unfolding ParamSlot.param_slot_entry ParamSlot.check_flow
    named-param_slot e manager count ps now m = by_rules (get_rule_of_resource e.resource manager)
      where
        by_rules :
            (o : Option (List (ParamFlowRule D)))
            → named
                (if ltb 0 (length manager.rule_map)
                  then elim o as (λ _. TokenResult × ParamSlot.MetricMap C) [
                    | none ↦ (ok_result, m)
                    | some rules ↦
                        ParamSlot.check_rules ops manager.hot_items e.resource rules count ps now m
                  ]
                  else (ok_result, m)).0
              ≡ true
        by_rules none = ground arith
        by_rules (some rules) =
            ground (arith, named-param_rules manager.hot_items e.resource rules count ps now m)
