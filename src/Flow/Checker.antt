-- ===== src/Flow/Checker.antt =====
-- sentinel-core/flow/flow_rule_checker.cc and flow_slot.cc: which node a rule looks at, and the
-- check of the rules of a resource. An entry has a context.
pub mod Threads
use sentinel_cpp.Prelude.{
  ℕ, ◌+◌, if◌then◌else◌, Bool, not, ◌&&◌, Option, none, some, List, [], ◌∷◌, String, str_eq,
  lt_int64, Double,
}
use sentinel_cpp.Stat.Storage.{ResourceNodeStorage, NodeRef, cluster_node_ref, get_cluster_node}
use sentinel_cpp.Slot.Token.{TokenResult, should_wait, ok_result, is_blocked}
use sentinel_cpp.Slot.Entry.{Entry, EntryContext}
use sentinel_cpp.Flow.Rule.{
  FlowRule, direct, associated_resource, limit_origin_default, limit_origin_other, empty,
  same_strategy,
}
use sentinel_cpp.Flow.Shaping.{Controller, can_pass}
use sentinel_cpp.Flow.Manager.{
  FlowRuleManager, get_traffic_controller_for, put_controller, get_rules_for_resource,
  is_tag_not_in_flow_rule_list,
}

-- IsValidTag
unfoldable pub is_valid_tag : String → Bool
is_valid_tag tag =
    not (empty tag) && not (str_eq tag limit_origin_default) && not (str_eq tag limit_origin_other)

module _ {D : Type 0} where
  -- SelectNodeByRelStrategy: `none` is the null pointer.
  unfoldable pub select_node_by_rel_strategy :
      FlowRule D → Option NodeRef → ResourceNodeStorage → Option NodeRef
  select_node_by_rel_strategy rule node s =
      if not (empty rule.ref_resource) && same_strategy rule.strategy associated_resource
      then elim (get_cluster_node rule.ref_resource s) [
        | none ↦ none
        | some n ↦ some (cluster_node_ref rule.ref_resource)
      ]
      else node

  -- A node of its own for the direct strategy, else that of the related resource.
  abbrev by_strategy :
      FlowRule D → Option NodeRef → Option NodeRef → ResourceNodeStorage → Option NodeRef
  by_strategy rule own node s =
      if same_strategy rule.strategy direct then own else select_node_by_rel_strategy rule node s

  -- selectNodeByRequesterAndStrategy
  unfoldable pub select_node :
      FlowRule D
      → EntryContext
      → Option NodeRef
      → FlowRuleManager D
      → ResourceNodeStorage
      → Option NodeRef
  unfolding is_valid_tag select_node_by_rel_strategy
  select_node rule context node m s =
      if str_eq context.tag rule.limit_origin && is_valid_tag context.tag
      then by_strategy rule context.tag_node node s
      else if str_eq rule.limit_origin limit_origin_default
      then by_strategy rule node node s
      else if str_eq rule.limit_origin limit_origin_other
          && is_tag_not_in_flow_rule_list rule.resource context.tag m
      then by_strategy rule context.tag_node node s
      else none

-- What the check of a rule reads and writes.
pub record FlowState (D : Type 0) : Type 0 where
  pub manager : FlowRuleManager D
  pub storage : ResourceNodeStorage
  -- the time that the slot slept, in milliseconds
  pub slept : ℕ

-- The wait of an answer that asks for one.
abbrev pub wait_for : TokenResult → ℕ
wait_for r = elim r.status [
  | should_wait ↦ elim r.wait_ms [ none ↦ 0 | some w ↦ if lt_int64 0 w then w else 0 ]
  | _ ↦ 0
]

module _ {D : Type 0} ⦃d : Double D⦄ where
  unfoldable pub pass_with :
      FlowRule D
      → Option NodeRef
      → ℕ
      → ℕ
      → FlowState D
      → Option (Controller D)
      → TokenResult × FlowState D
  pass_with rule own count now s none = (ok_result, s)
  pass_with rule own count now s (some c) =
      let (r, c', storage') = can_pass now own count c s.storage in
      (
        r,
        record s {
          manager = record (s.manager) {
            traffic_controller_map = put_controller rule c' s.manager.traffic_controller_map;
          };
          storage = storage';
        },
      )

  -- PassLocalCheck
  unfoldable pub pass_local_check :
      FlowRule D → EntryContext → Option NodeRef → ℕ → ℕ → FlowState D → TokenResult × FlowState D
  unfolding pass_with select_node
  pass_local_check rule context own count now s =
      elim (select_node rule context own s.manager s.storage) [
        | none ↦ (ok_result, s)
        | some n ↦ pass_with rule (some n) count now s (get_traffic_controller_for rule s.manager)
      ]

  -- CanPassCheck
  unfoldable pub can_pass_check :
      FlowRule D → EntryContext → Option NodeRef → ℕ → ℕ → FlowState D → TokenResult × FlowState D
  unfolding pass_local_check
  can_pass_check rule context own count now s =
      if empty rule.limit_origin
      then (ok_result, s)
      else pass_local_check rule context own count now s

  -- The loop of `FlowSlot::Entry`: the clock goes on while it sleeps.
  unfoldable pub check_rules :
      List (FlowRule D)
      → EntryContext
      → Option NodeRef
      → ℕ
      → ℕ
      → FlowState D
      → TokenResult × FlowState D
  unfolding can_pass_check
  check_rules [] context own count now s = (ok_result, s)
  check_rules (rule ∷ rules) context own count now s =
      let (r, s') = can_pass_check rule context own count now s in
      let rest =
        check_rules rules context own count (now + wait_for r)
          (record s' { slept = s'.slept + wait_for r }) in
      if is_blocked r then (r, s') else rest

  -- FlowSlot::Entry
  unfoldable pub flow_slot_entry :
      Entry → EntryContext → Option NodeRef → ℕ → ℕ → FlowState D → TokenResult × FlowState D
  unfolding check_rules
  flow_slot_entry entry context own count now s =
      check_rules (get_rules_for_resource entry.resource s.manager) context own count now s
