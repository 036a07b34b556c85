-- ===== src/Breaker/Manager.antt =====
-- sentinel-core/circuitbreaker: rule_manager.h, rule_manager.cc, slot.h and slot.cc. Breakers are
-- shared by pointers: they lie in a heap, in which a pointer is a place, and none is freed.
-- Unordered containers are lists.
pub mod Checks
pub mod Reload
pub mod Place
pub mod Unchanged
mod Tests
use sentinel_cpp.Prelude.{
  ℕ, suc, if◌then◌else◌, Bool, true, false, not, ◌||◌, Option, none, some, List, [], ◌∷◌, ◌++◌,
  String, length, get_elem?, set, lookup, insert, lt_int64, max_int64, sub64, Double,
}
use sentinel_cpp.Breaker.Rule.{
  Rule, Strategy, slow_rt_ratio, error_ratio, error_count, rule_eq, is_valid_rule,
}
use sentinel_cpp.Breaker.Error.{new_error_breaker}
use sentinel_cpp.Breaker.ResponseTime.{new_response_time_breaker}
use sentinel_cpp.Breaker.CircuitBreaker.{
  CircuitBreaker, error_breaker, response_time_breaker, get_rule, try_pass, record_complete,
}
use sentinel_cpp.Slot.Token.{TokenResult, ok_result, blocked_result}
use sentinel_cpp.Slot.Entry.{Entry, has_block_error}

pub record RuleManager (D : Type 0) : Type 0 where
  pub rule_map : List (String × List (Rule D))
  pub cb_map : List (String × List ℕ)
  pub heap : List (CircuitBreaker D)

module _ {D : Type 0} where
  unfoldable pub has_rules : String → RuleManager D → Bool
  has_rules resource m = elim (lookup resource m.cb_map) [ none ↦ false | some cbs ↦ true ]

  unfoldable pub get_rules_of_resource : String → RuleManager D → List (Rule D)
  get_rules_of_resource resource m = elim (lookup resource m.rule_map) [
    | none ↦ []
    | some rules ↦ rules
  ]

  unfoldable pub get_circuit_breakers : String → RuleManager D → List ℕ
  get_circuit_breakers resource m = elim (lookup resource m.cb_map) [ none ↦ [] | some cbs ↦ cbs ]

module _ {D : Type 0} ⦃d : Double D⦄ where
  new_for : Strategy → Rule D → Option (CircuitBreaker D)
  new_for slow_rt_ratio rule = some (response_time_breaker (new_response_time_breaker rule))
  new_for error_ratio rule = some (error_breaker (new_error_breaker rule))
  new_for error_count rule = none

  unfoldable pub new_circuit_breaker : Rule D → Option (CircuitBreaker D)
  unfolding new_for
  new_circuit_breaker rule = new_for rule.strategy rule

  -- The first of the breakers that has the rule.
  pub find_same : Rule D → List ℕ → List (CircuitBreaker D) → Option ℕ
  find_same rule [] heap = none
  find_same rule (i ∷ is) heap =
      let rest = find_same rule is heap in
      elim (get_elem? heap i) [
        | none ↦ rest
        | some cb ↦ if rule_eq rule (get_rule cb) then some i else rest
      ]

  -- GetExistingSameCbOrNew: a pointer, unless it is null, and the heap.
  unfoldable pub get_existing_same_cb_or_new :
      Rule D → List (String × List ℕ) → List (CircuitBreaker D) → Option ℕ × List (CircuitBreaker D)
  unfolding find_same new_circuit_breaker
  get_existing_same_cb_or_new rule old heap =
      let cbs : List ℕ = elim (lookup rule.resource old) [ none ↦ [] | some cbs ↦ cbs ] in
      elim (find_same rule cbs heap) [
        | some i ↦ (some i, heap)
        | none ↦ elim (new_circuit_breaker rule) [
          | none ↦ (none, heap)
          | some cb ↦ (some (length heap), heap ++ cb ∷ [])
        ]
      ]

  -- One rule of the loop of `BuildCircuitBreakerMap`.
  unfoldable pub add_breaker :
      Rule D
      → List (String × List ℕ)
      → List (String × List ℕ) × List (CircuitBreaker D)
      → List (String × List ℕ) × List (CircuitBreaker D)
  unfolding get_existing_same_cb_or_new
  add_breaker rule old (m, heap) =
      if not (is_valid_rule rule)
      then (m, heap)
      else let (ptr, heap') = get_existing_same_cb_or_new rule old heap in
        elim ptr [
          | none ↦ (m, heap')
          | some i ↦ elim (lookup rule.resource m) [
            | none ↦ (insert rule.resource (i ∷ []) m, heap')
            | some vec ↦ (insert rule.resource (vec ++ i ∷ []) m, heap')
          ]
        ]

  -- BuildCircuitBreakerMap, from the map that is built so far.
  unfoldable pub build_circuit_breaker_map :
      List (Rule D)
      → List (String × List ℕ)
      → List (String × List ℕ) × List (CircuitBreaker D)
      → List (String × List ℕ) × List (CircuitBreaker D)
  unfolding add_breaker
  build_circuit_breaker_map [] old s = s
  build_circuit_breaker_map (rule ∷ rules) old s =
      build_circuit_breaker_map rules old (add_breaker rule old s)

  abbrev has_rule : Rule D → List (Rule D) → Bool
  has_rule rule [] = false
  has_rule rule (r ∷ rs) = rule_eq r rule || has_rule rule rs

  -- The set of the rules of some breakers.
  rules_of : List ℕ → List (CircuitBreaker D) → List (Rule D) → List (Rule D)
  rules_of [] heap rules = rules
  rules_of (i ∷ is) heap rules = elim (get_elem? heap i) [
    | none ↦ rules_of is heap rules
    | some cb ↦
        rules_of is heap (if has_rule (get_rule cb) rules then rules else get_rule cb ∷ rules)
  ]

  rule_map_of : List (String × List ℕ) → List (CircuitBreaker D) → List (String × List (Rule D))
  unfolding rules_of
  rule_map_of [] heap = []
  rule_map_of ((k, []) ∷ m) heap = rule_map_of m heap
  rule_map_of ((k, i ∷ is) ∷ m) heap = (k, rules_of (i ∷ is) heap []) ∷ rule_map_of m heap

  -- RulePropertyListener::ConfigUpdate
  unfoldable pub config_update : List (Rule D) → RuleManager D → RuleManager D
  unfolding build_circuit_breaker_map rule_map_of
  config_update [] m = record m { rule_map = []; cb_map = [] }
  config_update (rule ∷ rules) m =
      let (cbs, heap') = build_circuit_breaker_map (rule ∷ rules) m.cb_map ([], m.heap) in
      record { rule_map = rule_map_of cbs heap'; cb_map = cbs; heap = heap' }

  -- The loop of `CheckerSlot::Entry`: whether all let the request pass.
  unfoldable pub try_all : ℕ → List ℕ → List (CircuitBreaker D) → Bool × List (CircuitBreaker D)
  try_all now [] heap = (true, heap)
  try_all now (i ∷ is) heap = elim (get_elem? heap i) [
    | none ↦ try_all now is heap
    | some cb ↦
        let rest = try_all now is (set heap i (try_pass now cb).1) in
        if (try_pass now cb).0 then rest else (false, set heap i (try_pass now cb).1)
  ]

  -- CheckerSlot::Entry
  unfoldable pub checker_slot_entry : Entry → ℕ → RuleManager D → TokenResult × RuleManager D
  unfolding try_all
  checker_slot_entry e now m =
      let (passes, heap') = try_all now (get_circuit_breakers e.resource m) m.heap in
      (if passes then ok_result else blocked_result "DegradeException", record m { heap = heap' })

  -- The loop of `CompleteStatSlot::Exit`.
  unfoldable pub complete_all :
      ℕ → ℕ → String → List ℕ → List (CircuitBreaker D) → List (CircuitBreaker D)
  complete_all now rt err [] heap = heap
  complete_all now rt err (i ∷ is) heap = elim (get_elem? heap i) [
    | none ↦ complete_all now rt err is heap
    | some cb ↦ complete_all now rt err is (set heap i (record_complete now rt err cb))
  ]

  -- CompleteStatSlot::Exit
  unfoldable pub complete_stat_slot_exit : Entry → ℕ → RuleManager D → RuleManager D
  unfolding complete_all
  complete_stat_slot_exit e now m =
      if has_block_error e
      then m
      else let rt = if lt_int64 e.rt 0 then max_int64 0 (sub64 now e.create_time) else e.rt in
        record m { heap = complete_all now rt e.error (get_circuit_breakers e.resource m) m.heap }
