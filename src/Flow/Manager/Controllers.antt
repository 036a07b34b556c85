-- ===== src/Flow/Manager/Controllers.antt =====
-- The traffic controllers of flow_rule_manager.cc, as the checks of flow_rule_checker.cc look them up.
use mathlib.Core.Path.{subst}
use sentinel_cpp.Prelude.{
  ◌≡◌, refl, sym, arith, true, none, some, List, [], ◌∷◌, ◌++◌, String, All, Double, Bool-cases,
  Option-cases, inl, inr,
}
use sentinel_cpp.Flow.Rule.{
  FlowRule, FlowMetricType, FlowControlBehavior, qps, thread_count, reject, warm_up, throtting,
  warm_up_throttling, flow_rule_eq, is_valid_rule,
}
use sentinel_cpp.Flow.Rule.Equality.{
  same_metric-≡, same_metric_refl, same_strategy_refl, same_behavior_refl, same_bool_refl,
  str_eq_refl, limit_origin_equals_refl,
}
use sentinel_cpp.Flow.Shaping.{Controller, default_checker}
use sentinel_cpp.Flow.Manager.Under.{AllUnder, AllUnder-mono, All-append, add_rule-AllUnder}
use sentinel_cpp.Flow.Manager.Load.{IsLoaded, collect-IsLoaded}
use sentinel_cpp.Flow.Manager.{
  FlowRuleManager, collect, config_update, build, add_rule, generate_controller, find_controller,
  get_traffic_controller_for, generate_for, create_default_controller,
}

-- A controller that checks the metric of the rule against the count of the rule.
abbrev pub Fits : {D : Type 0} → Double D → FlowRule D → Controller D → Type 0
Fits d rule c =
    (d.eq c.calculator.threshold rule.count ≡ true)
    × (c.action_checker ≡ default_checker rule.metric_type)

HasController : {D : Type 0} → Double D → List (FlowRule D × Controller D) → FlowRule D → Type 0
HasController {D} d cs rule =
    (c : Controller D) × (find_controller ⦃d = d⦄ rule cs ≡ some c) × Fits d rule c

-- The manager finds such a controller for the rule.
abbrev pub IsServed : {D : Type 0} → Double D → FlowRuleManager D → FlowRule D → Type 0
IsServed {D} d m rule =
    (c : Controller D) × (get_traffic_controller_for ⦃d = d⦄ rule m ≡ some c) × Fits d rule c

module _ {D : Type 0} ⦃d : Double D⦄ where
  abbrev Own : FlowRule D × Controller D → Type 0
  Own (r, c) =
      (c.calculator.threshold ≡ r.count) × (c.action_checker ≡ default_checker r.metric_type)

  abbrev OwnFor : FlowMetricType → D → Controller D → Type 0
  OwnFor mode count c = (c.calculator.threshold ≡ count) × (c.action_checker ≡ default_checker mode)

  Own-generate_for :
      (mode : FlowMetricType) (behavior : FlowControlBehavior) (rule : FlowRule D)
      → rule.metric_type ≡ mode
      → Own (rule, generate_for mode behavior rule)
  unfolding generate_for create_default_controller
  Own-generate_for thread_count behavior rule e = (refl, refl)
  Own-generate_for qps reject rule e = (refl, refl)
  Own-generate_for qps warm_up rule e = (refl, refl)
  Own-generate_for qps throtting rule e = (refl, refl)
  Own-generate_for qps warm_up_throttling rule e = (refl, refl)

  Own-generate_controller : (rule : FlowRule D) → Own (rule, generate_controller rule)
  unfolding generate_controller
  Own-generate_controller rule = Own-generate_for rule.metric_type rule.control_behavior rule refl

  eq-Fits :
      (r rule : FlowRule D) (c : Controller D)
      → Own (r, c)
      → flow_rule_eq r rule ≡ true
      → Fits d rule c
  unfolding flow_rule_eq
  eq-Fits r rule c h e = (
    rw (h.0) (ground (arith, e)),
    rw (h.1, same_metric-≡ r.metric_type rule.metric_type (ground (arith, e))) refl,
  )

  find-Fits :
      (rule : FlowRule D) (cs : List (FlowRule D × Controller D)) (c : Controller D)
      → All Own cs
      → find_controller rule cs ≡ some c
      → Fits d rule c
  unfolding find_controller
  find-Fits rule [] c h e = absurd (ground (arith, e))
  find-Fits rule ((r, k) ∷ cs) c h e = elim (Bool-cases (flow_rule_eq r rule)) [
    | inl q ↦ eq-Fits r rule c (subst (λ x. Own (r, x)) (ground (arith, e, q)) h.0) q
    | inr q ↦ find-Fits rule cs c h.1 (ground (arith, e, q))
  ]

  find-append :
      (rule : FlowRule D) (cs ds : List (FlowRule D × Controller D)) (c : Controller D)
      → find_controller rule cs ≡ some c
      → find_controller rule (cs ++ ds) ≡ some c
  unfolding find_controller
  find-append rule [] ds c e = absurd (ground (arith, e))
  find-append rule ((r, k) ∷ cs) ds c e = elim (Bool-cases (flow_rule_eq r rule)) [
    | inl q ↦ ground (arith, e, q)
    | inr q ↦ rw (q, find-append rule cs ds c (ground (arith, e, q))) refl
  ]

  find-new :
      (rule : FlowRule D) (cs : List (FlowRule D × Controller D)) (c : Controller D)
      → flow_rule_eq rule rule ≡ true
      → find_controller rule cs ≡ none
      → find_controller rule (cs ++ (rule, c) ∷ []) ≡ some c
  unfolding find_controller
  find-new rule [] c h e = ground (arith, h)
  find-new rule ((r, k) ∷ cs) c h e = elim (Bool-cases (flow_rule_eq r rule)) [
    | inl q ↦ absurd (ground (arith, e, q))
    | inr q ↦ rw (q, find-new rule cs c h (ground (arith, e, q))) refl
  ]

-- A double that is not below zero equals itself: only NaN does not, and it compares with nothing.
module _ {D : Type 0} ⦃d : Double D⦄
    (reflexive : (x : D) → d.le (d.of_int64 0) x ≡ true → d.eq x x ≡ true) where
  count_not_below :
      (rule : FlowRule D) → is_valid_rule rule ≡ true → d.le (d.of_int64 0) rule.count ≡ true
  unfolding is_valid_rule
  count_not_below rule h = ground (arith, h)

  flow_rule_eq_refl :
      (rule : FlowRule D) → is_valid_rule rule ≡ true → flow_rule_eq rule rule ≡ true
  unfolding flow_rule_eq
  flow_rule_eq_refl rule h =
      rw
        (
          str_eq_refl rule.resource,
          limit_origin_equals_refl rule.limit_origin,
          same_metric_refl rule.metric_type,
          reflexive rule.count (count_not_below rule h),
          same_strategy_refl rule.strategy,
          str_eq_refl rule.ref_resource,
          same_behavior_refl rule.control_behavior,
          same_bool_refl rule.cluster_mode,
        )
        (ground arith)

  -- The controllers after one more rule.
  abbrev controllers_with :
      FlowRule D → List (FlowRule D × Controller D) → List (FlowRule D × Controller D)
  controllers_with rule cs = elim (find_controller rule cs) [
    | none ↦ cs ++ (rule, generate_controller rule) ∷ []
    | some c ↦ cs
  ]

  -- What the loop over the rules keeps.
  abbrev IsEquipped : List (String × List (FlowRule D)) → List (FlowRule D × Controller D) → Type 0
  IsEquipped m cs = All Own cs × AllUnder (λ k r. HasController d cs r) m

  add-IsEquipped :
      (rule : FlowRule D) (m : List (String × List (FlowRule D)))
      (cs : List (FlowRule D × Controller D))
      → is_valid_rule rule ≡ true
      → IsEquipped m cs
      → IsEquipped (add_rule rule m) (controllers_with rule cs)
  unfolding HasController
  add-IsEquipped rule m cs v (own, has) = elim (Option-cases (find_controller rule cs)) [
    | inl e ↦
        let new = generate_controller rule in
        let owned = Own-generate_controller rule in
        let same = flow_rule_eq_refl rule v in
        subst (IsEquipped (add_rule rule m)) (sym (rw (e, controllers_with) refl)) (
          All-append Own cs ((rule, new) ∷ []) own (owned, tt),
          add_rule-AllUnder _ rule m
              (new, find-new rule cs new same e, eq-Fits rule rule new owned same)
              (AllUnder-mono _ m
                (λ k r (c, f, fits). (c, find-append r cs ((rule, new) ∷ []) c f, fits)) has),
        )
    | inr (c, e) ↦
        subst (IsEquipped (add_rule rule m)) (sym (rw (e, controllers_with) refl))
          (own, add_rule-AllUnder _ rule m (c, e, find-Fits rule cs c own e) has)
  ]

  build-IsEquipped :
      (rules : List (FlowRule D)) (m : FlowRuleManager D)
      → All (λ r. IsLoaded d r.resource r) rules
      → IsEquipped m.rule_map m.traffic_controller_map
      → IsEquipped (build rules m).rule_map (build rules m).traffic_controller_map
  unfolding build
  build-IsEquipped [] m h k = k
  build-IsEquipped (rule ∷ rules) m h k =
      build-IsEquipped rules _ h.1 (add-IsEquipped rule m.rule_map m.traffic_controller_map h.0.0 k)

  -- Where x == x for every double that is not below zero: after an update each rule in force has a
  -- controller, and what the manager finds for it checks the rule's metric against a threshold that
  -- equals the rule's count.
  pub update_equips_rules :
      (rules : List (FlowRule D)) (m : FlowRuleManager D)
      → let m' = config_update rules m in AllUnder (λ k r. IsServed d m' r) m'.rule_map
  unfolding config_update get_traffic_controller_for HasController
  update_equips_rules [] m = tt
  update_equips_rules (r ∷ rs) m =
      (build-IsEquipped (collect (r ∷ rs) []) _ (collect-IsLoaded (r ∷ rs) [] tt) (tt, tt)).1
