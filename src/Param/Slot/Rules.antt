-- ===== src/Param/Slot/Rules.antt =====
-- What the check of a call's parameters says, and that it stays with the call's resource.
use mathlib.Core.Path.{subst}
use sentinel_cpp.Prelude.{
  ◌||◌, sym, ap, ◌⊎◌, get_elem?, zero, suc, ℕ, ◌≡◌, refl, ◌∙◌, arith, if◌then◌else◌, Bool, true,
  false, Option, none, some, List, [], ◌∷◌, String, str_eq, lookup, insert, lookup-insert, lt_int64,
  add_int, Double, Bool-cases, Option-cases, inl, inr,
}
use sentinel_cpp.Param.Value.{AnyValue, any_eq}
use sentinel_cpp.Param.Cache.{Cache, IsLimited, holds}
use sentinel_cpp.Param.Rule.{ParamFlowRule, HotItems, thread_count}
use sentinel_cpp.Param.Metric.{
  ParamMetric, find_cache, add_thread_count, get_thread_count, new_param_metric,
  initialize_for_rule,
}
use sentinel_cpp.Param.Metric.Threads.{
  find_cache-change_cache, bumped, get_thread_count-add_thread_count,
}
use sentinel_cpp.Param.Checker.{threshold_for, pass_single_value_check, check_for, pass_check}
use sentinel_cpp.Param.Manager.{ParamFlowRuleManager, get_rule_of_resource}
use sentinel_cpp.Param.Slot.{
  MetricMap, get_param_metric, init_hot_param_metrics_for, check_rule, check_rules, check_flow,
}

module _ {C : Type 0} (ops : Cache C) where
  -- A look-up changes no count.
  get_thread_count_again :
      IsLimited ops
      → (j : ℕ) (p v : AnyValue) (m : ParamMetric C)
      → (get_thread_count ops j v (get_thread_count ops j p m).1).0 ≡ (get_thread_count ops j v m).0
  unfolding get_thread_count
  get_thread_count_again law j p v m = elim (Option-cases (find_cache j m.thread_count_map)) [
    | inl e ↦
        rw (get_thread_count, find_cache-change_cache j j (ops.touch p) m.thread_count_map, e) refl
    | inr (c, e) ↦
        rw (get_thread_count, find_cache-change_cache j j (ops.touch p) m.thread_count_map, e)
          (ground (arith, law.counter_touch p v c))
  ]

module _ {C D : Type 0} (ops : Cache C) ⦃d : Double D⦄ (hot : HotItems D) where
  -- Whether one thread more would be too many for a value.
  abbrev too_many : ParamFlowRule D → AnyValue → ParamMetric C → Bool
  too_many rule q m =
      lt_int64 (threshold_for ops hot rule q)
        (add_int (get_thread_count ops rule.param_idx q m).0 1)

  pass_check-cons :
      (rule : ParamFlowRule D) (count : ℕ) (q : AnyValue) (ps : List AnyValue) (now : ℕ)
      (m : ParamMetric C)
      → rule.metric_type ≡ thread_count
      → pass_check ops hot rule count (q ∷ ps) now m ≡ (
          let m' = (get_thread_count ops rule.param_idx q m).1 in
          if too_many rule q m then (false, m') else pass_check ops hot rule count ps now m')
  unfolding pass_check pass_single_value_check check_for
  pass_check-cons rule count q ps now m e = elim (Bool-cases (too_many rule q m)) [
    | inl t ↦ rw (pass_check, e, t) refl
    | inr t ↦ rw (pass_check, e, t) refl
  ]

  -- The check changes no count.
  pass_check-count :
      IsLimited ops
      → (rule : ParamFlowRule D) (count : ℕ) (ps : List AnyValue) (now : ℕ) (v : AnyValue)
        (m : ParamMetric C)
      → rule.metric_type ≡ thread_count
      → (get_thread_count ops rule.param_idx v (pass_check ops hot rule count ps now m).1).0
        ≡ (get_thread_count ops rule.param_idx v m).0
  unfolding pass_check
  pass_check-count law rule count [] now v m e = refl
  pass_check-count law rule count (q ∷ ps) now v m e =
      let m' = (get_thread_count ops rule.param_idx q m).1 in
      let again = get_thread_count_again ops law rule.param_idx q v m in
      ap (λ r. (get_thread_count ops rule.param_idx v r.1).0)
        (pass_check-cons rule count q ps now m e)
      ∙ (elim (Bool-cases (too_many rule q m)) [
        | inl t ↦ rw t again
        | inr t ↦ rw t (pass_check-count law rule count ps now v m' e ∙ again)
      ])

  -- Where the check passes, one thread more of each parameter is not too many.
  pass_check-each :
      IsLimited ops
      → (rule : ParamFlowRule D) (count : ℕ) (ps : List AnyValue) (now i : ℕ) (p : AnyValue)
        (m : ParamMetric C)
      → rule.metric_type ≡ thread_count
      → (pass_check ops hot rule count ps now m).0 ≡ true
      → get_elem? ps i ≡ some p
      → too_many rule p m ≡ false
  pass_check-each law rule count [] now i p m e h g = absurd (ground (arith, g))
  pass_check-each law rule count (q ∷ ps) now i p m e h g =
      by_place i (Bool-cases (too_many rule q m)) g (λ k.
        pass_check-each law rule count ps now k p (get_thread_count ops rule.param_idx q m).1 e)
    where
      m' : ParamMetric C
      m' = (get_thread_count ops rule.param_idx q m).1

      passed :
          (if too_many rule q m then (false, m') else pass_check ops hot rule count ps now m').0
          ≡ true
      passed = ap (λ r. r.0) (sym (pass_check-cons rule count q ps now m e)) ∙ h

      by_place :
          (k : ℕ)
          → (too_many rule q m ≡ true) ⊎ (too_many rule q m ≡ false)
          → get_elem? (q ∷ ps) k ≡ some p
          → ((n : ℕ)
              → (pass_check ops hot rule count ps now m').0 ≡ true
              → get_elem? ps n ≡ some p
              → too_many rule p m' ≡ false)
          → too_many rule p m ≡ false
      by_place k (inl t) f ih = absurd (ground (arith, t, passed))
      by_place zero (inr t) f ih =
          subst
            (λ (o : Option AnyValue). elim o [ none ↦ true | some x ↦ too_many rule x m ] ≡ false) f
            t
      by_place (suc n) (inr t) f ih =
          ap (λ c. lt_int64 (threshold_for ops hot rule p) (add_int c 1))
            (sym (get_thread_count_again ops law rule.param_idx q p m))
          ∙ ih n
              (ap (λ b. (if b then (false, m') else pass_check ops hot rule count ps now m').0)
                  (sym t)
                ∙ passed)
              f

  -- A call that a rule on thread counts lets pass does not overshoot: when its threads are added,
  -- the count of the call's parameter at the rule's index is at most the threshold for it. This is
  -- for a parameter that equals itself, and an index with a cache that holds it or has room for it.
  pub passed_call_within :
      (law : IsLimited ops) (rule : ParamFlowRule D) (count : ℕ) (ps : List AnyValue) (now : ℕ)
      (p : AnyValue) (m : ParamMetric C) (c : C)
      → rule.metric_type ≡ thread_count
      → (pass_check ops hot rule count ps now m).0 ≡ true
      → get_elem? ps rule.param_idx ≡ some p
      → any_eq p p ≡ true
      → find_cache rule.param_idx (pass_check ops hot rule count ps now m).1.thread_count_map
        ≡ some c
      → (holds ops p c || law.has_room p c) ≡ true
      → lt_int64
          (threshold_for ops hot rule p)
          (get_thread_count ops rule.param_idx p
            (add_thread_count ops ps (pass_check ops hot rule count ps now m).1)).0
        ≡ false
  passed_call_within law rule count ps now p m c e h g same f t =
      let checked = pass_check ops hot rule count ps now m in
      ap (lt_int64 (threshold_for ops hot rule p)) (
        get_thread_count-add_thread_count ops law rule.param_idx p c ps checked.1 f (rw g t)
        ∙ ap (λ o. bumped ops 1 p o (get_thread_count ops rule.param_idx p checked.1).0) g
        ∙ rw same (ap (λ n. add_int n 1) (pass_check-count law rule count ps now p m e)))
      ∙ pass_check-each law rule count ps now rule.param_idx p m e h g

module _ {C : Type 0} (ops : Cache C) where
  insert_elsewhere :
      (resource other : String) (metric : ParamMetric C) (m : MetricMap C)
      → str_eq resource other ≡ false
      → lookup other (insert resource metric m) ≡ lookup other m
  insert_elsewhere resource other metric m e = lookup-insert resource other metric m ∙ rw e refl

  init_elsewhere :
      {D : Type 0} (resource other : String) (rule : ParamFlowRule D) (m : MetricMap C)
      → str_eq resource other ≡ false
      → lookup other (init_hot_param_metrics_for ops resource rule m) ≡ lookup other m
  unfolding init_hot_param_metrics_for
  init_elsewhere resource other rule m e = elim (Option-cases (lookup resource m)) [
    | inl q ↦ ground (
      arith,
      q,
      insert_elsewhere resource other (initialize_for_rule ops rule.metric_key new_param_metric) m
          e,
    )
    | inr (metric, q) ↦ ground (
      arith,
      q,
      insert_elsewhere resource other (initialize_for_rule ops rule.metric_key metric) m e,
    )
  ]

  module _ {D : Type 0} ⦃d : Double D⦄ (hot : HotItems D) where
    check_rule_elsewhere :
        (resource other : String) (rule : ParamFlowRule D) (count : ℕ) (ps : List AnyValue)
        (now : ℕ) (o : Option (ParamMetric C)) (m : MetricMap C)
        → str_eq resource other ≡ false
        → lookup other (check_rule ops hot resource rule count ps now o m).1 ≡ lookup other m
    unfolding check_rule
    check_rule_elsewhere resource other rule count ps now none m e = refl
    check_rule_elsewhere resource other rule count ps now (some metric) m e =
        elim (Bool-cases (pass_check ops hot rule count ps now metric).0) [
          | inl q ↦ rw q (insert_elsewhere resource other _ m e)
          | inr q ↦ rw q (insert_elsewhere resource other _ m e)
        ]

    check_rules_elsewhere :
        (resource other : String) (rules : List (ParamFlowRule D)) (count : ℕ) (ps : List AnyValue)
        (now : ℕ) (m : MetricMap C)
        → str_eq resource other ≡ false
        → lookup other (check_rules ops hot resource rules count ps now m).1 ≡ lookup other m
    unfolding check_rules
    check_rules_elsewhere resource other [] count ps now m e = refl
    check_rules_elsewhere resource other (rule ∷ rules) count ps now m e =
        let m' = init_hot_param_metrics_for ops resource rule m in
        let r = check_rule ops hot resource rule count ps now (get_param_metric resource m') m' in
        let step : lookup other r.1 ≡ lookup other m =
          check_rule_elsewhere resource other rule count ps now (get_param_metric resource m') m' e
          ∙ init_elsewhere resource other rule m e in
        elim (Bool-cases r.0) [
          | inl q ↦ rw q (check_rules_elsewhere resource other rules count ps now r.1 e ∙ step)
          | inr q ↦ rw q step
        ]

  module _ {D : Type 0} ⦃d : Double D⦄ where
    -- The check of a call's parameters, and the initialisation that it starts with, leave the metric
    -- of every other resource as it was.
    pub check_flow_elsewhere :
        (resource other : String) (manager : ParamFlowRuleManager D) (count : ℕ)
        (ps : List AnyValue) (now : ℕ) (m : MetricMap C)
        → str_eq resource other ≡ false
        → lookup other (check_flow ops resource manager count ps now m).1 ≡ lookup other m
    unfolding check_flow
    check_flow_elsewhere resource other manager count ps now m e =
        elim (Option-cases (get_rule_of_resource resource manager)) [
          | inl q ↦ rw (q, check_flow) refl
          | inr (rules, q) ↦
              rw (q, check_flow)
                (check_rules_elsewhere manager.hot_items resource other rules count ps now m e)
        ]
