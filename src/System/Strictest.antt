-- ===== src/System/Strictest.antt =====
-- Of the rules for one metric, the strictest is in force.
use sentinel_cpp.Prelude.{
  ◌≡◌, ◌↔◌, ap, ◌∙◌, ◌&&◌, inl, inr, refl, arith, if◌then◌else◌, true, Option, none, some, List, [],
  ◌∷◌, Double, Option-cases,
}
use sentinel_cpp.System.{
  MetricType, SystemRule, same_type, find_rule, set_threshold, is_valid_rule, add_rule, add_rules,
  config_update,
}

-- The smaller of a threshold and the one that is in force.
abbrev pub tighten : {D : Type 0} → Double D → D → Option D → Option D
tighten d t none = some t
tighten d t (some u) = if d.lt t u then some t else some u

module _ {D : Type 0} (d : Double D) where
  -- The smallest threshold of the valid rules for a metric, and of `o`.
  abbrev pub minimum_of : MetricType → List (SystemRule D) → Option D → Option D
  minimum_of k [] o = o
  minimum_of k (rule ∷ rules) o = minimum_of k rules (
      if is_valid_rule ⦃d = d⦄ rule && same_type rule.metric_type k
      then tighten d rule.threshold o
      else o)

same_type_iff : (j k : MetricType) → same_type j k ≡ true ↔ (j ≡ k)
same_type_iff j k = ground arith

module _ {D : Type 0} where
  find_rule-set_threshold :
      (j k : MetricType) (t u : D) (m : List (MetricType × D))
      → find_rule j m ≡ some u
      → find_rule k (set_threshold j t m) ≡ (if same_type j k then some t else find_rule k m)
  find_rule-set_threshold j k t u [] h = ground arith
  find_rule-set_threshold j k t u ((i, v) ∷ m) h = ground (
    arith,
    same_type_iff i j,
    same_type_iff j k,
    same_type_iff i k,
    find_rule-set_threshold j k t u m,
  )

module _ {D : Type 0} (d : Double D) where
  find_rule-add_rule :
      (k : MetricType) (rule : SystemRule D) (m : List (MetricType × D))
      → find_rule k (add_rule ⦃d = d⦄ rule m) ≡ (
          if is_valid_rule ⦃d = d⦄ rule && same_type rule.metric_type k
          then tighten d rule.threshold (find_rule k m)
          else find_rule k m)
  unfolding add_rule
  find_rule-add_rule k rule m = elim (Option-cases (find_rule rule.metric_type m)) [
    | inl e ↦ ground (arith, e, same_type_iff rule.metric_type k)
    | inr (t, e) ↦ ground (
      arith,
      e,
      same_type_iff rule.metric_type k,
      find_rule-set_threshold rule.metric_type k rule.threshold t m e,
    )
  ]

  add_rules_minimum :
      (k : MetricType) (rules : List (SystemRule D)) (m : List (MetricType × D))
      → find_rule k (add_rules ⦃d = d⦄ rules m) ≡ minimum_of d k rules (find_rule k m)
  unfolding add_rules
  add_rules_minimum k [] m = refl
  add_rules_minimum k (rule ∷ rules) m =
      add_rules_minimum k rules (add_rule ⦃d = d⦄ rule m)
      ∙ ap (minimum_of d k rules) (find_rule-add_rule k rule m)

-- For each metric, the threshold in force after an update is the smallest of its valid rules, and there is none
-- without a valid rule.
pub in_force_minimum :
    {D : Type 0} (d : Double D) (k : MetricType) (rules : List (SystemRule D))
    → find_rule k (config_update ⦃d = d⦄ rules) ≡ minimum_of d k rules none
unfolding config_update
in_force_minimum d k rules = add_rules_minimum d k rules []
