-- ===== src/Flow/Manager/Load.antt =====
-- The rules in force after the update of flow_rule_manager.cc.
use sentinel_cpp.Prelude.{
  ◌≡◌, refl, if◌then◌else◌, not, Bool, true, false, List, [], ◌∷◌, ◌++◌, String, All, Double,
}
use sentinel_cpp.Flow.Rule.{FlowRule, empty, is_valid_rule, limit_origin_default}
use sentinel_cpp.Flow.Manager.Under.{AllUnder, All-append, add_rule-AllUnder}
use sentinel_cpp.Flow.Manager.{FlowRuleManager, normalise, collect, contains, config_update, build}

-- A rule that passes the check, of the resource under which it stands, with an origin.
abbrev pub IsLoaded : {D : Type 0} → Double D → String → FlowRule D → Type 0
IsLoaded d resource rule =
    (is_valid_rule ⦃d = d⦄ rule ≡ true)
    × (rule.resource ≡ resource)
    × (empty rule.limit_origin ≡ false)

module _ {D : Type 0} ⦃d : Double D⦄ where
  valid-normalise :
      (rule : FlowRule D) → is_valid_rule rule ≡ true → IsLoaded d rule.resource (normalise rule)
  unfolding is_valid_rule
  valid-normalise rule h = go (empty rule.limit_origin) refl
    where
      go :
          (b : Bool)
          → empty rule.limit_origin ≡ b
          → IsLoaded d rule.resource
              (if b then record rule { limit_origin = limit_origin_default } else rule)
      go true e = (h, refl, refl)
      go false e = (h, refl, e)

  pub collect-IsLoaded :
      (rules set : List (FlowRule D))
      → All (λ r. IsLoaded d r.resource r) set
      → All (λ r. IsLoaded d r.resource r) (collect rules set)
  unfolding collect
  collect-IsLoaded [] set h = h
  collect-IsLoaded (rule ∷ rules) set h =
      collect-IsLoaded rules _
        (go (is_valid_rule rule) (contains (normalise rule) set) (valid-normalise rule))
    where
      go :
          (valid known : Bool)
          → (valid ≡ true → IsLoaded d rule.resource (normalise rule))
          → All
              (λ r. IsLoaded d r.resource r)
              (if not valid then set else if known then set else set ++ normalise rule ∷ [])
      go false known f = h
      go true true f = h
      go true false f =
          All-append (λ r. IsLoaded d r.resource r) set (normalise rule ∷ []) h (one (f refl), tt)
        where
          one :
              IsLoaded d rule.resource (normalise rule)
              → IsLoaded d (normalise rule).resource (normalise rule)
          one (v, q, n) = (v, refl, n)

  -- What the map holds.
  abbrev pub AllLoaded : List (String × List (FlowRule D)) → Type 0
  AllLoaded m = AllUnder (IsLoaded d) m

  build-IsLoaded :
      (rules : List (FlowRule D)) (m : FlowRuleManager D)
      → All (λ r. IsLoaded d r.resource r) rules
      → AllLoaded m.rule_map
      → AllLoaded (build rules m).rule_map
  unfolding build
  build-IsLoaded [] m h k = k
  build-IsLoaded (rule ∷ rules) m h k =
      build-IsLoaded rules _ h.1 (add_rule-AllUnder (IsLoaded d) rule m.rule_map h.0 k)

  -- After an update each rule in force passes the check, stands under its own resource, and has an
  -- origin.
  pub update_loads_valid :
      (rules : List (FlowRule D)) (m : FlowRuleManager D)
      → AllLoaded (config_update rules m).rule_map
  unfolding config_update
  update_loads_valid [] m = tt
  update_loads_valid (r ∷ rs) m =
      build-IsLoaded (collect (r ∷ rs) []) _ (collect-IsLoaded (r ∷ rs) [] tt) tt
