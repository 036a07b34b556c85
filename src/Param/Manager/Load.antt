-- ===== src/Param/Manager/Load.antt =====
-- Which rules are in force for a resource after an update.
use sentinel_cpp.Prelude.{
  ℕ, ◌==◌, Bool, true, false, ◌≡◌, refl, sym, ap, ◌∙◌, arith, if◌then◌else◌, not, Option, none,
  some, List, [], ◌∷◌, ◌++◌, String, str_eq, eq_iff, lookup, lookup-insert, Double, Bool-cases,
  Option-cases, inl, inr,
}
use sentinel_cpp.Param.Value.{AnyValue, any_eq, int32_value, int64_value, string_value}
use sentinel_cpp.Param.Rule.{
  ParamFlowRule, ParamFlowItem, HotItems, is_valid_rule, find_item, insert_hot_item, fill_items,
  fill_exception_flow_items,
}
use sentinel_cpp.Param.Manager.{
  ParamFlowRuleManager, get_rule_of_resource, push_rule, aggregated_hot_param_rules, config_update,
}

-- Equal values equal the same ones.
any_eq_right : (x v w : AnyValue) → any_eq v w ≡ true → any_eq x v ≡ any_eq x w
any_eq_right x (int32_value a) (int32_value b) h =
    let e : a ≡ b = ground (arith, h) in ap (λ n. any_eq x (int32_value n)) e
any_eq_right x (int64_value a) (int64_value b) h =
    let e : a ≡ b = ground (arith, h) in ap (λ n. any_eq x (int64_value n)) e
any_eq_right x (string_value a) (string_value b) h =
    ap (λ s. any_eq x (string_value s)) ((eq_iff a b).0 h)
any_eq_right x v w h = absurd (ground (arith, h))

module _ {D : Type 0} where
  -- What a resource has, with more rules after it; a resource without rules is not in the map.
  abbrev pub joined :
      Option (List (ParamFlowRule D)) → List (ParamFlowRule D) → Option (List (ParamFlowRule D))
  joined none [] = none
  joined none (r ∷ rs) = some (r ∷ rs)
  joined (some as') rs = some (as' ++ rs)

  append_assoc : (as' bs cs : List (ParamFlowRule D)) → (as' ++ bs) ++ cs ≡ as' ++ (bs ++ cs)
  append_assoc [] bs cs = refl
  append_assoc (a ∷ as') bs cs = ap (◌∷◌ a) (append_assoc as' bs cs)

  joined-cons :
      (o : Option (List (ParamFlowRule D))) (r : ParamFlowRule D) (rs : List (ParamFlowRule D))
      → joined (joined o (r ∷ [])) rs ≡ joined o (r ∷ rs)
  joined-cons none r rs = refl
  joined-cons (some as') r rs = ap some (append_assoc as' (r ∷ []) rs)

  joined_nil : (o : Option (List (ParamFlowRule D))) → joined o [] ≡ o
  joined_nil none = refl
  joined_nil (some as') = ap some (append_nil as')
    where
      append_nil : (rs : List (ParamFlowRule D)) → rs ++ [] ≡ rs
      append_nil [] = refl
      append_nil (r ∷ rs) = ap (◌∷◌ r) (append_nil rs)

  lookup-push_rule :
      (rule : ParamFlowRule D) (asked : String) (m : List (String × List (ParamFlowRule D)))
      → lookup asked (push_rule rule m) ≡ (
          if str_eq rule.resource asked
          then joined (lookup rule.resource m) (rule ∷ [])
          else lookup asked m)
  lookup-push_rule rule asked m = elim (Option-cases (lookup rule.resource m)) [
    | inl e ↦ ground (arith, e, lookup-insert rule.resource asked (rule ∷ []) m)
    | inr (rs, e) ↦ ground (arith, e, lookup-insert rule.resource asked (rs ++ rule ∷ []) m)
  ]

  joined-push :
      (rule : ParamFlowRule D) (asked : String) (rest : List (ParamFlowRule D))
      (m : List (String × List (ParamFlowRule D)))
      → joined (lookup asked (push_rule rule m)) rest
        ≡ joined (lookup asked m) (if str_eq rule.resource asked then rule ∷ rest else rest)
  joined-push rule asked rest m = elim (Bool-cases (str_eq rule.resource asked)) [
    | inl e ↦
        rw (lookup-push_rule rule asked m, e)
          (joined-cons (lookup rule.resource m) rule rest
            ∙ ap (λ k. joined (lookup k m) (rule ∷ rest)) ((eq_iff rule.resource asked).0 e))
    | inr e ↦ rw (lookup-push_rule rule asked m, e) refl
  ]

  -- The threshold of the first item of a value.
  abbrev pub first_threshold : AnyValue → List (ParamFlowItem D) → Option D
  first_threshold v [] = none
  first_threshold v (item ∷ items) =
      let rest = first_threshold v items in
      if any_eq item.param_value v then some item.threshold else rest

  -- The first of two, if there is one, and else the second.
  abbrev pub or_else : Option D → Option D → Option D
  or_else (some a) o = some a
  or_else none o = o

  find_item_same :
      (v w : AnyValue) (items : List (AnyValue × D))
      → any_eq v w ≡ true
      → find_item v items ≡ find_item w items
  find_item_same v w [] h = refl
  find_item_same v w ((x, t) ∷ items) h = rw (any_eq_right x v w h, find_item_same v w items h) refl

  or_else-none : (o : Option D) → or_else o none ≡ o
  or_else-none none = refl
  or_else-none (some a) = refl

  find-insert_hot_item :
      (v w : AnyValue) (t : D) (items : List (AnyValue × D))
      → find_item w (insert_hot_item v t items)
        ≡ or_else (find_item w items) (if any_eq v w then some t else none)
  unfolding insert_hot_item
  find-insert_hot_item v w t items = elim (Bool-cases (any_eq v w)) [
    | inl e ↦
        let same = find_item_same v w items e in
        elim (Option-cases (find_item w items)) [
          | inl q ↦ rw (insert_hot_item, same, q, e) refl
          | inr (u, q) ↦ rw (insert_hot_item, same, q) q
        ]
    | inr e ↦ elim (Option-cases (find_item v items)) [
      | inl q ↦ rw (insert_hot_item, q, e) (sym (or_else-none (find_item w items)))
      | inr (u, q) ↦ rw (insert_hot_item, q, e) (sym (or_else-none (find_item w items)))
    ]
  ]

  or_else-test :
      (b : Bool) (t : D) (o p : Option D)
      → or_else (if b then some t else o) p ≡ (if b then some t else or_else o p)
  or_else-test true t o p = refl
  or_else-test false t o p = refl

  or_else_assoc : (a b c : Option D) → or_else (or_else a b) c ≡ or_else a (or_else b c)
  or_else_assoc none b c = refl
  or_else_assoc (some x) b c = refl

  find-fill_items :
      (w : AnyValue) (items : List (ParamFlowItem D)) (parsed : List (AnyValue × D))
      → find_item w (fill_items items parsed)
        ≡ or_else (find_item w parsed) (first_threshold w items)
  unfolding fill_items
  find-fill_items w [] parsed = sym (or_else-none (find_item w parsed))
  find-fill_items w (item ∷ items) parsed =
      find-fill_items w items (insert_hot_item item.param_value item.threshold parsed)
      ∙ ap (λ o. or_else o (first_threshold w items))
          (find-insert_hot_item item.param_value w item.threshold parsed)
      ∙ or_else_assoc (find_item w parsed) _ (first_threshold w items)
      ∙ ap (or_else (find_item w parsed))
          (or_else-test (any_eq item.param_value w) item.threshold none (first_threshold w items))

  first_threshold-append :
      (w : AnyValue) (as' bs : List (ParamFlowItem D))
      → first_threshold w (as' ++ bs) ≡ or_else (first_threshold w as') (first_threshold w bs)
  first_threshold-append w [] bs = refl
  first_threshold-append w (a ∷ as') bs =
      ap (λ o. if any_eq a.param_value w then some a.threshold else o)
        (first_threshold-append w as' bs)
      ∙ sym (
          or_else-test (any_eq a.param_value w) a.threshold (first_threshold w as')
            (first_threshold w bs))

module _ {D : Type 0} ⦃d : Double D⦄ where
  -- The valid rules of a resource, in order.
  abbrev pub valid_rules_of : String → List (ParamFlowRule D) → List (ParamFlowRule D)
  valid_rules_of resource [] = []
  valid_rules_of resource (rule ∷ rules) =
      let rest = valid_rules_of resource rules in
      if not (is_valid_rule rule)
      then rest
      else if str_eq rule.resource resource
      then rule ∷ rest
      else rest

  -- The items of the valid rules that share a map, in order.
  abbrev pub items_for : ℕ → List (ParamFlowRule D) → List (ParamFlowItem D)
  items_for i [] = []
  items_for i (rule ∷ rules) =
      let rest = items_for i rules in
      if not (is_valid_rule rule)
      then rest
      else if i == rule.parsed_hot_items
      then rule.specific_item_list ++ rest
      else rest

  lookup-aggregated :
      (resource : String) (rules : List (ParamFlowRule D)) (m : ParamFlowRuleManager D)
      → lookup resource (aggregated_hot_param_rules rules m).rule_map
        ≡ joined (lookup resource m.rule_map) (valid_rules_of resource rules)
  unfolding aggregated_hot_param_rules
  lookup-aggregated resource [] m = sym (joined_nil (lookup resource m.rule_map))
  lookup-aggregated resource (rule ∷ rules) m = elim (Bool-cases (is_valid_rule rule)) [
    | inr e ↦ rw (aggregated_hot_param_rules, e) (lookup-aggregated resource rules m)
    | inl e ↦
        rw (aggregated_hot_param_rules, e)
          (lookup-aggregated resource rules (record {
            rule_map = push_rule rule m.rule_map;
            hot_items = fill_exception_flow_items rule m.hot_items;
          })
            ∙ joined-push rule resource (valid_rules_of resource rules) m.rule_map)
  ]

  find-filled :
      (v : AnyValue) (i : ℕ) (rule : ParamFlowRule D) (items : List (ParamFlowItem D))
      (hot : HotItems D)
      → or_else (find_item v (fill_exception_flow_items rule hot i)) (first_threshold v items)
        ≡ or_else (find_item v (hot i)) (
            first_threshold v
              (if i == rule.parsed_hot_items then rule.specific_item_list ++ items else items))
  unfolding fill_exception_flow_items
  find-filled v i rule items hot = elim (Bool-cases (i == rule.parsed_hot_items)) [
    | inr e ↦ rw e refl
    | inl e ↦
        rw
          (
            e,
            find-fill_items v rule.specific_item_list (hot i),
            first_threshold-append v rule.specific_item_list items,
          )
          (or_else_assoc (find_item v (hot i)) (first_threshold v rule.specific_item_list)
            (first_threshold v items))
  ]

  find-aggregated :
      (v : AnyValue) (i : ℕ) (rules : List (ParamFlowRule D)) (m : ParamFlowRuleManager D)
      → find_item v ((aggregated_hot_param_rules rules m).hot_items i)
        ≡ or_else (find_item v (m.hot_items i)) (first_threshold v (items_for i rules))
  unfolding aggregated_hot_param_rules
  find-aggregated v i [] m = sym (or_else-none (find_item v (m.hot_items i)))
  find-aggregated v i (rule ∷ rules) m = elim (Bool-cases (is_valid_rule rule)) [
    | inr e ↦ rw (aggregated_hot_param_rules, e) (find-aggregated v i rules m)
    | inl e ↦
        rw (aggregated_hot_param_rules, e)
          (find-aggregated v i rules (record {
            rule_map = push_rule rule m.rule_map;
            hot_items = fill_exception_flow_items rule m.hot_items;
          })
            ∙ find-filled v i rule (items_for i rules) m.hot_items)
  ]

  -- After an update the rules of a resource are its valid rules, in the order of the update, and a
  -- resource with no valid rule has none. In each map of hot items a value has the threshold that it
  -- had before, and else that of its first item in the valid rules that share the map.
  pub update_loads_valid_params :
      (resource : String) (v : AnyValue) (i : ℕ) (rules : List (ParamFlowRule D))
      (m : ParamFlowRuleManager D)
      → (get_rule_of_resource resource (config_update rules m)
          ≡ joined none (valid_rules_of resource rules))
        × (find_item v ((config_update rules m).hot_items i)
            ≡ or_else (find_item v (m.hot_items i)) (first_threshold v (items_for i rules)))
  unfolding get_rule_of_resource config_update
  update_loads_valid_params resource v i rules m = (
    lookup-aggregated resource rules (record m { rule_map = [] }),
    find-aggregated v i rules (record m { rule_map = [] }),
  )
