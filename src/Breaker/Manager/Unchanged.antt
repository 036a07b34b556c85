-- ===== src/Breaker/Manager/Unchanged.antt =====
-- A rule that is loaded again as it was.
use sentinel_cpp.Prelude.{
  ℕ, ◌≡◌, refl, ◌∙◌, arith, true, Option, none, some, List, [], ◌∷◌, ◌++◌, String, length, ◌<◌,
  get_elem?, All, lookup, insert, Double, Bool-cases, inl, inr,
}
use sentinel_cpp.Breaker.Rule.{Rule, is_valid_rule}
use sentinel_cpp.Breaker.CircuitBreaker.{CircuitBreaker}
use sentinel_cpp.Breaker.Manager.{
  RuleManager, find_same, get_existing_same_cb_or_new, get_circuit_breakers, add_breaker,
  build_circuit_breaker_map, config_update,
}
use sentinel_cpp.Breaker.Manager.Place.{
  contains, breakers_in, place_breaker, place_breaker_keeps, place_breaker_has, pointers_of,
}
use sentinel_cpp.Breaker.Manager.Reload.{
  ArePointers, ArePointers-le, Extends, Extends-trans, added, find_same-le, reload_keeps_breakers,
}

module _ {D : Type 0} ⦃d : Double D⦄ where
  added_breakers :
      (rule : Rule D) (old m : List (String × List ℕ)) (heap : List (CircuitBreaker D))
      → is_valid_rule rule ≡ true
      → (add_breaker rule old (m, heap)).0 ≡ elim (get_existing_same_cb_or_new rule old heap).0 [
        | none ↦ m
        | some i ↦ place_breaker i rule.resource m
      ]
  unfolding add_breaker
  added_breakers rule old m heap v = rw v (go (get_existing_same_cb_or_new rule old heap).0)
    where
      heap' : List (CircuitBreaker D)
      heap' = (get_existing_same_cb_or_new rule old heap).1

      vec_of :
          (i : ℕ) (o : Option (List ℕ))
          → (elim o as (λ _. List (String × List ℕ) × List (CircuitBreaker D)) [
            | none ↦ (insert rule.resource (i ∷ []) m, heap')
            | some vec ↦ (insert rule.resource (vec ++ i ∷ []) m, heap')
          ]).0
            ≡ elim o [
              | none ↦ insert rule.resource (i ∷ []) m
              | some vec ↦ insert rule.resource (vec ++ i ∷ []) m
            ]
      vec_of i none = refl
      vec_of i (some vec) = refl

      go :
          (o : Option ℕ)
          → (elim o as (λ _. List (String × List ℕ) × List (CircuitBreaker D)) [
            | none ↦ (m, heap')
            | some i ↦ elim (lookup rule.resource m) [
              | none ↦ (insert rule.resource (i ∷ []) m, heap')
              | some vec ↦ (insert rule.resource (vec ++ i ∷ []) m, heap')
            ]
          ]).0
            ≡ elim o [ none ↦ m | some i ↦ place_breaker i rule.resource m ]
      go none = refl
      go (some i) = vec_of i (lookup rule.resource m)

  added_keeps :
      (i : ℕ) (k : String) (rule : Rule D) (old m : List (String × List ℕ))
      → (heap : List (CircuitBreaker D)) → contains i (breakers_in k m) ≡ true
      → contains i (breakers_in k (add_breaker rule old (m, heap)).0) ≡ true
  unfolding add_breaker
  added_keeps i k rule old m heap h = elim (Bool-cases (is_valid_rule rule)) [
    | inl v ↦
        rw (added_breakers rule old m heap v) (go (get_existing_same_cb_or_new rule old heap).0)
    | inr v ↦ rw v h
  ]
    where
      go :
          (o : Option ℕ)
          → contains i
              (breakers_in k (elim o [ none ↦ m | some j ↦ place_breaker j rule.resource m ]))
            ≡ true
      go none = h
      go (some j) = place_breaker_keeps i j rule.resource k m h

  built_keeps :
      (i : ℕ) (k : String) (rules : List (Rule D)) (old m : List (String × List ℕ))
      → (heap : List (CircuitBreaker D)) → contains i (breakers_in k m) ≡ true
      → contains i (breakers_in k (build_circuit_breaker_map rules old (m, heap)).0) ≡ true
  unfolding build_circuit_breaker_map
  built_keeps i k [] old m heap h = h
  built_keeps i k (rule ∷ rules) old m heap h =
      let s = add_breaker rule old (m, heap) in
      built_keeps i k rules old s.0 s.1 (added_keeps i k rule old m heap h)

  -- What a rule finds does not depend on the breakers behind those of the map.
  find_same-Extends :
      (rule : Rule D) (is : List ℕ) (heap heap' : List (CircuitBreaker D))
      → Extends heap heap'
      → All (λ i. i < length heap) is
      → find_same rule is heap' ≡ find_same rule is heap
  unfolding find_same
  find_same-Extends rule [] heap heap' x p = refl
  find_same-Extends rule (i ∷ is) heap heap' x p =
      grind (arith, x.1 i p.0, find_same-Extends rule is heap heap' x p.1)

  existing_same :
      (i : ℕ) (rule : Rule D) (old : List (String × List ℕ)) (heap : List (CircuitBreaker D))
      → find_same rule (breakers_in rule.resource old) heap ≡ some i
      → (get_existing_same_cb_or_new rule old heap).0 ≡ some i
  unfolding get_existing_same_cb_or_new
  existing_same i rule old heap h = rw (get_existing_same_cb_or_new, h) refl

  built_gets :
      (i : ℕ) (rule : Rule D) (before after : List (Rule D)) (old m : List (String × List ℕ))
      → (start heap : List (CircuitBreaker D)) → Extends start heap
      → ArePointers (length start) old
      → ArePointers (length heap) m
      → is_valid_rule rule ≡ true
      → find_same rule (breakers_in rule.resource old) start ≡ some i
      → contains i (
          breakers_in rule.resource
            (build_circuit_breaker_map (before ++ rule ∷ after) old (m, heap)).0)
        ≡ true
  unfolding build_circuit_breaker_map
  built_gets i rule [] after old m start heap x p q v h =
      let s = add_breaker rule old (m, heap) in
      let same = existing_same i rule old heap (
        find_same-Extends rule (breakers_in rule.resource old) start heap x
          (pointers_of rule.resource (length start) old p)
        ∙ h) in
      built_keeps i rule.resource after old s.0 s.1
        (rw (added_breakers rule old m heap v, same) (place_breaker_has i rule.resource m))
  built_gets i rule (r ∷ before) after old m start heap x p q v h =
      let s = add_breaker r old (m, heap) in
      let step = added r old m heap (ArePointers-le (length start) (length heap) old x.0 p) q in
      built_gets i rule before after old s.0 start s.1 (Extends-trans start heap s.1 x step.0) p
        step.1 v h

  -- Where all pointers to breakers are good, and the resource of a valid rule has a breaker of an
  -- equal rule: after a reload with that rule, at any place among any others, the resource still has
  -- the first such breaker, in the state in which it was.
  pub unchanged_keeps_breaker :
      (i : ℕ) (rule : Rule D) (before after : List (Rule D)) (m : RuleManager D)
      → ArePointers (length m.heap) m.cb_map
      → is_valid_rule rule ≡ true
      → find_same rule (get_circuit_breakers rule.resource m) m.heap ≡ some i
      → let m' = config_update (before ++ rule ∷ after) m in
        (contains i (get_circuit_breakers rule.resource m') ≡ true)
        × (get_elem? m'.heap i ≡ get_elem? m.heap i)
  unfolding config_update get_circuit_breakers
  unchanged_keeps_breaker i rule before after m p v h = (
    gets before,
    (reload_keeps_breakers (before ++ rule ∷ after) m p).1.1 i (
        find_same-le rule (breakers_in rule.resource m.cb_map) m.heap (length m.heap) i
          (pointers_of rule.resource (length m.heap) m.cb_map p) h),
  )
    where
      start :
          (bs : List (Rule D))
          → contains i (
              breakers_in rule.resource
                (build_circuit_breaker_map (bs ++ rule ∷ after) m.cb_map ([], m.heap)).0)
            ≡ true
      start bs =
          built_gets i rule bs after m.cb_map [] m.heap m.heap (omega arith, λ j k. refl) p tt v h

      gets :
          (bs : List (Rule D))
          → contains i (get_circuit_breakers rule.resource (config_update (bs ++ rule ∷ after) m))
            ≡ true
      gets [] = start []
      gets (b ∷ bs) = start (b ∷ bs)
