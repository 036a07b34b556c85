-- ===== src/Breaker/Manager/Reload.antt =====
-- What a reload of the rules does to the breakers that there are.
use mathlib.Core.Path.{subst}
use sentinel_cpp.Prelude.{
  ℕ, zero, suc, ◌≤◌, ◌<◌, ◌≡◌, refl, ◌∙◌, arith, Option, none, some, List, [], ◌∷◌, ◌++◌, String,
  length, length-append, get_elem?, All, All-mono, lookup, insert, str_eq, Double, Bool-cases,
  Option-cases, inl, inr,
}
use sentinel_cpp.Breaker.Rule.{Rule, is_valid_rule}
use sentinel_cpp.Breaker.CircuitBreaker.{CircuitBreaker}
use sentinel_cpp.Breaker.Manager.{
  RuleManager, find_same, get_existing_same_cb_or_new, new_circuit_breaker, add_breaker,
  build_circuit_breaker_map, config_update,
}

-- Every pointer of the map leads to a breaker of a heap of that size.
abbrev pub ArePointers : ℕ → List (String × List ℕ) → Type 0
ArePointers size m = All (λ e. All (λ i. i < size) e.1) m

-- A heap keeps all breakers of another as they are.
abbrev pub Extends : {D : Type 0} → List (CircuitBreaker D) → List (CircuitBreaker D) → Type 0
Extends heap heap' =
    (length heap ≤ length heap')
    × ((i : ℕ) → i < length heap → get_elem? heap' i ≡ get_elem? heap i)

get_elem?-append {ℓ} :
    {A : Type ℓ} (xs ys : List A) (i : ℕ) → i < length xs → get_elem? (xs ++ ys) i ≡ get_elem? xs i
get_elem?-append [] ys i h = absurd (omega arith)
get_elem?-append (x ∷ xs) ys zero h = refl
get_elem?-append (x ∷ xs) ys (suc i) h = get_elem?-append xs ys i (omega arith)

pub ArePointers-le :
    (a b : ℕ) (m : List (String × List ℕ)) → a ≤ b → ArePointers a m → ArePointers b m
ArePointers-le a b m h = All-mono (λ e. All-mono (λ i k. omega (arith, h, k)) e.1) m

ArePointers-insert :
    (size : ℕ) (k : String) (is : List ℕ) (m : List (String × List ℕ))
    → All (λ i. i < size) is
    → ArePointers size m
    → ArePointers size (insert k is m)
ArePointers-insert size k is [] h p = (h, tt)
ArePointers-insert size k is (e ∷ m) h p = elim (Bool-cases (str_eq e.0 k)) [
  | inl q ↦ rw q (h, p.1)
  | inr q ↦ rw q (p.0, ArePointers-insert size k is m h p.1)
]

pub ArePointers-lookup :
    (size : ℕ) (k : String) (is : List ℕ) (m : List (String × List ℕ))
    → ArePointers size m
    → lookup k m ≡ some is
    → All (λ i. i < size) is
ArePointers-lookup size k is [] p h = absurd (ground (arith, h))
ArePointers-lookup size k is (e ∷ m) p h = elim (Bool-cases (str_eq e.0 k)) [
  | inl q ↦ subst (All (λ i. i < size)) (ground (arith, h, q)) p.0
  | inr q ↦ ArePointers-lookup size k is m p.1 (ground (arith, h, q))
]

All-snoc :
    (size i : ℕ) (is : List ℕ)
    → All (λ j. j < size) is
    → i < size
    → All (λ j. j < size) (is ++ i ∷ [])
All-snoc size i [] h k = (k, tt)
All-snoc size i (j ∷ is) h k = (h.0, All-snoc size i is h.1 k)

module _ {D : Type 0} ⦃d : Double D⦄ where
  pub find_same-le :
      (rule : Rule D) (is : List ℕ) (heap : List (CircuitBreaker D)) (size i : ℕ)
      → All (λ j. j < size) is
      → find_same rule is heap ≡ some i
      → i < size
  unfolding find_same
  find_same-le rule [] heap size i p h = absurd (ground (arith, h))
  find_same-le rule (j ∷ is) heap size i p h =
      grind (arith, h, p.0, find_same-le rule is heap size i p.1)

  -- Where the pointers lead after a rule is given its breaker.
  abbrev IsPlaced : List (CircuitBreaker D) → Option ℕ × List (CircuitBreaker D) → Type 0
  IsPlaced heap (ptr, heap') = Extends heap heap' × ((i : ℕ) → ptr ≡ some i → i < length heap')

  placed :
      (rule : Rule D) (old : List (String × List ℕ)) (heap : List (CircuitBreaker D))
      → ArePointers (length heap) old
      → IsPlaced heap (get_existing_same_cb_or_new rule old heap)
  unfolding get_existing_same_cb_or_new
  placed rule old heap p =
      go (find_same rule cbs heap) (new_circuit_breaker rule)
        (λ i e. find_same-le rule cbs heap (length heap) i below e)
    where
      cbs : List ℕ
      cbs = elim (lookup rule.resource old) [ none ↦ [] | some is ↦ is ]

      below : All (λ i. i < length heap) cbs
      below =
          all_of (lookup rule.resource old)
            (λ is e. ArePointers-lookup (length heap) rule.resource is old p e)
        where
          all_of :
              (o : Option (List ℕ))
              → ((is : List ℕ) → o ≡ some is → All (λ i. i < length heap) is)
              → All (λ i. i < length heap) (elim o as (λ _. List ℕ) [ none ↦ [] | some is ↦ is ])
          all_of none f = tt
          all_of (some is) f = f is refl

      go :
          (o : Option ℕ) (n : Option (CircuitBreaker D))
          → ((i : ℕ) → o ≡ some i → i < length heap)
          → IsPlaced heap (elim o [
            | some i ↦ (some i, heap)
            | none ↦ elim n [
              | none ↦ (none, heap)
              | some cb ↦ (some (length heap), heap ++ cb ∷ [])
            ]
          ])
      go (some i) n f = ((omega arith, λ j h. refl), f)
      go none none f = ((omega arith, λ j h. refl), λ j e. f j e)
      go none (some cb) f = (
        (omega (arith, length-append heap (cb ∷ [])), λ j h. get_elem?-append heap (cb ∷ []) j h),
        λ j e. grind (arith, e, length-append heap (cb ∷ [])),
      )

  pub Extends-trans : (x y z : List (CircuitBreaker D)) → Extends x y → Extends y z → Extends x z
  Extends-trans x y z (a, f) (b, g) =
      (omega (arith, a, b), λ i h. g i (omega (arith, a, h)) ∙ f i h)

  -- A map of pointers into a heap that extends another.
  abbrev pub IsBuilt :
      List (CircuitBreaker D) → List (String × List ℕ) × List (CircuitBreaker D) → Type 0
  IsBuilt heap (m, heap') = Extends heap heap' × ArePointers (length heap') m

  pub added :
      (rule : Rule D) (old m : List (String × List ℕ)) (heap : List (CircuitBreaker D))
      → ArePointers (length heap) old
      → ArePointers (length heap) m
      → IsBuilt heap (add_breaker rule old (m, heap))
  unfolding add_breaker
  added rule old m heap p q = elim (Bool-cases (is_valid_rule rule)) [
    | inl v ↦ rw v (go ptr (placed rule old heap p).1)
    | inr v ↦ rw v ((omega arith, λ i h. refl), q)
  ]
    where
      ptr : Option ℕ
      ptr = (get_existing_same_cb_or_new rule old heap).0

      heap' : List (CircuitBreaker D)
      heap' = (get_existing_same_cb_or_new rule old heap).1

      larger : Extends heap heap'
      larger = (placed rule old heap p).0

      kept : ArePointers (length heap') m
      kept = ArePointers-le (length heap) (length heap') m larger.0 q

      vec_of :
          (i : ℕ)
          → i < length heap'
          → IsBuilt heap (elim (lookup rule.resource m) [
            | none ↦ (insert rule.resource (i ∷ []) m, heap')
            | some vec ↦ (insert rule.resource (vec ++ i ∷ []) m, heap')
          ])
      vec_of i h = elim (Option-cases (lookup rule.resource m)) [
        | inl e ↦
            rw e (larger, ArePointers-insert (length heap') rule.resource (i ∷ []) m (h, tt) kept)
        | inr (vec, e) ↦ rw e (
          larger,
          ArePointers-insert (length heap') rule.resource (vec ++ i ∷ []) m
              (All-snoc (length heap') i vec
                (ArePointers-lookup (length heap') rule.resource vec m kept e) h)
              kept,
        )
      ]

      go :
          (o : Option ℕ)
          → ((i : ℕ) → o ≡ some i → i < length heap')
          → IsBuilt heap (elim o [
            | none ↦ (m, heap')
            | some i ↦ elim (lookup rule.resource m) [
              | none ↦ (insert rule.resource (i ∷ []) m, heap')
              | some vec ↦ (insert rule.resource (vec ++ i ∷ []) m, heap')
            ]
          ])
      go none f = (larger, kept)
      go (some i) f = vec_of i (f i refl)

  built :
      (rules : List (Rule D)) (old m : List (String × List ℕ)) (heap : List (CircuitBreaker D))
      → ArePointers (length heap) old
      → ArePointers (length heap) m
      → IsBuilt heap (build_circuit_breaker_map rules old (m, heap))
  unfolding build_circuit_breaker_map
  built [] old m heap p q = ((omega arith, λ i h. refl), q)
  built (rule ∷ rules) old m heap p q =
      let step = added rule old m heap p q in
      let s = add_breaker rule old (m, heap) in
      let rest =
        built rules old s.0 s.1 (ArePointers-le (length heap) (length s.1) old step.0.0 p) step.1 in
      (Extends-trans heap s.1 (build_circuit_breaker_map rules old s).1 step.0 rest.0, rest.1)

  -- Where all pointers to breakers are good: after a reload of the rules they are again, and the
  -- breakers that there were are as they were.
  pub reload_keeps_breakers :
      (rules : List (Rule D)) (m : RuleManager D)
      → ArePointers (length m.heap) m.cb_map
      → let m' = config_update rules m in
        ArePointers (length m'.heap) m'.cb_map × Extends m.heap m'.heap
  unfolding config_update
  reload_keeps_breakers [] m p = (tt, (omega arith, λ i h. refl))
  reload_keeps_breakers (rule ∷ rules) m p =
      let b = built (rule ∷ rules) m.cb_map [] m.heap p tt in (b.1, b.0)
