-- ===== src/Flow/Manager/Under.antt =====
-- The lists of rules by resource that the update of flow_rule_manager.cc builds: what holds of each
-- rule under the resource where it stands.
use mathlib.Core.Path.{subst}
use sentinel_cpp.Prelude.{
  ◌≡◌, sym, arith, some, List, [], ◌∷◌, ◌++◌, String, All, All-mono, str_eq, eq_iff, lookup, insert,
  Bool-cases, Option-cases, inl, inr,
}
use sentinel_cpp.Flow.Rule.{FlowRule}
use sentinel_cpp.Flow.Manager.{add_rule}

abbrev pub AllUnder :
    {D : Type 0} → (String → FlowRule D → Type 0) → List (String × List (FlowRule D)) → Type 0
AllUnder P m = All (λ e. All (P e.0) e.1) m

module _ {A : Type 0} where
  pub All-append : (P : A → Type 0) (xs ys : List A) → All P xs → All P ys → All P (xs ++ ys)
  All-append P [] ys h k = k
  All-append P (x ∷ xs) ys h k = (h.0, All-append P xs ys h.1 k)

module _ {D : Type 0} (P : String → FlowRule D → Type 0) where
  pub AllUnder-mono :
      {Q : String → FlowRule D → Type 0} (m : List (String × List (FlowRule D)))
      → ((k : String) (x : FlowRule D) → P k x → Q k x)
      → AllUnder P m
      → AllUnder Q m
  AllUnder-mono m f = All-mono (λ e. All-mono (f e.0) e.1) m

  insert-AllUnder :
      (k : String) (rs : List (FlowRule D)) (m : List (String × List (FlowRule D)))
      → All (P k) rs
      → AllUnder P m
      → AllUnder P (insert k rs m)
  insert-AllUnder k rs [] h l = (h, tt)
  insert-AllUnder k rs ((j, v) ∷ m) h l = elim (Bool-cases (str_eq j k)) [
    | inl e ↦ rw e (subst (λ x. All (P x) rs) (sym ((eq_iff j k).0 e)) h, l.1)
    | inr e ↦ rw e (l.0, insert-AllUnder k rs m h l.1)
  ]

  lookup-AllUnder :
      (k : String) (rs : List (FlowRule D)) (m : List (String × List (FlowRule D)))
      → AllUnder P m
      → lookup k m ≡ some rs
      → All (P k) rs
  lookup-AllUnder k rs [] l h = absurd (ground (arith, h))
  lookup-AllUnder k rs ((j, v) ∷ m) l h = elim (Bool-cases (str_eq j k)) [
    | inl e ↦
        subst (λ x. All (P x) rs) ((eq_iff j k).0 e) (subst (All (P j)) (ground (arith, h, e)) l.0)
    | inr e ↦ lookup-AllUnder k rs m l.1 (ground (arith, h, e))
  ]

  pub add_rule-AllUnder :
      (rule : FlowRule D) (m : List (String × List (FlowRule D)))
      → P rule.resource rule
      → AllUnder P m
      → AllUnder P (add_rule rule m)
  unfolding add_rule
  add_rule-AllUnder rule m h k = elim (Option-cases (lookup rule.resource m)) [
    | inl e ↦
        subst (AllUnder P) (ground (arith, e))
          (insert-AllUnder rule.resource (rule ∷ []) m (h, tt) k)
    | inr (rs, e) ↦ subst (AllUnder P) (ground (arith, e)) (
        insert-AllUnder rule.resource (rs ++ rule ∷ []) m
          (All-append (P rule.resource) rs (rule ∷ []) (lookup-AllUnder rule.resource rs m k e)
            (h, tt))
          k)
  ]
