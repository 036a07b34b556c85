-- ===== src/Breaker/Manager/Checks.antt =====
-- What the checker does to the breakers of a resource.
use mathlib.Core.Path.{subst}
use sentinel_cpp.Prelude.{
  ℕ, zero, suc, ◌≡◌, refl, sym, ap, ◌∙◌, arith, Bool, true, false, if◌then◌else◌, none, some, List,
  [], ◌∷◌, get_elem?, set, All, Double, Bool-cases, Option-cases, inl, inr,
}
use sentinel_cpp.Breaker.Machine.{State, open_, Base, try_pass_base, from_open_to_half_open}
use sentinel_cpp.Breaker.CircuitBreaker.{CircuitBreaker, current_state, base_of, try_pass}
use sentinel_cpp.Breaker.CircuitBreaker.Steps.{base-try_pass}
use sentinel_cpp.Breaker.Manager.{try_all}

abbrev pub is_open : State → Bool
is_open open_ = true
is_open _ = false

-- The breaker at a place of the heap, where there is one, is not open.
abbrev pub NotOpenAt : {D : Type 0} → List (CircuitBreaker D) → ℕ → Type 0
NotOpenAt heap i = elim (get_elem? heap i) [
  | none ↦ Unit
  | some cb ↦ is_open (current_state cb) ≡ false
]

NotOpenAt-set :
    {D : Type 0} (heap : List (CircuitBreaker D)) (i j : ℕ) (v : CircuitBreaker D)
    → (i ≡ j → is_open (current_state v) ≡ false)
    → NotOpenAt heap j
    → NotOpenAt (set heap i v) j
NotOpenAt-set [] i j v h n = tt
NotOpenAt-set (x ∷ xs) zero zero v h n = h refl
NotOpenAt-set (x ∷ xs) zero (suc j) v h n = n
NotOpenAt-set (x ∷ xs) (suc i) zero v h n = n
NotOpenAt-set (x ∷ xs) (suc i) (suc j) v h n = NotOpenAt-set xs i j v (λ e. h (ap suc e)) n

NotOpenAt-set_self :
    {D : Type 0} (heap : List (CircuitBreaker D)) (i : ℕ) (v : CircuitBreaker D)
    → is_open (current_state v) ≡ false
    → NotOpenAt (set heap i v) i
NotOpenAt-set_self [] i v h = tt
NotOpenAt-set_self (x ∷ xs) zero v h = h
NotOpenAt-set_self (x ∷ xs) (suc i) v h = NotOpenAt-set_self xs i v h

module _ {D : Type 0} where
  base_passed :
      (now : ℕ) (b : Base D)
      → (try_pass_base now b).0 ≡ true
      → is_open (try_pass_base now b).1.current_state ≡ false
  unfolding try_pass_base from_open_to_half_open
  base_passed now b h = ground arith

  base_kept :
      (now : ℕ) (b : Base D)
      → is_open b.current_state ≡ false
      → is_open (try_pass_base now b).1.current_state ≡ false
  unfolding try_pass_base from_open_to_half_open
  base_kept now b h = ground arith

module _ {D : Type 0} ⦃d : Double D⦄ where
  passed :
      (now : ℕ) (cb : CircuitBreaker D)
      → (try_pass now cb).0 ≡ true
      → is_open (current_state (try_pass now cb).1) ≡ false
  passed now cb h =
      let (p, q) = base-try_pass now cb in
      ap (λ b. is_open b.current_state) q ∙ base_passed now (base_of cb) (sym p ∙ h)

  kept :
      (now : ℕ) (cb : CircuitBreaker D)
      → is_open (current_state cb) ≡ false
      → is_open (current_state (try_pass now cb).1) ≡ false
  kept now cb h =
      ap (λ b. is_open b.current_state) (base-try_pass now cb).1 ∙ base_kept now (base_of cb) h

  NotOpenAt-try_all :
      (now j : ℕ) (is : List ℕ) (heap : List (CircuitBreaker D))
      → NotOpenAt heap j
      → NotOpenAt (try_all now is heap).1 j
  unfolding try_all
  NotOpenAt-try_all now j [] heap n = n
  NotOpenAt-try_all now j (i ∷ is) heap n = elim (Option-cases (get_elem? heap i)) [
    | inl e ↦ rw (e, try_all) (NotOpenAt-try_all now j is heap n)
    | inr (cb, e) ↦
        let n' =
          NotOpenAt-set heap i j (try_pass now cb).1
            (λ q. kept now cb (
              subst (λ o. elim o [ none ↦ Unit | some c ↦ is_open (current_state c) ≡ false ]) e
                (subst (NotOpenAt heap) (sym q) n)))
            n in
        elim (Bool-cases (try_pass now cb).0) [
          | inl p ↦
              rw (e, p, try_all) (NotOpenAt-try_all now j is (set heap i (try_pass now cb).1) n')
          | inr p ↦ rw (e, p, try_all) n'
        ]
  ]

  try_all-none :
      (now i : ℕ) (is : List ℕ) (heap : List (CircuitBreaker D))
      → get_elem? heap i ≡ none
      → try_all now (i ∷ is) heap ≡ try_all now is heap
  unfolding try_all
  try_all-none now i is heap e = ground (arith, e)

  try_all-some :
      (now i : ℕ) (is : List ℕ) (heap : List (CircuitBreaker D)) (cb : CircuitBreaker D)
      → get_elem? heap i ≡ some cb
      → try_all now (i ∷ is) heap ≡ (
          if (try_pass now cb).0
          then try_all now is (set heap i (try_pass now cb).1)
          else (false, set heap i (try_pass now cb).1))
  unfolding try_all
  try_all-some now i is heap cb e = ground (arith, e)

  -- Where the breakers of a resource all let a request pass, none of them is open afterwards, not
  -- even if it stands in the list twice.
  pub none_open_after_pass :
      (now : ℕ) (is : List ℕ) (heap : List (CircuitBreaker D))
      → (try_all now is heap).0 ≡ true
      → All (NotOpenAt (try_all now is heap).1) is
  none_open_after_pass now [] heap h = tt
  none_open_after_pass now (i ∷ is) heap h = elim (Option-cases (get_elem? heap i)) [
    | inl e ↦
        subst Claim (sym (try_all-none now i is heap e))
          (λ h'. (
            NotOpenAt-try_all now i is heap (
                subst (λ o. elim o [ none ↦ Unit | some c ↦ is_open (current_state c) ≡ false ])
                  (sym e) tt),
            none_open_after_pass now is heap h',
          ))
          h
    | inr (cb, e) ↦ elim (Bool-cases (try_pass now cb).0) [
      | inl p ↦
          subst Claim
            (sym (
              try_all-some now i is heap cb e
              ∙ ap
                  (λ b.
                    if b
                    then try_all now is (set heap i (try_pass now cb).1)
                    else (false, set heap i (try_pass now cb).1))
                  p))
            (λ h'. (
              NotOpenAt-try_all now i is (set heap i (try_pass now cb).1)
                  (NotOpenAt-set_self heap i (try_pass now cb).1 (passed now cb p)),
              none_open_after_pass now is (set heap i (try_pass now cb).1) h',
            ))
            h
      | inr p ↦ absurd (ground (arith, try_all-some now i is heap cb e, p, h))
    ]
  ]
    where
      Claim : Bool × List (CircuitBreaker D) → Type 0
      Claim r = r.0 ≡ true → All (NotOpenAt r.1) (i ∷ is)
