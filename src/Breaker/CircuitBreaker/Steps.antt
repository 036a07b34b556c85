-- ===== src/Breaker/CircuitBreaker/Steps.antt =====
-- The circuit breakers as state machines: which transitions they make, when an open one lets a
-- probe pass, and that only one passes.
use mathlib.Core.Path.{subst}
use sentinel_cpp.Prelude.{
  ℕ, ◌≡◌, ◌⊎◌, inl, inr, refl, sym, ap, arith, Bool, true, false, if◌then◌else◌, String, Double,
}
use sentinel_cpp.Breaker.Machine.{
  State, closed, open_, half_open, Base, opened, try_pass_base, retry_timeout_arrived,
}
use sentinel_cpp.Breaker.Machine.Transition.{
  Edge, stay, trip, probe, reopen, recover, try_pass_closed, try_pass_half_open, try_pass_open,
}
use sentinel_cpp.Breaker.Error
use sentinel_cpp.Breaker.Error.Laws
use sentinel_cpp.Breaker.ResponseTime
use sentinel_cpp.Breaker.ResponseTime.Laws as SlowLaws
use sentinel_cpp.Breaker.CircuitBreaker.{
  CircuitBreaker, error_breaker, response_time_breaker, base_of, current_state, try_pass,
  record_complete,
}

-- What a breaker can be asked at a time.
pub data Event : Type 0 where
  tries : Event
  completes : ℕ → String → Event

pub State-cases : (s : State) → (s ≡ closed) ⊎ (s ≡ open_) ⊎ (s ≡ half_open)
State-cases closed = inl refl
State-cases open_ = inr (inl refl)
State-cases half_open = inr (inr refl)

module _ {D : Type 0} ⦃d : Double D⦄ where
  -- The state machine of `try_pass` is that of the base, and nothing else changes.
  pub base-try_pass :
      (now : ℕ) (cb : CircuitBreaker D)
      → ((try_pass now cb).0 ≡ (try_pass_base now (base_of cb)).0)
        × (base_of (try_pass now cb).1 ≡ (try_pass_base now (base_of cb)).1)
  unfolding try_pass
  base-try_pass now (error_breaker b) = (refl, refl)
  base-try_pass now (response_time_breaker b) = (refl, refl)

  abbrev pub Completed : ℕ → Base D → Base D → Type 0
  Completed now b b' =
      ((b.current_state ≡ closed) × ((b' ≡ b) ⊎ (b' ≡ opened now b)))
      ⊎ ((b.current_state ≡ open_) × (b' ≡ b))
      ⊎ ((b.current_state ≡ half_open)
          × ((b' ≡ opened now b) ⊎ (b' ≡ record b { current_state = closed })))

  Completed-error :
      (now : ℕ) (err : String) (b : Error.ErrorCircuitBreaker D)
      → Completed now b.base (Error.record_complete now err b).base
  Completed-error now err b = by_state (State-cases b.base.current_state)
    where
      by_state :
          (b.base.current_state ≡ closed)
            ⊎ (b.base.current_state ≡ open_)
            ⊎ (b.base.current_state ≡ half_open)
          → Completed now b.base (Error.record_complete now err b).base
      by_state (inl e) = rw (Laws.complete_closed now err b e) (ground arith)
      by_state (inr (inl e)) = rw (Laws.complete_open now err b e) (inr (inl (e, refl)))
      by_state (inr (inr e)) = rw (Laws.complete_half_open now err b e) (ground arith)

  Completed-slow :
      (now : ℕ) (rt : ℕ) (b : ResponseTime.ResponseTimeCircuitBreaker D)
      → Completed now b.base (ResponseTime.record_complete now rt b).base
  Completed-slow now rt b = by_state (State-cases b.base.current_state)
    where
      by_state :
          (b.base.current_state ≡ closed)
            ⊎ (b.base.current_state ≡ open_)
            ⊎ (b.base.current_state ≡ half_open)
          → Completed now b.base (ResponseTime.record_complete now rt b).base
      by_state (inl e) = rw (SlowLaws.complete_closed now rt b e) (ground arith)
      by_state (inr (inl e)) = rw (SlowLaws.complete_open now rt b e) (inr (inl (e, refl)))
      by_state (inr (inr e)) = rw (SlowLaws.complete_half_open now rt b e) (ground arith)

  pub completed :
      (now rt : ℕ) (err : String) (cb : CircuitBreaker D)
      → Completed now (base_of cb) (base_of (record_complete now rt err cb))
  unfolding record_complete
  completed now rt err (error_breaker b) = Completed-error now err b
  completed now rt err (response_time_breaker b) = Completed-slow now rt b

  unfoldable pub step : ℕ × Event → CircuitBreaker D → CircuitBreaker D
  step (now, tries) cb = (try_pass now cb).1
  step (now, completes rt err) cb = record_complete now rt err cb

  -- Whether the event is a request that passes.
  abbrev pub passes : ℕ × Event → CircuitBreaker D → Bool
  passes (now, tries) cb = (try_pass now cb).0
  passes (now, completes rt err) cb = false

  try_pass_Edge :
      (now : ℕ) (b : Base D) → Edge b.current_state (try_pass_base now b).1.current_state
  try_pass_Edge now b = by_state (State-cases b.current_state)
    where
      by_state :
          (b.current_state ≡ closed) ⊎ (b.current_state ≡ open_) ⊎ (b.current_state ≡ half_open)
          → Edge b.current_state (try_pass_base now b).1.current_state
      by_state (inl e) =
          stay (ap (λ (r : Bool × Base D). r.1.current_state) (try_pass_closed now b e))
      by_state (inr (inl e)) = by_time (retry_timeout_arrived now b) (try_pass_open now b e)
        where
          by_time :
              (c : Bool)
              → try_pass_base now b
                ≡ (if c then (true, record b { current_state = half_open }) else (false, b))
              → Edge b.current_state (try_pass_base now b).1.current_state
          by_time true q = probe e (ap (λ (r : Bool × Base D). r.1.current_state) q)
          by_time false q = stay (ap (λ (r : Bool × Base D). r.1.current_state) q)
      by_state (inr (inr e)) =
          stay (ap (λ (r : Bool × Base D). r.1.current_state) (try_pass_half_open now b e))

  -- Every request and every completion moves a breaker, of either kind, along an edge of the state
  -- machine: closed to open, open to half-open, half-open to open or to closed, or nowhere.
  pub step-Edge :
      (e : ℕ × Event) (cb : CircuitBreaker D) → Edge (current_state cb) (current_state (step e cb))
  unfolding step
  step-Edge (now, tries) cb =
      subst (λ (b : Base D). Edge (current_state cb) b.current_state) (sym (base-try_pass now cb).1)
        (try_pass_Edge now (base_of cb))
  step-Edge (now, completes rt err) cb = by_cases (completed now rt err cb)
    where
      by_cases :
          Completed now (base_of cb) (base_of (record_complete now rt err cb))
          → Edge (current_state cb) (current_state (record_complete now rt err cb))
      by_cases (inl (e, inl q)) = stay (ap Base.current_state q)
      by_cases (inl (e, inr q)) = trip e (ap Base.current_state q)
      by_cases (inr (inl (e, q))) = stay (ap Base.current_state q)
      by_cases (inr (inr (e, inl q))) = reopen e (ap Base.current_state q)
      by_cases (inr (inr (e, inr q))) = recover e (ap Base.current_state q)
