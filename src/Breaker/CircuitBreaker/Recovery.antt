-- ===== src/Breaker/CircuitBreaker/Recovery.antt =====
-- An open breaker recovers: after its retry time one good request closes it.
use sentinel_cpp.Prelude.{
  ℕ, ◌≡◌, refl, ap, ◌∙◌, Bool, true, false, not, String, List, All, lt_int64, Double,
}
use sentinel_cpp.Breaker.Rule.{is_empty}
use sentinel_cpp.Breaker.Machine.{
  open_, half_open, closed, Base, try_pass_base, retry_timeout_arrived,
}
use sentinel_cpp.Breaker.Machine.Transition.{try_pass_open}
use sentinel_cpp.Breaker.Error.Laws as ErrorLaws
use sentinel_cpp.Breaker.ResponseTime.Laws as SlowLaws
use sentinel_cpp.Breaker.CircuitBreaker.{
  CircuitBreaker, error_breaker, response_time_breaker, base_of, current_state, record_complete,
}
use sentinel_cpp.Breaker.CircuitBreaker.Steps.{Event, tries, completes, step, passes, base-try_pass}
use sentinel_cpp.Breaker.CircuitBreaker.Probe.{IsEarly, run, open_holds}

-- A completion that the kind of breaker takes for a success.
abbrev pub succeeds : {D : Type 0} → ℕ → String → CircuitBreaker D → Bool
succeeds rt err (error_breaker b) = is_empty err
succeeds rt err (response_time_breaker b) = not (lt_int64 b.max_allowed_rt rt)

module _ {D : Type 0} ⦃d : Double D⦄ where
  success_closes :
      (now rt : ℕ) (err : String) (cb : CircuitBreaker D)
      → current_state cb ≡ half_open
      → succeeds rt err cb ≡ true
      → current_state (step (now, completes rt err) cb) ≡ closed
  unfolding step record_complete
  success_closes now rt err (error_breaker b) e h =
      rw (ErrorLaws.complete_half_open now err b e, h) refl
  success_closes now rt err (response_time_breaker b) e h =
      rw (SlowLaws.complete_half_open now rt b e, h) refl

  probe_passes :
      (now : ℕ) (cb : CircuitBreaker D)
      → current_state cb ≡ open_
      → lt_int64 now (base_of cb).next_retry_timestamp ≡ false
      → (passes (now, tries) cb ≡ true) × (current_state (step (now, tries) cb) ≡ half_open)
  unfolding step retry_timeout_arrived
  probe_passes now cb e h =
      let (p, q) = base-try_pass now cb in
      let due : try_pass_base now (base_of cb)
          ≡ (true, record (base_of cb) { current_state = half_open }) =
        try_pass_open now (base_of cb) e ∙ rw h refl in
      (
        p ∙ ap (λ (r : Bool × Base D). r.0) due,
        ap Base.current_state (q ∙ ap (λ (r : Bool × Base D). r.1) due),
      )

  -- After any requests before its retry time and any completions, an open breaker lets the first
  -- request from its retry time on pass, and is closed after that request's completion if the kind of
  -- breaker takes it for a success.
  pub open_recovers :
      (es : List (ℕ × Event)) (now later rt : ℕ) (err : String) (cb : CircuitBreaker D)
      → current_state cb ≡ open_
      → All (IsEarly (base_of cb).next_retry_timestamp) es
      → lt_int64 now (base_of cb).next_retry_timestamp ≡ false
      → succeeds rt err (step (now, tries) (run es cb).1) ≡ true
      → (passes (now, tries) (run es cb).1 ≡ true)
        × (current_state (step (later, completes rt err) (step (now, tries) (run es cb).1))
            ≡ closed)
  open_recovers es now later rt err cb e early due success =
      let (none_passed, kept) = open_holds es cb e early in
      let (p, q) =
        probe_passes now (run es cb).1 (ap Base.current_state kept ∙ e)
          (ap (λ (b : Base D). lt_int64 now b.next_retry_timestamp) kept ∙ due) in
      (p, success_closes later rt err (step (now, tries) (run es cb).1) q success)
