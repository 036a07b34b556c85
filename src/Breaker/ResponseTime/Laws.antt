-- ===== src/Breaker/ResponseTime/Laws.antt =====
-- What a completion does to the state of an response time breaker, in each state.
use sentinel_cpp.Prelude.{
  ℕ, ◌≡◌, refl, ◌∙◌, ap, Bool, true, false, not, ◌&&◌, if◌then◌else◌, List, lt_int64, Double,
}
use sentinel_cpp.Stat.Leap.{record_at, at, values}
use sentinel_cpp.Stat.Leap.Total.{sum_of}
use sentinel_cpp.Breaker.Machine.Transition.{close_to_open, half_open_to_open, half_open_to_close}
use sentinel_cpp.Breaker.Machine.{Base, State, closed, open_, half_open, opened}
use sentinel_cpp.Breaker.ResponseTime.{
  SlowRequestCounter, ResponseTimeCircuitBreaker, record_complete, record_counts,
  handle_state_change, check_threshold, switch_state, reset, slow_ops, reset_counter,
}

module _ {D : Type 0} ⦃d : Double D⦄ where
  -- The breaker with the completion counted.
  abbrev pub counted : ℕ → ℕ → ResponseTimeCircuitBreaker D → ResponseTimeCircuitBreaker D
  counted now rt b = record b {
    sliding_counter = record_counts now (lt_int64 b.max_allowed_rt rt) b.sliding_counter;
  }

  -- `record_complete` counts first, and then acts on the state.
  in_state :
      (now : ℕ) (rt : ℕ) (b : ResponseTimeCircuitBreaker D) (s : State)
      → b.base.current_state ≡ s
      → record_complete now rt b ≡ handle_state_change s now rt (counted now rt b)
  unfolding record_complete
  in_state now rt b s e = ap (λ x. handle_state_change x now rt (counted now rt b)) e

  -- An open breaker counts the completion, and nothing else changes.
  pub complete_open :
      (now : ℕ) (rt : ℕ) (b : ResponseTimeCircuitBreaker D)
      → b.base.current_state ≡ open_
      → record_complete now rt b ≡ counted now rt b
  unfolding handle_state_change
  complete_open now rt b e = in_state now rt b open_ e

  -- The probe decides: a slow request opens the breaker again, success closes it and resets its counters.
  pub complete_half_open :
      (now : ℕ) (rt : ℕ) (b : ResponseTimeCircuitBreaker D)
      → b.base.current_state ≡ half_open
      → record_complete now rt b ≡ (
          let c = counted now rt b in
          if not (lt_int64 b.max_allowed_rt rt)
          then record c {
            base = record (b.base) { current_state = closed };
            sliding_counter = record_at slow_ops now reset_counter c.sliding_counter;
          }
          else record c { base = opened now b.base })
  unfolding handle_state_change reset
  complete_half_open now rt b e =
      in_state now rt b half_open e
      ∙ rw (half_open_to_open now b.base e, half_open_to_close b.base e)
          (go (lt_int64 b.max_allowed_rt rt))
    where
      go :
          (x : Bool)
          → (let c = counted now rt b in
              if x then record c { base = opened now b.base } else record c {
                base = record (b.base) { current_state = closed };
                sliding_counter = record_at slow_ops now reset_counter c.sliding_counter;
              })
            ≡ (let c = counted now rt b in
                if not x
                then record c {
                  base = record (b.base) { current_state = closed };
                  sliding_counter = record_at slow_ops now reset_counter c.sliding_counter;
                }
                else record c { base = opened now b.base })
      go true = refl
      go false = refl

  -- Which windows trip a closed breaker.
  abbrev pub trips : ℕ → ResponseTimeCircuitBreaker D → Bool
  trips now b =
      let slow = sum_of SlowRequestCounter.slow_count 0 (values b.sliding_counter (at now)) in
      let total = sum_of SlowRequestCounter.total_count 0 (values b.sliding_counter (at now)) in
      not (lt_int64 total b.base.rule.min_request_amount)
      && d.lt b.max_slow_request_ratio
          (d.div (d.mul (d.of_int64 slow) (d.of_int64 1)) (d.of_int64 total))

  check_threshold_lem :
      (now : ℕ) (b : ResponseTimeCircuitBreaker D)
      → b.base.current_state ≡ closed
      → check_threshold now b ≡ (if trips now b then record b { base = opened now b.base } else b)
  unfolding check_threshold switch_state
  check_threshold_lem now b e = rw (switched) (
      by_tests
        (lt_int64 (sum_of SlowRequestCounter.total_count 0 counters) b.base.rule.min_request_amount)
        _)
    where
      counters : List SlowRequestCounter
      counters = values b.sliding_counter (at now)

      switched : switch_state b.base.current_state now b ≡ record b { base = opened now b.base }
      switched =
          ap (λ s. switch_state s now b) e
          ∙ ap (λ (r : Bool × Base D). record b { base = r.1 }) (close_to_open now b.base e)

      by_tests :
          (few over : Bool)
          → (if few then b else if over then record b { base = opened now b.base } else b)
            ≡ (if not few && over then record b { base = opened now b.base } else b)
      by_tests true over = refl
      by_tests false over = refl

  -- A closed breaker opens exactly when the windows with the completion trip it.
  pub complete_closed :
      (now : ℕ) (rt : ℕ) (b : ResponseTimeCircuitBreaker D)
      → b.base.current_state ≡ closed
      → record_complete now rt b ≡ (
          let c = counted now rt b in
          if trips now c then record c { base = opened now b.base } else c)
  unfolding handle_state_change
  complete_closed now rt b e =
      in_state now rt b closed e ∙ check_threshold_lem now (counted now rt b) e
