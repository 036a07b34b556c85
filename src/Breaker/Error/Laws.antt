-- ===== src/Breaker/Error/Laws.antt =====
-- What a completion does to the state of an error breaker, in each state.
use sentinel_cpp.Prelude.{
  ℕ, ◌≡◌, refl, ◌∙◌, ap, Bool, true, false, not, ◌&&◌, if◌then◌else◌, List, String, lt_int64,
  Double,
}
use sentinel_cpp.Stat.Leap.{record_at, at, values}
use sentinel_cpp.Stat.Leap.Total.{sum_of}
use sentinel_cpp.Breaker.Rule.{is_empty, error_ratio, same_strategy}
use sentinel_cpp.Breaker.Machine.Transition.{close_to_open, half_open_to_open, half_open_to_close}
use sentinel_cpp.Breaker.Machine.{Base, State, closed, open_, half_open, opened}
use sentinel_cpp.Breaker.Error.{
  SimpleErrorCounter, ErrorCircuitBreaker, record_complete, record_counts, handle_state_change,
  check_threshold, switch_state, reset, error_ops, reset_counter,
}

module _ {D : Type 0} ⦃d : Double D⦄ where
  -- The breaker with the completion counted.
  abbrev pub counted : ℕ → String → ErrorCircuitBreaker D → ErrorCircuitBreaker D
  counted now err b = record b { sliding_counter = record_counts now err b.sliding_counter }

  -- `record_complete` counts first, and then acts on the state.
  in_state :
      (now : ℕ) (err : String) (b : ErrorCircuitBreaker D) (s : State)
      → b.base.current_state ≡ s
      → record_complete now err b ≡ handle_state_change s now err (counted now err b)
  unfolding record_complete
  in_state now err b s e = ap (λ x. handle_state_change x now err (counted now err b)) e

  -- An open breaker counts the completion, and nothing else changes.
  pub complete_open :
      (now : ℕ) (err : String) (b : ErrorCircuitBreaker D)
      → b.base.current_state ≡ open_
      → record_complete now err b ≡ counted now err b
  unfolding handle_state_change
  complete_open now err b e = in_state now err b open_ e

  -- A completion on a half-open error breaker is counted; with an error it opens the breaker again,
  -- without one it closes it and resets the current window.
  pub complete_half_open :
      (now : ℕ) (err : String) (b : ErrorCircuitBreaker D)
      → b.base.current_state ≡ half_open
      → record_complete now err b ≡ (
          let c = counted now err b in
          if is_empty err
          then record c {
            base = record (b.base) { current_state = closed };
            sliding_counter = record_at error_ops now reset_counter c.sliding_counter;
          }
          else record c { base = opened now b.base })
  unfolding handle_state_change reset
  complete_half_open now err b e =
      in_state now err b half_open e
      ∙ rw (half_open_to_open now b.base e, half_open_to_close b.base e) (go (is_empty err))
    where
      go :
          (x : Bool)
          → (let c = counted now err b in
              if not x then record c { base = opened now b.base } else record c {
                base = record (b.base) { current_state = closed };
                sliding_counter = record_at error_ops now reset_counter c.sliding_counter;
              })
            ≡ (let c = counted now err b in
                if x
                then record c {
                  base = record (b.base) { current_state = closed };
                  sliding_counter = record_at error_ops now reset_counter c.sliding_counter;
                }
                else record c { base = opened now b.base })
      go true = refl
      go false = refl

  -- Which windows trip a closed breaker.
  abbrev pub trips : ℕ → ErrorCircuitBreaker D → Bool
  trips now b =
      let errors = sum_of SimpleErrorCounter.error_count 0 (values b.sliding_counter (at now)) in
      let total = sum_of SimpleErrorCounter.total_count 0 (values b.sliding_counter (at now)) in
      not (lt_int64 total b.base.rule.min_request_amount)
      && d.lt b.threshold (
          if same_strategy b.strategy error_ratio
          then d.div (d.mul (d.of_int64 errors) (d.of_int64 1)) (d.of_int64 total)
          else d.of_int64 errors)

  check_threshold_lem :
      (now : ℕ) (b : ErrorCircuitBreaker D)
      → b.base.current_state ≡ closed
      → check_threshold now b ≡ (if trips now b then record b { base = opened now b.base } else b)
  unfolding check_threshold switch_state
  check_threshold_lem now b e = rw (switched) (
      by_tests
        (lt_int64 (sum_of SimpleErrorCounter.total_count 0 counters) b.base.rule.min_request_amount)
        _)
    where
      counters : List SimpleErrorCounter
      counters = values b.sliding_counter (at now)

      switched : switch_state b.base.current_state now b ≡ record b { base = opened now b.base }
      switched =
          ap (λ s. switch_state s now b) e
          ∙ ap (λ (r : Bool × Base D). record b { base = r.1 }) (close_to_open now b.base e)

      by_tests :
          (few over : Bool)
          → (if few then b else if over then record b { base = opened now b.base } else b)
            ≡ (if not few && over then record b { base = opened now b.base } else b)
      by_tests true over = refl
      by_tests false over = refl

  -- A completion on a closed error breaker is counted, and then opens it until its retry timeout has
  -- passed if its windows hold enough requests and more errors, as a number or a ratio, than the
  -- threshold; otherwise nothing else changes.
  pub complete_closed :
      (now : ℕ) (err : String) (b : ErrorCircuitBreaker D)
      → b.base.current_state ≡ closed
      → record_complete now err b ≡ (
          let c = counted now err b in
          if trips now c then record c { base = opened now b.base } else c)
  unfolding handle_state_change
  complete_closed now err b e =
      in_state now err b closed e ∙ check_threshold_lem now (counted now err b) e
