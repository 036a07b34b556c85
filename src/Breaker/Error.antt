-- ===== src/Breaker/Error.antt =====
-- sentinel-core/circuitbreaker/error_circuit_breaker.h and error_circuit_breaker.cc: a breaker on
-- the ratio or the number of errors.
pub mod Laws
use sentinel_cpp.Prelude.{
  ℕ, ◌==◌, Bool, true, false, not, ◌&&◌, if◌then◌else◌, List, [], ◌∷◌, String, add64, lt_int64,
  Double,
}
use sentinel_cpp.Stat.Leap.{
  Window, LeapArray, BucketOps, Handle, at, new, reset_to, current_window, update, values,
  record_at,
}
use sentinel_cpp.Stat.Leap.Total.{sum_of}
use sentinel_cpp.Breaker.Rule.{Rule, Strategy, error_ratio, same_strategy, is_empty}
use sentinel_cpp.Breaker.Machine.{
  State, closed, open_, half_open, Base, new_base, from_close_to_open, from_half_open_to_open,
  from_half_open_to_close, try_pass_base,
}

pub record SimpleErrorCounter : Type 0 where
  pub error_count : ℕ
  pub total_count : ℕ

unfoldable pub add_error_count : ℕ → SimpleErrorCounter → SimpleErrorCounter
add_error_count n c = record c { error_count = add64 c.error_count n }

unfoldable pub add_total_count : ℕ → SimpleErrorCounter → SimpleErrorCounter
add_total_count n c = record c { total_count = add64 c.total_count n }

unfoldable pub reset_counter : SimpleErrorCounter → SimpleErrorCounter
reset_counter c = record c { error_count = 0; total_count = 0 }

unfoldable pub reset_window_to : Window SimpleErrorCounter → ℕ → Window SimpleErrorCounter
unfolding reset_to reset_counter
reset_window_to w start_time =
    let w' = reset_to w start_time in record w' { value = reset_counter w'.value }

-- SimpleErrorCounterLeapArray
abbrev pub error_ops : BucketOps SimpleErrorCounter
error_ops = record {
  new_empty_bucket = λ t. record { error_count = 0; total_count = 0 };
  reset_window_to = reset_window_to;
}

pub record ErrorCircuitBreaker (D : Type 0) : Type 0 where
  pub base : Base D
  pub strategy : Strategy
  pub threshold : D
  pub sliding_counter : LeapArray SimpleErrorCounter

-- RecordComplete: the handle to the current window serves both additions.
unfoldable pub record_counts :
    ℕ → String → LeapArray SimpleErrorCounter → LeapArray SimpleErrorCounter
unfolding current_window update add_error_count add_total_count
record_counts now err a =
    let (counter, a1) = current_window error_ops (at now) a in
    let a2 = if not (is_empty err) then update (add_error_count 1) counter a1 else a1 in
    update (add_total_count 1) counter a2

module _ {D : Type 0} ⦃d : Double D⦄ where
  unfoldable pub new_error_breaker : Rule D → ErrorCircuitBreaker D
  unfolding new_base new
  new_error_breaker rule = record {
    base = new_base rule;
    strategy = rule.strategy;
    threshold = rule.threshold;
    sliding_counter = new 1 rule.stat_interval_ms;
  }

  unfoldable pub try_pass : ℕ → ErrorCircuitBreaker D → Bool × ErrorCircuitBreaker D
  unfolding try_pass_base
  try_pass now b = let (ok, base') = try_pass_base now b.base in (ok, record b { base = base' })

  unfoldable pub reset : ℕ → ErrorCircuitBreaker D → ErrorCircuitBreaker D
  unfolding record_at reset_counter
  reset now b = record b {
    sliding_counter = record_at error_ops now reset_counter b.sliding_counter;
  }

  -- The `switch` on the state at the end of `RecordAndHandleStateChange`.
  switch_state : State → ℕ → ErrorCircuitBreaker D → ErrorCircuitBreaker D
  unfolding from_close_to_open from_half_open_to_open
  switch_state closed now b = record b { base = (from_close_to_open now b.base).1 }
  switch_state half_open now b = record b { base = (from_half_open_to_open now b.base).1 }
  switch_state open_ now b = b

  -- The tail of `RecordAndHandleStateChange`, in the closed state: trip at the threshold.
  check_threshold : ℕ → ErrorCircuitBreaker D → ErrorCircuitBreaker D
  unfolding switch_state
  check_threshold now b =
      let counters = values b.sliding_counter (at now) in
      let err_count = sum_of SimpleErrorCounter.error_count 0 counters in
      let total_count = sum_of SimpleErrorCounter.total_count 0 counters in
      if lt_int64 total_count b.base.rule.min_request_amount
      then b
      else let cur_value =
          if same_strategy b.strategy error_ratio
          then d.div (d.mul (d.of_int64 err_count) (d.of_int64 1)) (d.of_int64 total_count)
          else d.of_int64 err_count in
        if d.lt b.threshold cur_value then switch_state b.base.current_state now b else b

  unfoldable pub handle_state_change :
      State → ℕ → String → ErrorCircuitBreaker D → ErrorCircuitBreaker D
  unfolding check_threshold from_half_open_to_open from_half_open_to_close reset
  handle_state_change open_ now err b = b
  handle_state_change half_open now err b =
      if not (is_empty err)
      then record b { base = (from_half_open_to_open now b.base).1 }
      else let (done, base') = from_half_open_to_close b.base in
        if done then reset now (record b { base = base' }) else record b { base = base' }
  handle_state_change closed now err b = check_threshold now b

  unfoldable pub record_complete : ℕ → String → ErrorCircuitBreaker D → ErrorCircuitBreaker D
  unfolding record_counts handle_state_change
  record_complete now err b =
      let b' = record b { sliding_counter = record_counts now err b.sliding_counter } in
      handle_state_change b'.base.current_state now err b'
