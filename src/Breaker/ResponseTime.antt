-- ===== src/Breaker/ResponseTime.antt =====
-- sentinel-core/circuitbreaker/rt_circuit_breaker.h and rt_circuit_breaker.cc: a breaker on
-- the ratio of slow requests.
pub mod Laws
use sentinel_cpp.Prelude.{ℕ, Bool, if◌then◌else◌, List, [], ◌∷◌, add64, lt_int64, Double}
use sentinel_cpp.Stat.Leap.{
  Window, LeapArray, BucketOps, Handle, at, new, reset_to, current_window, update, values,
  record_at,
}
use sentinel_cpp.Stat.Leap.Total.{sum_of}
use sentinel_cpp.Breaker.Rule.{Rule}
use sentinel_cpp.Breaker.Machine.{
  State, closed, open_, half_open, Base, new_base, from_close_to_open, from_half_open_to_open,
  from_half_open_to_close, try_pass_base,
}

pub record SlowRequestCounter : Type 0 where
  pub slow_count : ℕ
  pub total_count : ℕ

unfoldable pub add_slow_count : ℕ → SlowRequestCounter → SlowRequestCounter
add_slow_count n c = record c { slow_count = add64 c.slow_count n }

unfoldable pub add_total_count : ℕ → SlowRequestCounter → SlowRequestCounter
add_total_count n c = record c { total_count = add64 c.total_count n }

unfoldable pub reset_counter : SlowRequestCounter → SlowRequestCounter
reset_counter c = record c { slow_count = 0; total_count = 0 }

unfoldable pub reset_window_to : Window SlowRequestCounter → ℕ → Window SlowRequestCounter
unfolding reset_to reset_counter
reset_window_to w start_time =
    let w' = reset_to w start_time in record w' { value = reset_counter w'.value }

-- SlowRequestLeapArray
abbrev pub slow_ops : BucketOps SlowRequestCounter
slow_ops = record {
  new_empty_bucket = λ t. record { slow_count = 0; total_count = 0 };
  reset_window_to = reset_window_to;
}

pub record ResponseTimeCircuitBreaker (D : Type 0) : Type 0 where
  pub base : Base D
  pub max_allowed_rt : ℕ
  pub max_slow_request_ratio : D
  pub sliding_counter : LeapArray SlowRequestCounter

-- RecordComplete: the handle to the current window serves both additions.
unfoldable pub record_counts :
    ℕ → Bool → LeapArray SlowRequestCounter → LeapArray SlowRequestCounter
unfolding current_window update add_slow_count add_total_count
record_counts now slow a =
    let (counter, a1) = current_window slow_ops (at now) a in
    let a2 = if slow then update (add_slow_count 1) counter a1 else a1 in
    update (add_total_count 1) counter a2

module _ {D : Type 0} ⦃d : Double D⦄ where
  unfoldable pub new_response_time_breaker : Rule D → ResponseTimeCircuitBreaker D
  unfolding new_base new
  new_response_time_breaker rule = record {
    base = new_base rule;
    max_allowed_rt = rule.max_allowed_rt;
    max_slow_request_ratio = rule.threshold;
    sliding_counter = new 1 rule.stat_interval_ms;
  }

  unfoldable pub try_pass : ℕ → ResponseTimeCircuitBreaker D → Bool × ResponseTimeCircuitBreaker D
  unfolding try_pass_base
  try_pass now b = let (ok, base') = try_pass_base now b.base in (ok, record b { base = base' })

  unfoldable pub reset : ℕ → ResponseTimeCircuitBreaker D → ResponseTimeCircuitBreaker D
  unfolding record_at reset_counter
  reset now b = record b {
    sliding_counter = record_at slow_ops now reset_counter b.sliding_counter;
  }

  -- The `switch` on the state at the end of `RecordAndHandleStateChange`.
  switch_state : State → ℕ → ResponseTimeCircuitBreaker D → ResponseTimeCircuitBreaker D
  unfolding from_close_to_open from_half_open_to_open
  switch_state closed now b = record b { base = (from_close_to_open now b.base).1 }
  switch_state half_open now b = record b { base = (from_half_open_to_open now b.base).1 }
  switch_state open_ now b = b

  -- The tail of `RecordAndHandleStateChange`, in the closed state: trip at the threshold.
  check_threshold : ℕ → ResponseTimeCircuitBreaker D → ResponseTimeCircuitBreaker D
  unfolding switch_state
  check_threshold now b =
      let counters = values b.sliding_counter (at now) in
      let slow_count = sum_of SlowRequestCounter.slow_count 0 counters in
      let total_count = sum_of SlowRequestCounter.total_count 0 counters in
      if lt_int64 total_count b.base.rule.min_request_amount
      then b
      else let current_ratio =
          d.div (d.mul (d.of_int64 slow_count) (d.of_int64 1)) (d.of_int64 total_count) in
        if d.lt b.max_slow_request_ratio current_ratio
        then switch_state b.base.current_state now b
        else b

  unfoldable pub handle_state_change :
      State → ℕ → ℕ → ResponseTimeCircuitBreaker D → ResponseTimeCircuitBreaker D
  unfolding check_threshold from_half_open_to_open from_half_open_to_close reset
  handle_state_change open_ now rt b = b
  handle_state_change half_open now rt b =
      if lt_int64 b.max_allowed_rt rt
      then record b { base = (from_half_open_to_open now b.base).1 }
      else let (done, base') = from_half_open_to_close b.base in
        if done then reset now (record b { base = base' }) else record b { base = base' }
  handle_state_change closed now rt b = check_threshold now b

  unfoldable pub record_complete :
      ℕ → ℕ → ResponseTimeCircuitBreaker D → ResponseTimeCircuitBreaker D
  unfolding record_counts handle_state_change
  record_complete now rt b =
      let b' = record b {
        sliding_counter = record_counts now (lt_int64 b.max_allowed_rt rt) b.sliding_counter;
      } in
      handle_state_change b'.base.current_state now rt b'
