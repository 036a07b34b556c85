-- ===== src/Breaker/Machine.antt =====
-- sentinel-core/circuitbreaker/circuit_breaker.h and circuit_breaker.cc: the state machine that the
-- breakers share. A method runs without interruption, so that a compare and exchange fails only
-- where the state is another; the clock is read once in a method, as `now`.
pub mod Transition
pub mod Interleaving
use sentinel_cpp.Prelude.{ℕ, ◌*◌, sext32, Bool, true, false, not, if◌then◌else◌, add64, lt_int64}
use sentinel_cpp.Breaker.Rule.{Rule}

pub data State : Type 0 where
  closed open_ half_open : State

-- AbstractCircuitBreaker
pub record Base (D : Type 0) : Type 0 where
  pub rule : Rule D
  pub retry_timeout_ms : ℕ
  pub current_state : State
  pub next_retry_timestamp : ℕ

module _ {D : Type 0} where
  unfoldable pub new_base : Rule D → Base D
  new_base rule = record {
    rule = rule;
    retry_timeout_ms = sext32 (rule.retry_timeout_sec * 1000);
    current_state = closed;
    next_retry_timestamp = 0;
  }

  unfoldable pub retry_timeout_arrived : ℕ → Base D → Bool
  retry_timeout_arrived now b = not (lt_int64 now b.next_retry_timestamp)

  unfoldable pub update_next_retry_timestamp : ℕ → Base D → Base D
  update_next_retry_timestamp now b = record b {
    next_retry_timestamp = add64 now b.retry_timeout_ms;
  }

  -- `compare_exchange_strong(expected, desired)` on `current_state_`.
  compare_exchange : State → State → Base D → State → Bool × Base D
  compare_exchange closed desired b closed = (true, record b { current_state = desired })
  compare_exchange open_ desired b open_ = (true, record b { current_state = desired })
  compare_exchange half_open desired b half_open = (true, record b { current_state = desired })
  compare_exchange _ desired b _ = (false, b)

  unfoldable pub from_close_to_open : ℕ → Base D → Bool × Base D
  unfolding compare_exchange update_next_retry_timestamp
  from_close_to_open now b =
      let (done, b') = compare_exchange closed open_ b b.current_state in
      if done then (true, update_next_retry_timestamp now b') else (false, b')

  unfoldable pub from_open_to_half_open : Base D → Bool × Base D
  unfolding compare_exchange
  from_open_to_half_open b = compare_exchange open_ half_open b b.current_state

  unfoldable pub from_half_open_to_open : ℕ → Base D → Bool × Base D
  unfolding compare_exchange update_next_retry_timestamp
  from_half_open_to_open now b =
      let (done, b') = compare_exchange half_open open_ b b.current_state in
      if done then (true, update_next_retry_timestamp now b') else (false, b')

  -- FromHalfOpenToClose: when it succeeds, the breaker calls its own `Reset`.
  unfoldable pub from_half_open_to_close : Base D → Bool × Base D
  unfolding compare_exchange
  from_half_open_to_close b = compare_exchange half_open closed b b.current_state

  -- The body that `TryPass` has in both breakers.
  try_pass_in : State → ℕ → Base D → Bool × Base D
  try_pass_in closed now b = (true, b)
  try_pass_in open_ now b =
      if retry_timeout_arrived now b then from_open_to_half_open b else (false, b)
  try_pass_in half_open now b = (false, b)

  unfoldable pub try_pass_base : ℕ → Base D → Bool × Base D
  unfolding try_pass_in retry_timeout_arrived from_open_to_half_open
  try_pass_base now b = try_pass_in b.current_state now b

  -- A base that just opened.
  abbrev pub opened : ℕ → Base D → Base D
  opened now b = record b {
    current_state = open_;
    next_retry_timestamp = add64 now b.retry_timeout_ms;
  }
