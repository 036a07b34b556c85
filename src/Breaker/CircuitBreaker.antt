-- ===== src/Breaker/CircuitBreaker.antt =====
-- sentinel-core/circuitbreaker/circuit_breaker.h, class CircuitBreaker: the interface, over its two
-- implementations.
pub mod Steps
pub mod Probe
pub mod Recovery
use sentinel_cpp.Prelude.{ℕ, Bool, String, Double}
use sentinel_cpp.Breaker.Rule.{Rule}
use sentinel_cpp.Breaker.Machine.{State, Base}
use sentinel_cpp.Breaker.Error.{ErrorCircuitBreaker}
use sentinel_cpp.Breaker.Error
use sentinel_cpp.Breaker.ResponseTime.{ResponseTimeCircuitBreaker}
use sentinel_cpp.Breaker.ResponseTime

pub data CircuitBreaker (D : Type 0) : Type 0 where
  error_breaker : ErrorCircuitBreaker D → CircuitBreaker D
  response_time_breaker : ResponseTimeCircuitBreaker D → CircuitBreaker D

module _ {D : Type 0} where
  abbrev pub base_of : CircuitBreaker D → Base D
  base_of (error_breaker b) = b.base
  base_of (response_time_breaker b) = b.base

  abbrev pub get_rule : CircuitBreaker D → Rule D
  get_rule cb = (base_of cb).rule

  abbrev pub current_state : CircuitBreaker D → State
  current_state cb = (base_of cb).current_state

module _ {D : Type 0} ⦃d : Double D⦄ where
  unfoldable pub try_pass : ℕ → CircuitBreaker D → Bool × CircuitBreaker D
  unfolding Error.try_pass ResponseTime.try_pass
  try_pass now (error_breaker b) = let (ok, b') = Error.try_pass now b in (ok, error_breaker b')
  try_pass now (response_time_breaker b) =
      let (ok, b') = ResponseTime.try_pass now b in (ok, response_time_breaker b')

  unfoldable pub record_complete : ℕ → ℕ → String → CircuitBreaker D → CircuitBreaker D
  unfolding Error.record_complete ResponseTime.record_complete
  record_complete now rt err (error_breaker b) = error_breaker (Error.record_complete now err b)
  record_complete now rt err (response_time_breaker b) =
      response_time_breaker (ResponseTime.record_complete now rt b)
