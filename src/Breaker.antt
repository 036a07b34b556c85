-- ===== src/Breaker.antt =====
-- sentinel-core/circuitbreaker: circuit breakers, their rules, and the slots that use them.
pub mod Rule
pub mod Machine
pub mod Error
pub mod ResponseTime
pub mod CircuitBreaker
mod Tests
pub mod Manager
