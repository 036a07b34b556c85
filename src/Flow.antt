-- ===== src/Flow.antt =====
-- sentinel-core/flow: flow control by the rate or the concurrency of a resource.
pub mod Rule
pub mod Throttle
pub mod Shaping
pub mod Manager
pub mod Checker
mod Tests
