-- ===== src/Param.antt =====
-- sentinel-core/param: flow control by the values of a call's parameters.
pub mod Value
pub mod Cache
pub mod Rule
pub mod Manager
pub mod Bucket
pub mod Metric
pub mod Checker
pub mod Slot
mod Tests
