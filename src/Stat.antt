-- ===== src/Stat.antt =====
-- sentinel-core/statistic: counters over a sliding window of time.
pub mod Bucket
pub mod Leap
pub mod Sliding
pub mod Config
pub mod Node
pub mod Storage
