-- ===== src/Log.antt =====
-- sentinel-core/log and sentinel-core/statistic/base/metric_item.*: metrics and blocked calls as text.
pub mod Format
pub mod Decimal
pub mod Text
pub mod Stream
pub mod Disk
pub mod Names
pub mod Writer
pub mod Searcher
pub mod Task
pub mod Item
pub mod Block
pub mod Reader
pub mod Tests
