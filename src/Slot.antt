-- ===== src/Slot.antt =====
-- sentinel-core/slot: the slots that every entry runs through, and their chain.
pub mod Token
pub mod Entry
pub mod Statistic
pub mod Chain
pub mod Builder
mod Tests
