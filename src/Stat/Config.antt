-- ===== src/Stat/Config.antt =====
-- sentinel-core/statistic/base/stat_config.h and stat_config_manager.cc. `int32_t` values are read
-- as signed. An update that is taken over resets the nodes of the resources, which the caller does
-- where the result says so.
pub mod Laws
mod Tests
use sentinel_cpp.Prelude.{ℕ, ◌%◌, ◌==◌, Bool, true, false, not, ◌||◌, if◌then◌else◌}

-- An `int32_t` as it is used here.
pub data Int32 : Type 0 where
  nonneg : ℕ → Int32
  neg : ℕ → Int32

pub record StatConfig : Type 0 where
  pub sample_count : ℕ
  pub interval_ms : ℕ

-- Constants::kDefaultSampleCount, kDefaultIntervalMs
abbrev pub default_config : StatConfig
default_config = record { sample_count = 2; interval_ms = 1000 }

-- The new configuration, and whether `ResetClusterNodes` is called.
unfoldable pub update_sample_count : Int32 → StatConfig → StatConfig × Bool
update_sample_count (neg n) c = (c, false)
update_sample_count (nonneg n) c =
    if c.sample_count == n
    then (c, false)
    else if n == 0 || not (c.interval_ms % n == 0)
    then (c, false)
    else (record c { sample_count = n }, true)

unfoldable pub update_interval : Int32 → StatConfig → StatConfig × Bool
update_interval (neg n) c = (c, false)
update_interval (nonneg n) c =
    if c.interval_ms == n
    then (c, false)
    else if n == 0 || not (n % c.sample_count == 0)
    then (c, false)
    else (record c { interval_ms = n }, true)

-- SampleCountPropertyListener and IntervalPropertyListener pass each value on.
pub data ConfigUpdate : Type 0 where
  sample_count_property : Int32 → ConfigUpdate
  interval_property : Int32 → ConfigUpdate

unfoldable pub config_update : ConfigUpdate → StatConfig → StatConfig × Bool
unfolding update_sample_count update_interval
config_update (sample_count_property v) c = update_sample_count v c
config_update (interval_property v) c = update_interval v c
