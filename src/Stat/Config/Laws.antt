-- ===== src/Stat/Config/Laws.antt =====
-- The configuration always splits its interval into windows of equal and positive length.
use sentinel_cpp.Prelude.{◌/◌, ◌%◌, ◌<◌, ◌≡◌, arith, true, false, List, [], ◌∷◌}
use sentinel_cpp.Stat.Config.{
  nonneg, neg, StatConfig, ConfigUpdate, sample_count_property, interval_property, config_update,
}
use native.Mathlib.Nat.{div-add-mod}

pub record IsDivided (c : StatConfig) : Type 0 where
  pub some_sample : 0 < c.sample_count
  pub some_interval : 0 < c.interval_ms
  pub equal_windows : c.interval_ms % c.sample_count ≡ 0

-- Updates one after another.
pub config_updates : List ConfigUpdate → StatConfig → StatConfig
config_updates [] c = c
config_updates (u ∷ us) c = config_updates us (config_update u c).0

config_update-IsDivided :
    (u : ConfigUpdate) (c : StatConfig) → IsDivided c → IsDivided (config_update u c).0
unfolding config_update
config_update-IsDivided (sample_count_property (neg n)) c v = v
config_update-IsDivided (sample_count_property (nonneg n)) c v = ground arith
config_update-IsDivided (interval_property (neg n)) c v = v
config_update-IsDivided (interval_property (nonneg n)) c v = ground arith

-- From a configuration whose interval is a positive multiple of its positive sample count, every
-- sequence of property updates leads to such a configuration.
pub config_updates-IsDivided :
    (us : List ConfigUpdate) (c : StatConfig) → IsDivided c → IsDivided (config_updates us c)
unfolding config_updates
config_updates-IsDivided [] c v = v
config_updates-IsDivided (u ∷ us) c v =
    config_updates-IsDivided us _ (config_update-IsDivided u c v)

-- So each window of a ring made from it has a positive length.
pub window_length_pos : (c : StatConfig) → IsDivided c → 0 < c.interval_ms / c.sample_count
window_length_pos c v = grind (arith, div-add-mod c.interval_ms c.sample_count)

-- A property update resets the nodes exactly when it changes the configuration.
pub reset_iff_changed :
    (u : ConfigUpdate) (c : StatConfig)
    → ((config_update u c).1 ≡ false → (config_update u c).0 ≡ c)
      × ((config_update u c).1 ≡ true → ¬ ((config_update u c).0 ≡ c))
unfolding config_update
reset_iff_changed (sample_count_property (neg n)) c = ground arith
reset_iff_changed (sample_count_property (nonneg n)) c = ground arith
reset_iff_changed (interval_property (neg n)) c = ground arith
reset_iff_changed (interval_property (nonneg n)) c = ground arith
