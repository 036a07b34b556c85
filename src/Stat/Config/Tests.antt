-- ===== src/Stat/Config/Tests.antt =====
-- An update of the default configuration.
use sentinel_cpp.Prelude.{◌≡◌, refl, false}
use sentinel_cpp.Stat.Config.{nonneg, default_config, sample_count_property, config_update}

-- 3 does not divide 1000.
rejected : config_update (sample_count_property (nonneg 3)) default_config ≡ (default_config, false)
unfolding config_update
rejected = refl
