-- ===== src/Config.antt =====
-- sentinel-core/config/local_config.h, local_config.cc and config_constants.h: the options of the
-- process, by their names. An `int32_t` is the 64-bit pattern of its value.
mod Laws
mod Tests
use sentinel_cpp.Prelude.{
  ℕ, if◌then◌else◌, Option, none, some, List, [], ◌∷◌, String, str_eq, lookup, insert, lt_int64,
}

-- What it takes from absl and the standard library: SimpleAtoi to an `int32_t` and to an `int64_t`,
-- and `std::to_string`.
pub record Numbers : Type 0 where
  pub atoi32 : String → Option ℕ
  pub atoi64 : String → Option ℕ
  pub to_string : ℕ → String

abbrev pub unknown_app_name : String
unknown_app_name = "unknown_cpp_service"

abbrev pub default_charset : String
default_charset = "UTF-8"

abbrev pub default_single_metric_file_size : ℕ
default_single_metric_file_size = 52_428_800

abbrev pub default_total_metric_file_count : ℕ
default_total_metric_file_count = 6

abbrev pub default_warm_up_cold_factor : ℕ
default_warm_up_cold_factor = 3

abbrev pub default_statistic_max_rt : ℕ
default_statistic_max_rt = 4900

-- Env
abbrev pub charset_key : String
charset_key = "CSP_SENTINEL_CHARSET"

abbrev pub single_metric_file_size_key : String
single_metric_file_size_key = "CSP_SENTINEL_METRIC_FILE_SINGLE_SIZE"

abbrev pub total_metric_file_count_key : String
total_metric_file_count_key = "CSP_SENTINEL_METRIC_FILE_TOTAL_COUNT"

abbrev pub warm_up_cold_factor_key : String
warm_up_cold_factor_key = "CSP_SENTINEL_FLOW_WARMUP_COLD_FACTOR"

abbrev pub statistic_max_rt_key : String
statistic_max_rt_key = "CSP_SENTINEL_STATISTIC_MAX_RT"

pub record LocalConfig : Type 0 where
  pub config_map : List (String × String)
  pub app_name : String

-- `emplace`, which keeps what a key has.
abbrev pub emplace : String → String → List (String × String) → List (String × String)
emplace key value m = elim (lookup key m) [ none ↦ insert key value m | some old ↦ m ]

unfoldable pub set_config : String → String → LocalConfig → LocalConfig
set_config key value c = record c { config_map = emplace key value c.config_map }

unfoldable pub set_config_if_not_exists : String → String → LocalConfig → LocalConfig
set_config_if_not_exists key value c = elim (lookup key c.config_map) [
  | some old ↦ c
  | none ↦ set_config key value c
]

pub erase : String → List (String × String) → List (String × String)
erase key [] = []
erase key ((k, v) ∷ m) = let rest = erase key m in if str_eq k key then rest else (k, v) ∷ rest

unfoldable pub remove_config : String → LocalConfig → LocalConfig
unfolding erase
remove_config key c = record c { config_map = erase key c.config_map }

unfoldable pub get_config : String → LocalConfig → String
get_config key c = elim (lookup key c.config_map) [ none ↦ "" | some v ↦ v ]

module _ (numbers : Numbers) where
  -- GetInt32 and GetInt64, for the reading of either.
  unfoldable pub get_int : (String → Option ℕ) → String → ℕ → LocalConfig → ℕ
  unfolding get_config
  get_int atoi key default_value c =
      let v = get_config key c in
      if str_eq v "" then default_value else elim (atoi v) [ none ↦ default_value | some x ↦ x ]

  unfoldable pub warm_up_cold_factor : LocalConfig → ℕ
  unfolding get_int
  warm_up_cold_factor c =
      let cold_factor =
        get_int numbers.atoi32 warm_up_cold_factor_key default_warm_up_cold_factor c in
      if lt_int64 1 cold_factor then cold_factor else default_warm_up_cold_factor

  unfoldable pub statistic_max_rt : LocalConfig → ℕ
  unfolding get_int
  statistic_max_rt c =
      let max_rt = get_int numbers.atoi32 statistic_max_rt_key default_statistic_max_rt c in
      if lt_int64 max_rt 0 then default_statistic_max_rt else max_rt

  unfoldable pub total_metric_file_count : LocalConfig → ℕ
  unfolding get_int
  total_metric_file_count c =
      get_int numbers.atoi32 total_metric_file_count_key default_total_metric_file_count c

  unfoldable pub single_metric_file_size : LocalConfig → ℕ
  unfolding get_int
  single_metric_file_size c =
      get_int numbers.atoi64 single_metric_file_size_key default_single_metric_file_size c

  -- ResolveAppName, for the name in the environment.
  unfoldable pub resolve_app_name : Option String → LocalConfig → LocalConfig
  resolve_app_name none c = record c { app_name = unknown_app_name }
  resolve_app_name (some name) c = record c { app_name = name }

  -- Initialize
  unfoldable pub initialize : Option String → LocalConfig → LocalConfig
  unfolding resolve_app_name
  initialize app_name_env c =
      let c' = resolve_app_name app_name_env c in
      record c' {
        config_map = emplace statistic_max_rt_key (numbers.to_string default_statistic_max_rt) (
            emplace warm_up_cold_factor_key (numbers.to_string default_warm_up_cold_factor) (
              emplace total_metric_file_count_key
                (numbers.to_string default_total_metric_file_count)
                (emplace single_metric_file_size_key
                  (numbers.to_string default_single_metric_file_size)
                  (emplace charset_key default_charset c'.config_map))));
      }

  -- The constructor.
  unfoldable pub new_local_config : Option String → LocalConfig
  unfolding initialize
  new_local_config app_name_env =
      initialize app_name_env (record { config_map = []; app_name = "" })

-- Calls of SetConfig in turn.
unfoldable pub set_all : List (String × String) → LocalConfig → LocalConfig
set_all [] c = c
set_all ((key, value) ∷ calls) c = set_all calls (set_config key value c)
