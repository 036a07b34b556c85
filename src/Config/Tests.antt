-- ===== src/Config/Tests.antt =====
-- Options that are set twice.
use sentinel_cpp.Prelude.{◌≡◌, refl, none, some, ◌++◌, [], ◌∷◌, List, String, lookup}
use sentinel_cpp.Config.{
  Numbers, LocalConfig, new_local_config, get_config, set_config, set_all, remove_config,
  initialize, resolve_app_name,
}
use sentinel_cpp.Config.Laws.{get_config-set_all}

abbrev numbers : Numbers
numbers = record { atoi32 = λ t. some 5; atoi64 = λ t. some 5; to_string = λ n. "4900" }

abbrev config : LocalConfig
config = new_local_config numbers none

abbrev calls : List (String × String)
calls = ("CSP_SENTINEL_STATISTIC_MAX_RT", "1") ∷ ("color", "red") ∷ ("color", "blue") ∷ []

get_config-set_all_example :
    get_config "color" (set_all calls config)
    ≡ elim (lookup "color" (config.config_map ++ calls)) [ none ↦ "" | some v ↦ v ]
get_config-set_all_example = get_config-set_all calls config "color"

first_counts : get_config "color" (set_all calls config) ≡ "red"
unfolding get_config set_all set_config new_local_config initialize resolve_app_name
first_counts = refl

default_stays : get_config "CSP_SENTINEL_STATISTIC_MAX_RT" (set_all calls config) ≡ "4900"
unfolding get_config set_all set_config new_local_config initialize resolve_app_name
default_stays = refl

removed_counts :
    get_config "color" (set_config "color" "blue" (remove_config "color" (set_all calls config)))
    ≡ "blue"
unfolding get_config set_all set_config new_local_config initialize resolve_app_name remove_config
removed_counts = refl
