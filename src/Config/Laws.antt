-- ===== src/Config/Laws.antt =====
-- What setting an option does.
use mathlib.Core.List.{append-nil}
use sentinel_cpp.Prelude.{
  ◌≡◌, refl, ◌∙◌, ap, arith, if◌then◌else◌, true, false, ℕ, Option, none, some, List, [], ◌∷◌, ◌++◌,
  String, str_eq, eq_iff, lookup, insert, lookup-insert, lt_int64, Option-cases, Bool-cases, inl,
  inr,
}
use sentinel_cpp.Config.{
  LocalConfig, Numbers, emplace, set_config, get_config, set_all, warm_up_cold_factor,
  statistic_max_rt, get_int, warm_up_cold_factor_key, default_warm_up_cold_factor,
  statistic_max_rt_key, default_statistic_max_rt,
}

or_else : Option String → Option String → Option String
or_else none o = o
or_else (some v) o = some v

lookup-append :
    (asked : String) (m calls : List (String × String))
    → lookup asked (m ++ calls) ≡ or_else (lookup asked m) (lookup asked calls)
unfolding or_else
lookup-append asked [] calls = refl
lookup-append asked ((k, v) ∷ m) calls = ground (arith, lookup-append asked m calls)

same_lookup :
    (key asked : String) (m : List (String × String))
    → str_eq key asked ≡ true
    → lookup asked m ≡ lookup key m
same_lookup key asked m h = rw ((eq_iff key asked).0 h) refl

emplace-none :
    (key value : String) (m : List (String × String))
    → lookup key m ≡ none
    → emplace key value m ≡ insert key value m
emplace-none key value m h = ap (λ o. elim o [ none ↦ insert key value m | some old ↦ m ]) h

emplace-some :
    (key value : String) (m : List (String × String)) (old : String)
    → lookup key m ≡ some old
    → emplace key value m ≡ m
emplace-some key value m old h = ap (λ o. elim o [ none ↦ insert key value m | some old' ↦ m ]) h

lookup-emplace :
    (asked key value : String) (m : List (String × String))
    → lookup asked (emplace key value m)
      ≡ or_else (lookup asked m) (if str_eq key asked then some value else none)
unfolding or_else
lookup-emplace asked key value m = elim (Option-cases (lookup key m)) [
  | inl e ↦
      rw (emplace-none key value m e, lookup-insert key asked value m)
        (ground (arith, e, same_lookup key asked m))
  | inr (old, e) ↦ rw (emplace-some key value m old e) (ground (arith, e, same_lookup key asked m))
]

lookup-append_cons :
    (asked key value : String) (m calls : List (String × String))
    → lookup asked (emplace key value m ++ calls) ≡ lookup asked (m ++ (key, value) ∷ calls)
unfolding or_else
lookup-append_cons asked key value m calls =
    rw
      (
        lookup-append asked (emplace key value m) calls,
        lookup-append asked m ((key, value) ∷ calls),
        lookup-emplace asked key value m,
      )
      (ground (arith))

-- Of any calls of SetConfig the first one for a name counts, and none where the name was there: what
-- GetConfig gives is what the first pair of that name has, in the options that there were and the
-- calls behind them, and the empty text without one.
pub get_config-set_all :
    (calls : List (String × String)) (c : LocalConfig) (asked : String)
    → get_config asked (set_all calls c)
      ≡ elim (lookup asked (c.config_map ++ calls)) [ none ↦ "" | some v ↦ v ]
unfolding get_config set_all set_config
get_config-set_all [] c asked = rw append-nil refl
get_config-set_all ((key, value) ∷ calls) c asked =
    get_config-set_all calls (set_config key value c) asked
    ∙ ap (λ (o : Option String). elim o [ none ↦ "" | some v ↦ v ])
        (lookup-append_cons asked key value c.config_map calls)

more_than_one : (x : ℕ) → lt_int64 1 (if lt_int64 1 x then x else 3) ≡ true
more_than_one x = elim (Bool-cases (lt_int64 1 x)) [ inl e ↦ rw e e | inr e ↦ rw e refl ]

not_negative : (x : ℕ) → lt_int64 (if lt_int64 x 0 then 4900 else x) 0 ≡ false
not_negative x = elim (Bool-cases (lt_int64 x 0)) [ inl e ↦ rw e refl | inr e ↦ rw e e ]

-- Whatever the options are, the cold factor is more than 1, and the largest response time is not
-- negative.
pub limits_in_range :
    (numbers : Numbers) (c : LocalConfig)
    → (lt_int64 1 (warm_up_cold_factor numbers c) ≡ true)
      × (lt_int64 (statistic_max_rt numbers c) 0 ≡ false)
unfolding warm_up_cold_factor statistic_max_rt
limits_in_range numbers c = (
  more_than_one
      (get_int numbers numbers.atoi32 warm_up_cold_factor_key default_warm_up_cold_factor c),
  not_negative (get_int numbers numbers.atoi32 statistic_max_rt_key default_statistic_max_rt c),
)
