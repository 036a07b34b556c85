-- ===== src/System/Tests.antt =====
-- Limits on the rate, of which the strictest valid one is in force, and two lines of /proc/stat.
use sentinel_cpp.Prelude.{
  ℕ, ◌≡◌, ◌*◌, ◌/◌, refl, true, none, some, sub64, if◌then◌else◌, str_eq, map, ◌++◌, Option, List,
  [], ◌∷◌, String, milli,
}
use sentinel_cpp.System.{SystemRule, pass_qps, cpu_usage, find_rule, is_valid_rule, config_update}
use sentinel_cpp.System.Status.{
  CpuLoadInfo, ProcReader, SystemStatusListener, get_idle_time, time_at, update_cpu_usage,
  run_cpu_listener, new_listener,
}
use sentinel_cpp.System.Status.Usage.{usage_of, grown, sum, usage_of_last_lines}
use sentinel_cpp.System.Strictest.{minimum_of, in_force_minimum}

abbrev limits : List (SystemRule ℕ)
limits =
    record { metric_type = pass_qps; threshold = 9000 }
    ∷ record { metric_type = cpu_usage; threshold = 1500 }
    ∷ record { metric_type = pass_qps; threshold = 4000 }
    ∷ []

in_force_minimum_example :
    find_rule pass_qps (config_update ⦃d = milli⦄ limits) ≡ minimum_of milli pass_qps limits none
in_force_minimum_example = in_force_minimum milli pass_qps limits

smallest : minimum_of milli pass_qps limits none ≡ some 4000
unfolding is_valid_rule
smallest = refl

abbrev proc : ProcReader ℕ
proc = record {
  starts_with_cpu = λ line. true;
  word = λ line. "cpu";
  numbers = λ line.
      if str_eq line "early"
      then 10 ∷ 0 ∷ 5 ∷ 80 ∷ 5 ∷ 0 ∷ 0 ∷ 0 ∷ 0 ∷ 0 ∷ []
      else 40 ∷ 0 ∷ 15 ∷ 130 ∷ 15 ∷ 0 ∷ 0 ∷ 0 ∷ 0 ∷ 0 ∷ [];
  load = λ line info. record info { usage = 2000 ∷ [] };
  float_ratio = λ a t. a * 1000 / t;
}

abbrev no_load : CpuLoadInfo ℕ
no_load = record { usage = []; cur_pro_num = ""; cur_pro_id = 0 }

usage_of_last_lines_example :
    (l : SystemStatusListener ℕ) × (run_cpu_listener proc
        (map (λ (r : String × Option String). (some r.0, r.1)) (("early", none) ∷ [])
          ++ (some "early", none) ∷ (some "late", some "load") ∷ [])
        (new_listener true true 0 no_load)
      ≡ some l)
    × (l.cur_cpu_usage
        ≡ proc.float_ratio
            (sub64
              (grown proc (λ u. sum u.times) (usage_of proc "early") (usage_of proc "late"))
              (grown proc get_idle_time (usage_of proc "early") (usage_of proc "late")))
            (grown proc (λ u. sum u.times) (usage_of proc "early") (usage_of proc "late")))
usage_of_last_lines_example =
    usage_of_last_lines proc (("early", none) ∷ []) "early" "late" none (some "load") true 0 no_load
      ((refl, refl), tt) (refl, refl) (refl, refl)

-- Forty of a hundred.
forty :
    proc.float_ratio
      (sub64
        (grown proc (λ u. sum u.times) (usage_of proc "early") (usage_of proc "late"))
        (grown proc get_idle_time (usage_of proc "early") (usage_of proc "late")))
      (grown proc (λ u. sum u.times) (usage_of proc "early") (usage_of proc "late"))
    ≡ 400
unfolding get_idle_time time_at
forty = refl

-- A reading that fails makes the listener dereference a null pointer.
failed_reading : update_cpu_usage proc none (new_listener true true 0 no_load) ≡ none
unfolding update_cpu_usage new_listener
failed_reading = refl
