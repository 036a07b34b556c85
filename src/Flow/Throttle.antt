-- ===== src/Flow/Throttle.antt =====
-- sentinel-core/flow/throttling_traffic_shaping_checker.h and .cc: requests at a steady pace. The
-- clock stands still during one call, and no other thread runs in it.
pub mod Pace
use sentinel_cpp.Prelude.{
  ℕ, Bool, not, if◌then◌else◌, add64, sub64, lt_int64, is_nonpos_int64, Double,
}
use sentinel_cpp.Slot.Token.{TokenResult, ok_result, blocked_result, should_wait_result}

-- ThrottlingTrafficShapingChecker
pub record Throttler : Type 0 where
  pub max_timeout : ℕ
  pub last_passed_time : ℕ

-- The part of `DoCheck` after the interval between two requests is known.
unfoldable pub schedule : ℕ → ℕ → Throttler → TokenResult × Throttler
schedule cur_time cost_time t =
    let expected_time = add64 cost_time t.last_passed_time in
    if not (lt_int64 cur_time expected_time)
    then (ok_result, record t { last_passed_time = cur_time })
    else let wait_time = sub64 (add64 cost_time t.last_passed_time) cur_time in
      if lt_int64 t.max_timeout wait_time
      then (blocked_result "timeout", t)
      else let old_time = add64 cost_time t.last_passed_time in
        let t' = record t { last_passed_time = add64 t.last_passed_time cost_time } in
        let wait_time' = sub64 old_time cur_time in
        if lt_int64 t.max_timeout wait_time'
        then (
          blocked_result "timeout",
          record t' { last_passed_time = sub64 t'.last_passed_time cost_time },
        )
        else if lt_int64 0 wait_time'
        then (should_wait_result wait_time', t')
        else (ok_result, t')

module _ {D : Type 0} ⦃d : Double D⦄ where
  -- std::round(acquire_count / threshold * 1000)
  abbrev pub cost_of : ℕ → D → ℕ
  cost_of acquire_count threshold =
      d.round (d.mul (d.div (d.of_int64 acquire_count) threshold) (d.of_int64 1000))

  unfoldable pub do_check : ℕ → ℕ → D → Throttler → TokenResult × Throttler
  unfolding schedule
  do_check now acquire_count threshold t =
      if lt_int64 acquire_count 0
      then (ok_result, t)
      else if d.le threshold (d.of_int64 0)
      then (blocked_result "blocked", t)
      else schedule now (cost_of acquire_count threshold) t
