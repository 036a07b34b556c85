-- ===== src/Stat/Sliding/Bounds.antt =====
-- Bounds on what a metric reports, whatever its buckets hold.
use sentinel_cpp.Prelude.{
  ℕ, ◌%◌, ◌^◌, ◌≤◌, ◌≡◌, refl, arith, false, if◌then◌else◌, List, [], ◌∷◌, lt_int64, max_int64,
}
use sentinel_cpp.Stat.Bucket.{MetricBucket, min_rt, max_allowed_rt}
use sentinel_cpp.Stat.Leap.{values, at}
use sentinel_cpp.Stat.Sliding.{SlidingWindowMetric, lowest_rt, min_of, refresh}

min_of_bound :
    (bs : List MetricBucket) (low : ℕ)
    → lt_int64 max_allowed_rt low ≡ false
    → lt_int64 max_allowed_rt (min_of low bs) ≡ false
unfolding min_of
min_of_bound [] low h = h
min_of_bound (b ∷ bs) low h =
    min_of_bound bs (if lt_int64 (min_rt b) low then min_rt b else low) (ground arith)

clamped :
    (x : ℕ)
    → lt_int64 max_allowed_rt x ≡ false
    → (1 ≤ max_int64 1 x % 2 ^ 64) × (max_int64 1 x % 2 ^ 64 ≤ max_allowed_rt)
clamped x h = ground arith

-- The minimal response time that a metric reports lies between 1 and the allowed maximum.
pub lowest_rt_bounds :
    (now now' : ℕ) (m : SlidingWindowMetric)
    → (1 ≤ (lowest_rt now now' m).0 % 2 ^ 64) × ((lowest_rt now now' m).0 % 2 ^ 64 ≤ max_allowed_rt)
unfolding lowest_rt
lowest_rt_bounds now now' m =
    clamped _ (min_of_bound (values (refresh now m) (at now')) max_allowed_rt refl)
