-- ===== src/Stat/Sliding.antt =====
-- sentinel-core/statistic/base/bucket_leap_array.cc, sliding_window_metric.cc, and the data of
-- metric_item.h. A metric is a ring of metric buckets; its methods read the clock themselves, so the
-- readings are arguments: `now` by `CurrentWindow()`, and `now'` by the `Values()` or `Buckets()`
-- that follows.
pub mod Refine
pub mod Bounds
mod Tests
use sentinel_cpp.Prelude.{
  ℕ, ◌+◌, Bool, if◌then◌else◌, Option, none, some, List, [], ◌∷◌, lt_int64, is_nonpos_int64,
  div_int64, max_int64, Double,
}
use sentinel_cpp.Stat.Bucket.{
  MetricEvent, pass, block, exception, complete, rt, MetricBucket, new_bucket, reset, get, add,
  add_rt, min_rt, max_allowed_rt,
}
use sentinel_cpp.Stat.Leap.{
  Window, LeapArray, BucketOps, at, reset_to, new, current_window, record_at, values, buckets,
}
use sentinel_cpp.Stat.Leap.Total.{sum_of}

-- BucketLeapArray::ResetWindowTo
unfoldable pub reset_window_to : Window MetricBucket → ℕ → Window MetricBucket
unfolding reset_to reset
reset_window_to w start_time =
    let w' = reset_to w start_time in record w' { value = reset w'.value }

-- BucketLeapArray
abbrev pub bucket_ops : BucketOps MetricBucket
bucket_ops = record { new_empty_bucket = λ t. new_bucket; reset_window_to = reset_window_to }

-- The only member is the ring `sliding_window_`.
abbrev pub SlidingWindowMetric : Type 0
SlidingWindowMetric = LeapArray MetricBucket

unfoldable pub new_metric : ℕ → ℕ → SlidingWindowMetric
unfolding new
new_metric sample_count interval_ms = new sample_count interval_ms

-- What `sliding_window_->CurrentWindow()` leaves.
abbrev pub refresh : ℕ → SlidingWindowMetric → SlidingWindowMetric
refresh now m = (current_window bucket_ops (at now) m).1

pub get_sum : MetricEvent → ℕ → ℕ → SlidingWindowMetric → ℕ × SlidingWindowMetric
get_sum event now now' m =
    let m' = refresh now m in (sum_of (λ b. get b event) 0 (values m' (at now')), m')

-- The loop of `MaxComplete`.
max_of : ℕ → List MetricBucket → ℕ
max_of max [] = max
max_of max (b ∷ bs) = let c = get b complete in max_of (if lt_int64 max c then c else max) bs

unfoldable pub max_complete : ℕ → ℕ → SlidingWindowMetric → ℕ × SlidingWindowMetric
unfolding max_of
max_complete now now' m =
    let m' = refresh now m in (max_int64 1 (max_of 0 (values m' (at now'))), m')

-- The loop of `MinRt`.
min_of : ℕ → List MetricBucket → ℕ
min_of lowest [] = lowest
min_of lowest (b ∷ bs) = min_of (if lt_int64 (min_rt b) lowest then min_rt b else lowest) bs

unfoldable pub lowest_rt : ℕ → ℕ → SlidingWindowMetric → ℕ × SlidingWindowMetric
unfolding min_of
lowest_rt now now' m =
    let m' = refresh now m in (max_int64 1 (min_of max_allowed_rt (values m' (at now'))), m')

-- AddException, AddBlock, AddComplete, AddPass
unfoldable pub add_event : MetricEvent → ℕ → ℕ → SlidingWindowMetric → SlidingWindowMetric
unfolding add
add_event event n now m = record_at bucket_ops now (add event n) m

-- AddRt
unfoldable pub add_response_time : ℕ → ℕ → SlidingWindowMetric → SlidingWindowMetric
unfolding add_rt
add_response_time n now m = record_at bucket_ops now (add_rt n) m

-- MetricItem, without the resource name, which is set by its readers.
pub record MetricItem : Type 0 where
  pub timestamp : ℕ
  pub pass_qps : ℕ
  pub block_qps : ℕ
  pub complete_qps : ℕ
  pub exception_qps : ℕ
  pub response_time : ℕ

-- The body of the loop in `Details`. No window of the ring is null, nor its bucket.
item_of : Window MetricBucket → MetricItem
unfolding get
item_of w =
    let completed = get w.value complete in
    record {
      timestamp = w.bucket_start;
      pass_qps = get w.value pass;
      block_qps = get w.value block;
      complete_qps = completed;
      exception_qps = get w.value exception;
      response_time =
          if is_nonpos_int64 completed
          then get w.value rt
          else div_int64 (get w.value rt) completed;
    }

items_of : List (Window MetricBucket) → List MetricItem
items_of [] = []
items_of (w ∷ ws) = item_of w ∷ items_of ws

unfoldable pub details : ℕ → ℕ → SlidingWindowMetric → List MetricItem × SlidingWindowMetric
unfolding items_of item_of
details now now' m = let m' = refresh now m in (items_of (buckets m' (at now')), m')

module _ {D : Type 0} ⦃d : Double D⦄ where
  unfoldable pub window_interval_in_sec : SlidingWindowMetric → D
  window_interval_in_sec m = d.div (d.of_int64 m.interval_ms) (d.of_int64 1000)

  unfoldable pub get_avg : MetricEvent → ℕ → ℕ → SlidingWindowMetric → D × SlidingWindowMetric
  unfolding window_interval_in_sec get_sum
  get_avg event now now' m =
      let (sum, m') = get_sum event now now' m in
      (d.div (d.of_int64 sum) (window_interval_in_sec m'), m')
