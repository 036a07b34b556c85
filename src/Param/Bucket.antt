-- ===== src/Param/Bucket.antt =====
-- sentinel-core/param/statistic: param_event.h, param_bucket.h and .cc, param_leap_array.h and .cc.
-- The ring is that of the other statistics, with a cache of counters for each event in a window.
use sentinel_cpp.Prelude.{ℕ, List, ◌++◌}
use sentinel_cpp.Stat.Leap.{LeapArray, BucketOps, reset_to, new}
use sentinel_cpp.Param.Value.{AnyValue}
use sentinel_cpp.Param.Cache.{Cache, counter}

pub data ParamMetricEvent : Type 0 where
  pass block : ParamMetricEvent

-- `counters_`, by event.
pub record ParamBucket (C : Type 0) : Type 0 where
  pub passes : C
  pub blocks : C

pub record ParamLeapArray (C : Type 0) : Type 0 where
  pub cache_size : ℕ
  pub ring : LeapArray (ParamBucket C)

module _ {C : Type 0} (ops : Cache C) where
  unfoldable pub new_param_bucket : ℕ → ParamBucket C
  new_param_bucket capacity = record {
    passes = ops.new_cache capacity;
    blocks = ops.new_cache capacity;
  }

  abbrev pub cache_of : ParamMetricEvent → ParamBucket C → C
  cache_of pass b = b.passes
  cache_of block b = b.blocks

  change : ParamMetricEvent → (C → C) → ParamBucket C → ParamBucket C
  change pass f b = record b { passes = f b.passes }
  change block f b = record b { blocks = f b.blocks }

  -- ParamBucket::Get: the count, and the bucket after the look-up.
  unfoldable pub bucket_get : ParamMetricEvent → AnyValue → ParamBucket C → ℕ
  bucket_get e v b = counter ops v (cache_of e b)

  unfoldable pub bucket_touch : ParamMetricEvent → AnyValue → ParamBucket C → ParamBucket C
  unfolding change
  bucket_touch e v b = change e (ops.touch v) b

  unfoldable pub bucket_add : ParamMetricEvent → ℕ → AnyValue → ParamBucket C → ParamBucket C
  unfolding change
  bucket_add e count v b = change e (ops.increase v count) b

  unfoldable pub bucket_reset : ParamBucket C → ParamBucket C
  bucket_reset b = record { passes = ops.clear b.passes; blocks = ops.clear b.blocks }

  -- ParamBucket::GetPairSet, which appends.
  unfoldable pub get_pair_set :
      ParamMetricEvent → ParamBucket C → List (AnyValue × ℕ) → List (AnyValue × ℕ)
  get_pair_set e b pairs = pairs ++ ops.snapshot_pairs (cache_of e b)

  -- ParamLeapArray::NewEmptyBucket, ResetWindowTo
  abbrev pub param_ops : ℕ → BucketOps (ParamBucket C)
  param_ops cache_size = record {
    new_empty_bucket = λ t. new_param_bucket cache_size;
    reset_window_to = λ w start. record (reset_to w start) { value = bucket_reset w.value };
  }

unfoldable pub new_param_leap_array : {C : Type 0} → ℕ → ℕ → ℕ → ParamLeapArray C
unfolding new
new_param_leap_array sample_count interval_ms cache_size = record {
  cache_size = cache_size;
  ring = new sample_count interval_ms;
}
