-- ===== src/Stat/Bucket.antt =====
-- sentinel-core/statistic/base/metric_event.h, metric_bucket.h, metric_bucket.cc: the counters of
-- one bucket. `int64_t` counters are bit patterns, and `fetch_add` wraps.
use sentinel_cpp.Prelude.{ℕ, if◌then◌else◌, add64, lt_int64}

pub data MetricEvent : Type 0 where
  pass block exception complete rt : MetricEvent

-- Constants::kMaxAllowedRt
abbrev pub max_allowed_rt : ℕ
max_allowed_rt = 4900

-- `counters_`, a field for each event, and `min_rt_`.
pub record MetricBucket : Type 0 where
  pub passes : ℕ
  pub blocks : ℕ
  pub exceptions : ℕ
  pub completes : ℕ
  pub rts : ℕ
  pub lowest_rt : ℕ

-- A new bucket: `make_unique` sets the counters to zero.
unfoldable pub new_bucket : MetricBucket
new_bucket = record {
  passes = 0;
  blocks = 0;
  exceptions = 0;
  completes = 0;
  rts = 0;
  lowest_rt = max_allowed_rt;
}

unfoldable pub init_min_rt : MetricBucket → MetricBucket
init_min_rt b = record b { lowest_rt = max_allowed_rt }

-- MetricBucket::Reset
unfoldable pub reset : MetricBucket → MetricBucket
unfolding init_min_rt
reset b = init_min_rt (record b { passes = 0; blocks = 0; exceptions = 0; completes = 0; rts = 0 })

unfoldable pub get : MetricBucket → MetricEvent → ℕ
get b pass = b.passes
get b block = b.blocks
get b exception = b.exceptions
get b complete = b.completes
get b rt = b.rts

abbrev pub min_rt : MetricBucket → ℕ
min_rt b = b.lowest_rt

unfoldable pub add : MetricEvent → ℕ → MetricBucket → MetricBucket
add pass n b = record b { passes = add64 b.passes n }
add block n b = record b { blocks = add64 b.blocks n }
add exception n b = record b { exceptions = add64 b.exceptions n }
add complete n b = record b { completes = add64 b.completes n }
add rt n b = record b { rts = add64 b.rts n }

-- MetricBucket::AddRt
unfoldable pub add_rt : ℕ → MetricBucket → MetricBucket
unfolding add
add_rt n b =
    let b' = add rt n b in if lt_int64 n b.lowest_rt then record b' { lowest_rt = n } else b'
