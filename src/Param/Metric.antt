-- ===== src/Param/Metric.antt =====
-- sentinel-core/param/statistic/param_metric.h and param_metric.cc: the counts of a resource's
-- parameter values. The rings lie in a heap, since two maps point to them; each method has one
-- reading `now` of the clock, and a cache that is made is there at once.
pub mod Threads
use sentinel_cpp.Prelude.{
  ℕ, suc, ◌+◌, ◌-◌, ◌^◌, ◌==◌, if◌then◌else◌, Bool, true, false, Option, none, some, List, [], ◌∷◌,
  ◌++◌, map, length, get_elem?, set, add_int, Double,
}
use sentinel_cpp.Stat.Leap.{
  Window, LeapArray, at, current_window, record_at, values, is_bucket_deprecated,
}
use sentinel_cpp.Param.Value.{AnyValue}
use sentinel_cpp.Param.Cache.{Cache, counter}
use sentinel_cpp.Param.Rule.{ParamLeapArrayKey, key_eq}
use sentinel_cpp.Param.Bucket.{
  ParamMetricEvent, pass, block, ParamBucket, ParamLeapArray, bucket_get, bucket_touch, bucket_add,
  param_ops, new_param_leap_array,
}

pub record ParamMetric (C : Type 0) : Type 0 where
  pub thread_count_map : List (ℕ × C)
  pub rolling_params : List (ParamLeapArrayKey × ℕ)
  pub index_map : List (ℕ × ℕ)
  pub heap : List (ParamLeapArray C)

abbrev pub new_param_metric : {C : Type 0} → ParamMetric C
new_param_metric = record { thread_count_map = []; rolling_params = []; index_map = []; heap = [] }

-- ParamMetric::Clear
unfoldable pub clear_metric : {C : Type 0} → ParamMetric C → ParamMetric C
clear_metric m = record m { thread_count_map = []; rolling_params = []; index_map = [] }

-- `rolling_params_.find`
abbrev pub find_ring : ParamLeapArrayKey → List (ParamLeapArrayKey × ℕ) → Option ℕ
find_ring k [] = none
find_ring k ((j, p) ∷ m) = if key_eq j k then some p else find_ring k m

-- `index_map_.find`: any ring under the index.
abbrev find_index : ℕ → List (ℕ × ℕ) → Option ℕ
find_index k [] = none
find_index k ((j, i) ∷ m) = if j == k then some i else find_index k m

module _ {C : Type 0} where
  -- `thread_count_map_.find`
  abbrev pub find_cache : ℕ → List (ℕ × C) → Option C
  find_cache k [] = none
  find_cache k ((j, c) ∷ m) = if j == k then some c else find_cache k m

  -- A change of the cache under an index, if there is one.
  abbrev pub change_cache : ℕ → (C → C) → List (ℕ × C) → List (ℕ × C)
  change_cache k f [] = []
  change_cache k f ((j, c) ∷ m) = if j == k then (j, f c) ∷ m else (j, c) ∷ change_cache k f m

module _ {C : Type 0} (ops : Cache C) where
  -- The loop of `AddThreadCount` and `DecreaseThreadCount`, from an index on.
  unfoldable pub add_threads : ℕ → ℕ → List AnyValue → List (ℕ × C) → List (ℕ × C)
  add_threads delta idx [] m = m
  add_threads delta idx (p ∷ ps) m =
      add_threads delta (idx + 1) ps (change_cache idx (ops.increase p delta) m)

  unfoldable pub add_thread_count : List AnyValue → ParamMetric C → ParamMetric C
  unfolding add_threads
  add_thread_count ps m = record m { thread_count_map = add_threads 1 0 ps m.thread_count_map }

  -- The change is by -1.
  unfoldable pub decrease_thread_count : List AnyValue → ParamMetric C → ParamMetric C
  unfolding add_threads
  decrease_thread_count ps m = record m {
    thread_count_map = add_threads (2 ^ 64 - 1) 0 ps m.thread_count_map;
  }

  -- GetThreadCount: the count, and the metric after the look-up.
  unfoldable pub get_thread_count : ℕ → AnyValue → ParamMetric C → ℕ × ParamMetric C
  get_thread_count idx p m = (
    elim (find_cache idx m.thread_count_map) [ none ↦ 0 | some c ↦ counter ops p c ],
    record m { thread_count_map = change_cache idx (ops.touch p) m.thread_count_map },
  )

  -- A change of the ring at a place of the heap.
  change_ring :
      ℕ → (ParamLeapArray C → ParamLeapArray C) → List (ParamLeapArray C) → List (ParamLeapArray C)
  change_ring i f heap = elim (get_elem? heap i) [ none ↦ heap | some a ↦ set heap i (f a) ]

  -- The inner loop of `Add`: the rings under an index.
  add_to_rings :
      ParamMetricEvent
      → ℕ
      → AnyValue
      → ℕ
      → ℕ
      → List (ℕ × ℕ)
      → List (ParamLeapArray C)
      → List (ParamLeapArray C)
  unfolding change_ring
  add_to_rings e count p now idx [] heap = heap
  add_to_rings e count p now idx ((j, i) ∷ entries) heap = add_to_rings e count p now idx entries (
      if j == idx
      then change_ring i
          (λ a. record a {
            ring = record_at (param_ops ops a.cache_size) now (bucket_add ops e count p) a.ring;
          })
          heap
      else heap)

  add_params :
      ParamMetricEvent
      → ℕ
      → ℕ
      → ℕ
      → List AnyValue
      → List (ℕ × ℕ)
      → List (ParamLeapArray C)
      → List (ParamLeapArray C)
  unfolding add_to_rings
  add_params e count now idx [] entries heap = heap
  add_params e count now idx (p ∷ ps) entries heap =
      add_params e count now (idx + 1) ps entries (add_to_rings e count p now idx entries heap)

  -- ParamMetric::Add, AddPass, AddBlock
  unfoldable pub add_param_event :
      ParamMetricEvent → ℕ → ℕ → List AnyValue → ParamMetric C → ParamMetric C
  unfolding add_params
  add_param_event e count now ps m = record m {
    heap = add_params e count now 0 ps m.index_map m.heap;
  }

  -- The sum that a look-up makes over the windows of a ring.
  sum_get : ParamMetricEvent → AnyValue → ℕ → List (ParamBucket C) → ℕ
  unfolding bucket_get
  sum_get e p sum [] = sum
  sum_get e p sum (b ∷ bs) = sum_get e p (add_int sum (bucket_get ops e p b)) bs

  -- The look-up marks the value as used in each window that it reads.
  touch_live :
      ParamMetricEvent → AnyValue → ℕ → LeapArray (ParamBucket C) → LeapArray (ParamBucket C)
  touch_live e p now a = record a {
    array =
        map
          (λ o. elim o [
            | none ↦ none
            | some w ↦ some (
                if is_bucket_deprecated a now w
                then w
                else record w { value = bucket_touch ops e p w.value })
          ])
          a.array;
  }

  -- CurrentWindow(), Values() and the loop over them: the sum, and the ring afterwards.
  ring_sum : ParamMetricEvent → AnyValue → ℕ → ParamLeapArray C → ℕ × ParamLeapArray C
  unfolding sum_get touch_live current_window values
  ring_sum e p now a =
      let ring = (current_window (param_ops ops a.cache_size) (at now) a.ring).1 in
      (sum_get e p 0 (values ring (at now)), record a { ring = touch_live e p now ring })

  sum_at : ParamMetricEvent → AnyValue → ℕ → Option ℕ → ParamMetric C → ℕ × ParamMetric C
  unfolding ring_sum
  sum_at e p now none m = (0, m)
  sum_at e p now (some i) m = elim (get_elem? m.heap i) [
    | none ↦ (0, m)
    | some a ↦ ((ring_sum e p now a).0, record m { heap = set m.heap i (ring_sum e p now a).1 })
  ]

  -- ParamMetric::GetInterval, PassInterval, BlockInterval
  unfoldable pub get_interval :
      ParamLeapArrayKey → ParamMetricEvent → AnyValue → ℕ → ParamMetric C → ℕ × ParamMetric C
  unfolding sum_at
  get_interval key e p now m = sum_at e p now (find_ring key m.rolling_params) m

  -- ParamMetric::GetSum
  unfoldable pub get_param_sum :
      ℕ → ParamMetricEvent → AnyValue → ℕ → ParamMetric C → ℕ × ParamMetric C
  unfolding sum_at
  get_param_sum idx e p now m = sum_at e p now (find_index idx m.index_map) m

  -- ParamMetric::GetAvg: the sum by the seconds of the ring's interval. `none` is where the code reads
  -- the interval through an iterator at the end.
  unfoldable pub get_param_avg :
      {D : Type 0}
      → Double D
      → ℕ
      → ParamMetricEvent
      → AnyValue
      → ℕ
      → ParamMetric C
      → Option (ℕ × ParamMetric C)
  unfolding sum_at get_param_sum
  get_param_avg d idx e p now m = elim (find_index idx m.index_map) [
    | none ↦ none
    | some i ↦ elim (get_elem? m.heap i) [
      | none ↦ none
      | some a ↦
          let (sum, m') = get_param_sum idx e p now m in
          some (
            d.to_int
                (d.div (d.of_int64 sum) (d.div (d.of_int64 a.ring.interval_ms) (d.of_int64 1000))),
            m',
          )
    ]
  ]

  -- PassQps, BlockQps
  unfoldable pub param_pass_qps :
      {D : Type 0} → Double D → ℕ → AnyValue → ℕ → ParamMetric C → Option (ℕ × ParamMetric C)
  unfolding get_param_avg
  param_pass_qps d idx p now m = get_param_avg d idx pass p now m

  unfoldable pub param_block_qps :
      {D : Type 0} → Double D → ℕ → AnyValue → ℕ → ParamMetric C → Option (ℕ × ParamMetric C)
  unfolding get_param_avg
  param_block_qps d idx p now m = get_param_avg d idx block p now m

  add_cache : ParamLeapArrayKey → ParamMetric C → ParamMetric C
  add_cache k m = elim (find_cache k.param_idx m.thread_count_map) [
    | none ↦ record m {
      thread_count_map = (k.param_idx, ops.new_cache k.cache_size) ∷ m.thread_count_map;
    }
    | some c ↦ m
  ]

  add_ring : ParamLeapArrayKey → ParamMetric C → ParamMetric C
  add_ring k m = elim (find_ring k m.rolling_params) [
    | none ↦ record m {
      rolling_params = (k, length m.heap) ∷ m.rolling_params;
      index_map = (k.param_idx, length m.heap) ∷ m.index_map;
      heap = m.heap ++ new_param_leap_array k.sample_count k.interval_in_ms k.cache_size ∷ [];
    }
    | some i ↦ m
  ]

  -- ParamMetric::initializeForRule
  unfoldable pub initialize_for_rule : ParamLeapArrayKey → ParamMetric C → ParamMetric C
  unfolding add_cache add_ring
  initialize_for_rule k m = add_ring k (add_cache k m)
