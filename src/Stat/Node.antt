-- ===== src/Stat/Node.antt =====
-- sentinel-core/statistic/node/statistic_node.h and statistic_node.cc: the statistics of one
-- resource, tag or of all inbound traffic. The clock stands still during one call of a method, so
-- that each method has one reading `now`.
pub mod Laws
pub mod Fetch
mod Tests
use sentinel_cpp.Prelude.{
  ℕ, ◌+◌, ◌-◌, ◌*◌, ◌%◌, ◌^◌, ltb, ◌==◌, if◌then◌else◌, Bool, true, false, ◌&&◌, ◌||◌, List, [],
  ◌∷◌, ◌++◌, add64, inc32, dec32, lt_int64, Double,
}
use sentinel_cpp.Stat.Bucket.{MetricEvent, pass, block, exception, complete, rt}
use sentinel_cpp.Stat.Leap.{Millis, at, negative}
use sentinel_cpp.Stat.Config.{StatConfig}
use sentinel_cpp.Stat.Sliding.{
  SlidingWindowMetric, MetricItem, new_metric, get_sum, max_complete, lowest_rt, add_event,
  add_response_time, details, window_interval_in_sec,
}

pub record StatisticNode : Type 0 where
  pub rolling_counter_second : SlidingWindowMetric
  pub rolling_counter_minute : SlidingWindowMetric
  pub cur_thread_num : ℕ
  pub last_fetch_timestamp : Millis

-- The member initialisers; `negative 0` is -1.
unfoldable pub new_node : StatConfig → StatisticNode
new_node c = record {
  rolling_counter_second = new_metric c.sample_count c.interval_ms;
  rolling_counter_minute = new_metric 60 60_000;
  cur_thread_num = 0;
  last_fetch_timestamp = negative 0;
}

abbrev in_second : StatisticNode → ℕ × SlidingWindowMetric → ℕ × StatisticNode
in_second node (v, m) = (v, record node { rolling_counter_second = m })

abbrev in_minute : StatisticNode → ℕ × SlidingWindowMetric → ℕ × StatisticNode
in_minute node (v, m) = (v, record node { rolling_counter_minute = m })

-- PassCountInMinute, CompleteCountInMinute, BlockCountInMinute, ExceptionCountInMinute
unfoldable pub count_in_minute : MetricEvent → ℕ → StatisticNode → ℕ × StatisticNode
count_in_minute event now node = in_minute node (get_sum event now now node.rolling_counter_minute)

unfoldable pub total_count_in_minute : ℕ → StatisticNode → ℕ × StatisticNode
unfolding count_in_minute
total_count_in_minute now node =
    let (passed, node') = count_in_minute pass now node in
    let (blocked, node'') = count_in_minute block now node' in (add64 passed blocked, node'')

-- The sum of an event over the short window, from which the QPS methods start.
unfoldable pub count_in_second : MetricEvent → ℕ → StatisticNode → ℕ × StatisticNode
count_in_second event now node = in_second node (get_sum event now now node.rolling_counter_second)

module _ {D : Type 0} ⦃d : Double D⦄ where
  -- PassQps, BlockQps, CompleteQps, ExceptionQps
  unfoldable pub qps : MetricEvent → ℕ → StatisticNode → D × StatisticNode
  unfolding count_in_second
  qps event now node =
      let (sum, node') = count_in_second event now node in
      (d.div (d.of_int64 sum) (window_interval_in_sec node'.rolling_counter_second), node')

  unfoldable pub total_qps : ℕ → StatisticNode → D × StatisticNode
  unfolding qps
  total_qps now node =
      let (passed, node') = qps pass now node in
      let (blocked, node'') = qps block now node' in (d.add passed blocked, node'')

  unfoldable pub max_complete_qps : ℕ → StatisticNode → D × StatisticNode
  max_complete_qps now node =
      let (most, node') = in_second node (max_complete now now node.rolling_counter_second) in
      (d.of_int64 (most * node'.rolling_counter_second.sample_count % 2 ^ 64), node')

  unfoldable pub avg_rt : ℕ → StatisticNode → D × StatisticNode
  unfolding count_in_second
  avg_rt now node =
      let (completed, node') = count_in_second complete now node in
      let (total, node'') = count_in_second rt now node' in
      if completed == 0
      then (d.of_int64 0, node')
      else (d.div (d.mul (d.of_int64 total) (d.of_int64 1)) (d.of_int64 completed), node'')

  unfoldable pub node_min_rt : ℕ → StatisticNode → D × StatisticNode
  node_min_rt now node =
      let (lowest, node') = in_second node (lowest_rt now now node.rolling_counter_second) in
      (d.of_int64 lowest, node')

abbrev positive : ℕ → Bool
positive n = lt_int64 0 n

unfoldable pub is_valid_metric_item : MetricItem → Bool
is_valid_metric_item item =
    positive item.pass_qps
    || positive item.block_qps
    || positive item.complete_qps
    || positive item.exception_qps
    || positive item.response_time

abbrev pub later_than : ℕ → Millis → Bool
later_than t (at u) = ltb u t
later_than t (negative n) = true

unfoldable pub is_node_in_time : Millis → MetricItem → ℕ → Bool
is_node_in_time last item cur_time = later_than item.timestamp last && ltb item.timestamp cur_time

-- std::max(new_last_fetch_time, item->timestamp())
abbrev pub max_millis : Millis → ℕ → Millis
max_millis (negative n) t = at t
max_millis (at u) t = if ltb u t then at t else at u

has_key : ℕ → List (ℕ × MetricItem) → Bool
has_key k [] = false
has_key k ((j, item) ∷ rest) = k == j || has_key k rest

-- `unordered_map::insert`, which keeps what the key has. The order of the map is not specified.
insert_item : ℕ → MetricItem → List (ℕ × MetricItem) → List (ℕ × MetricItem)
unfolding has_key
insert_item k item m = if has_key k m then m else (k, item) ∷ m

-- The loop of `Metrics`: the map and `new_last_fetch_time`.
fetch :
    Millis → ℕ → List MetricItem → List (ℕ × MetricItem) × Millis → List (ℕ × MetricItem) × Millis
fetch last cur_time [] s = s
fetch last cur_time (item ∷ items) (m, newest) = fetch last cur_time items (
    if is_node_in_time last item cur_time && is_valid_metric_item item
    then (insert_item item.timestamp item m, max_millis newest item.timestamp)
    else (m, newest))

unfoldable pub metrics : ℕ → StatisticNode → List (ℕ × MetricItem) × StatisticNode
unfolding fetch insert_item
metrics now node =
    let cur_time = now - now % 1000 in
    let (items, minute) = details now now node.rolling_counter_minute in
    let last = node.last_fetch_timestamp in
    let (m, newest) = fetch last cur_time items ([], last) in
    (m, record node { rolling_counter_minute = minute; last_fetch_timestamp = newest })

-- AddPassRequest, AddBlockRequest, AddExceptionRequest
unfoldable pub add_request : MetricEvent → ℕ → ℕ → StatisticNode → StatisticNode
add_request event count now node = record node {
  rolling_counter_second = add_event event count now node.rolling_counter_second;
  rolling_counter_minute = add_event event count now node.rolling_counter_minute;
}

unfoldable pub add_rt_and_complete : ℕ → ℕ → ℕ → StatisticNode → StatisticNode
add_rt_and_complete response complete_count now node = record node {
  rolling_counter_second =
      add_response_time response now
        (add_event complete complete_count now node.rolling_counter_second);
  rolling_counter_minute =
      add_response_time response now
        (add_event complete complete_count now node.rolling_counter_minute);
}

unfoldable pub increase_thread_num : StatisticNode → StatisticNode
increase_thread_num node = record node { cur_thread_num = inc32 node.cur_thread_num }

unfoldable pub decrease_thread_num : StatisticNode → StatisticNode
decrease_thread_num node = record node { cur_thread_num = dec32 node.cur_thread_num }

-- Reset: the counter of the short window alone is made anew.
unfoldable pub reset_node : StatConfig → StatisticNode → StatisticNode
reset_node c node = record node { rolling_counter_second = new_metric c.sample_count c.interval_ms }
