-- ===== src/Stat/Node/Tests.antt =====
-- A node with some requests.
use sentinel_cpp.Prelude.{◌-◌, ◌%◌, ◌^◌, ◌≡◌, ◌≢◌, refl, arith, [], ◌∷◌, All, sum_if}
use sentinel_cpp.Stat.Bucket.{pass, block}
use sentinel_cpp.Stat.Config.{default_config}
use sentinel_cpp.Stat.Leap.History.{History}
use sentinel_cpp.Stat.Leap.Total.{is_live}
use sentinel_cpp.Stat.Sliding.Refine.{amount_of}
use sentinel_cpp.Stat.Node.{StatisticNode, new_node, count_in_minute, count_in_second, metrics}
use sentinel_cpp.Stat.Node.Laws.{
  NodeCall, requests, completes, thread_starts, thread_ends, calls, writes, count_in_minute_window,
  count_in_second_window,
}
use sentinel_cpp.Stat.Node.Fetch.{IsNews, metrics-IsNews, metrics_once}

-- The newest first.
abbrev traffic : History NodeCall
traffic =
    (61_500, requests block 2)
    ∷ (61_400, thread_ends)
    ∷ (61_400, completes 20 1)
    ∷ (61_200, requests pass 1)
    ∷ (61_200, thread_starts)
    ∷ (900, requests pass 4)
    ∷ []

abbrev busy : StatisticNode
busy = calls (new_node default_config) traffic

count_in_minute_window_example :
    (count_in_minute pass 61_600 busy).0
    ≡ sum_if (amount_of pass) (is_live 1000 60 61_600 61_600) (writes traffic) % 2 ^ 64
count_in_minute_window_example =
    count_in_minute_window default_config pass 61_600 traffic (omega arith)

count_in_second_window_example :
    (count_in_second block 61_600 busy).0
    ≡ sum_if (amount_of block) (is_live 500 2 61_600 61_600) (writes traffic) % 2 ^ 64
count_in_second_window_example =
    count_in_second_window default_config block 61_600 traffic (omega arith) (omega arith)

metrics-IsNews_example :
    All
      (IsNews busy.last_fetch_timestamp
        (metrics 63_100 busy).1.last_fetch_timestamp
        (63_100 - 63_100 % 1000))
      (metrics 63_100 busy).0
metrics-IsNews_example = metrics-IsNews 63_100 busy

metrics_once_example :
    All
      (λ e. All (λ f. e.0 ≢ f.0) (metrics 64_000 (metrics 63_100 busy).1).0)
      (metrics 63_100 busy).0
metrics_once_example = metrics_once 63_100 64_000 busy (metrics 63_100 busy).1 refl
