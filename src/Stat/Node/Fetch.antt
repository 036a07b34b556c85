-- ===== src/Stat/Node/Fetch.antt =====
-- `Metrics` reports the seconds since the last fetch, and none of them twice.
use mathlib.Core.Path.{subst}
use sentinel_cpp.Prelude.{
  ℕ, ◌-◌, ◌%◌, ◌<◌, ◌≡◌, ◌≢◌, refl, arith, Bool, true, false, ◌&&◌, if◌then◌else◌, List, [], ◌∷◌,
  All, All-mono,
}
use sentinel_cpp.Stat.Leap.{Millis, at, negative}
use sentinel_cpp.Stat.Sliding.{MetricItem, details}
use sentinel_cpp.Stat.Node.{
  StatisticNode, metrics, fetch, insert_item, is_node_in_time, is_valid_metric_item, later_than,
  max_millis,
}

-- The key is after `last`, before `end`, and not after `newest`.
abbrev pub IsNews : Millis → Millis → ℕ → ℕ × MetricItem → Type 0
IsNews last newest end (k, item) =
    (later_than k last ≡ true)
    × (later_than k newest ≡ false)
    × (k < end)
    × (k ≡ item.timestamp)
    × (is_valid_metric_item item ≡ true)

IsNews-newer :
    (last newest : Millis) (t end : ℕ) (e : ℕ × MetricItem)
    → IsNews last newest end e
    → IsNews last (max_millis newest t) end e
IsNews-newer last (at u) t end (k, item) h = ground arith
IsNews-newer last (negative u) t end (k, item) h = ground arith

insert-All :
    (last newest : Millis) (end : ℕ) (item : MetricItem) (m : List (ℕ × MetricItem))
    → All (IsNews last newest end) m
    → later_than item.timestamp last ≡ true
    → item.timestamp < end
    → is_valid_metric_item item ≡ true
    → All (IsNews last (max_millis newest item.timestamp) end) (insert_item item.timestamp item m)
unfolding insert_item
insert-All last newest end item m h a b v = ground (arith, old, new newest)
  where
    old : All (IsNews last (max_millis newest item.timestamp) end) m
    old = All-mono (IsNews-newer last newest item.timestamp end) m h

    new : (o : Millis) → later_than item.timestamp (max_millis o item.timestamp) ≡ false
    new (at u) = ground arith
    new (negative u) = ground arith

in_time :
    (last : Millis) (item : MetricItem) (end : ℕ)
    → (is_node_in_time last item end && is_valid_metric_item item) ≡ true
    → (later_than item.timestamp last ≡ true)
      × (item.timestamp < end)
      × (is_valid_metric_item item ≡ true)
unfolding is_node_in_time
in_time last item end h = ground arith

-- What the loop keeps: the map holds news, up to the newest time so far.
abbrev HoldsNews : Millis → ℕ → List (ℕ × MetricItem) × Millis → Type 0
HoldsNews last end (m, newest) = All (IsNews last newest end) m

fetch_news :
    (last : Millis) (end : ℕ) (items : List MetricItem) (s : List (ℕ × MetricItem) × Millis)
    → HoldsNews last end s
    → HoldsNews last end (fetch last end items s)
unfolding fetch
fetch_news last end [] s h = h
fetch_news last end (item ∷ items) (m, newest) h =
    fetch_news last end items _
      (taken (is_node_in_time last item end && is_valid_metric_item item) refl)
  where
    taken :
        (b : Bool)
        → (is_node_in_time last item end && is_valid_metric_item item) ≡ b
        → HoldsNews last end (
            if b
            then (insert_item item.timestamp item m, max_millis newest item.timestamp)
            else (m, newest))
    taken false e = h
    taken true e =
        let (a, c, v) = in_time last item end e in insert-All last newest end item m h a c v

-- Each second that `Metrics` reports is whole at the reading of the clock, is later than the last
-- fetch and not later than the fetch time that is stored, and has something to report.
pub metrics-IsNews :
    (now : ℕ) (node : StatisticNode)
    → let (m, node') = metrics now node in
      All (IsNews node.last_fetch_timestamp node'.last_fetch_timestamp (now - now % 1000)) m
unfolding metrics
metrics-IsNews now node =
    fetch_news node.last_fetch_timestamp (now - now % 1000)
      (details now now node.rolling_counter_minute).0 ([], node.last_fetch_timestamp) tt

-- Two fetches never report the same second, if what happens between them leaves the time of the last
-- fetch alone.
pub metrics_once :
    (now later : ℕ) (node between : StatisticNode)
    → between.last_fetch_timestamp ≡ (metrics now node).1.last_fetch_timestamp
    → All (λ e. All (λ f. e.0 ≢ f.0) (metrics later between).0) (metrics now node).0
metrics_once now later node between same =
    All-mono
      (λ e old.
        All-mono (λ f new. apart e.0 f.0 old.1 (subst (λ x. later_than f.0 x ≡ true) same new.0))
          (metrics later between).0 (metrics-IsNews later between))
      (metrics now node).0 (metrics-IsNews now node)
  where
    apart :
        (j k : ℕ)
        → later_than j (metrics now node).1.last_fetch_timestamp ≡ false
        → later_than k (metrics now node).1.last_fetch_timestamp ≡ true
        → j ≢ k
    apart j k a b e = cc
