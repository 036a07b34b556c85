-- ===== src/Stat/Sliding/Refine.antt =====
-- A sliding window metric counts exactly what was recorded in the windows that are live.
use mathlib.Core.Bool.{Bool}
use sentinel_cpp.Prelude.{
  ℕ, ◌+◌, ◌/◌, ◌%◌, ◌^◌, ◌≤◌, ◌<◌, ◌≡◌, refl, ap, arith, if◌then◌else◌, true, false, [], ◌∷◌,
  sum_if,
}
use sentinel_cpp.Stat.Bucket.{
  MetricEvent, pass, block, exception, complete, rt, MetricBucket, new_bucket, reset, get, add,
  add_rt,
}
use sentinel_cpp.Stat.Leap.{new, record_at}
use sentinel_cpp.Stat.Leap.History.{History, IsChronological, IsCounter}
use sentinel_cpp.Stat.Leap.Total.{is_live}
use sentinel_cpp.Stat.Leap.Replay.{replay, window_sum}
use sentinel_cpp.Stat.Sliding.{
  SlidingWindowMetric, reset_window_to, bucket_ops, new_metric, get_sum, add_event,
  add_response_time,
}

-- The two ways in which a metric is written.
pub data MetricOp : Type 0 where
  event : MetricEvent → ℕ → MetricOp
  response_time : ℕ → MetricOp

abbrev pub same_event : MetricEvent → MetricEvent → Bool
same_event pass pass = true
same_event block block = true
same_event exception exception = true
same_event complete complete = true
same_event rt rt = true
same_event _ _ = false

-- What an operation adds to an event's counter.
abbrev pub amount : MetricEvent → MetricOp → ℕ
amount e (event f n) = if same_event e f then n else 0
amount e (response_time n) = if same_event e rt then n else 0

apply_op : MetricOp → MetricBucket → MetricBucket
unfolding add add_rt
apply_op (event e n) b = add e n b
apply_op (response_time n) b = add_rt n b

-- One call of a method that writes.
unfoldable pub perform : ℕ × MetricOp → SlidingWindowMetric → SlidingWindowMetric
perform (t, event e n) m = add_event e n t m
perform (t, response_time n) m = add_response_time n t m

-- The metric after a history of calls, the newest first.
unfoldable pub perform_all : SlidingWindowMetric → History MetricOp → SlidingWindowMetric
perform_all m [] = m
perform_all m (op ∷ log) = perform op (perform_all m log)

counted :
    (e : MetricEvent) (op : MetricOp) (b : MetricBucket)
    → get (apply_op op b) e % 2 ^ 64 ≡ (get b e + amount e op) % 2 ^ 64
unfolding apply_op get
counted pass (event f n) b = ground arith
counted block (event f n) b = ground arith
counted exception (event f n) b = ground arith
counted complete (event f n) b = ground arith
counted rt (event f n) b = ground arith
counted pass (response_time n) b = ground arith
counted block (response_time n) b = ground arith
counted exception (response_time n) b = ground arith
counted complete (response_time n) b = ground arith
counted rt (response_time n) b = ground arith

zero_at_start : (e : MetricEvent) → get new_bucket e ≡ 0
unfolding get new_bucket
zero_at_start pass = refl
zero_at_start _ = refl

zero_at_reset : (e : MetricEvent) (b : MetricBucket) → get (reset b) e ≡ 0
unfolding get reset
zero_at_reset pass b = refl
zero_at_reset _ b = refl

-- Each event's counter is a counter of the ring.
event-IsCounter : (e : MetricEvent) → IsCounter bucket_ops apply_op (λ b. get b e) (amount e)
unfolding reset_window_to
event-IsCounter e = record {
  reading_new = λ t. zero_at_start e;
  reading_reset = λ w s. zero_at_reset e w.value;
  start_reset = λ w s. refl;
  reading_apply = λ op b. counted e op b;
}

perform_all-replay :
    (m : SlidingWindowMetric) (log : History MetricOp)
    → perform_all m log ≡ replay bucket_ops apply_op m log
unfolding perform_all perform replay apply_op add_event add_response_time
perform_all-replay m [] = refl
perform_all-replay m ((t, event e n) ∷ log) =
    ap (record_at bucket_ops t (add e n)) (perform_all-replay m log)
perform_all-replay m ((t, response_time n) ∷ log) =
    ap (record_at bucket_ops t (add_rt n)) (perform_all-replay m log)

abbrev pub amount_of : MetricEvent → ℕ × MetricOp → ℕ
amount_of e entry = amount e entry.1

-- For `n` windows, which divide the interval into equal parts that are not empty, and after any calls
-- at times that do not decrease and are not later than the first of two readings of the clock:
-- `GetSum` returns, modulo 2 ^ 64, the sum of what the calls added to the event in the windows that
-- are live, among the last `n` windows at the first reading and not deprecated at the second.
pub get_sum_window :
    (e : MetricEvent) (n interval now now' : ℕ) (log : History MetricOp)
    → 0 < n
    → 0 < interval / n
    → interval % n ≡ 0
    → now ≤ now'
    → IsChronological now log
    → (get_sum e now now' (perform_all (new_metric n interval) log)).0
      ≡ sum_if (amount_of e) (is_live (interval / n) n now now') log % 2 ^ 64
unfolding get_sum new_metric
get_sum_window e n interval now now' log p q whole late c =
    rw (perform_all-replay (new n interval) log) (
      window_sum bucket_ops apply_op (λ b. get b e) (amount e) (event-IsCounter e) n interval log
        now now' p q whole late c)
