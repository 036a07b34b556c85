-- ===== src/Stat/Node/Laws.antt =====
-- What a node's counters say after a history of calls.
use sentinel_cpp.Prelude.{ℕ, ◌+◌, ◌/◌, ◌%◌, ◌^◌, ◌≡◌, refl, ap, arith, [], ◌∷◌, sum_if}
use sentinel_cpp.Stat.Bucket.{MetricEvent, complete}
use sentinel_cpp.Stat.Leap.History.{History, IsChronological, IsChronological-le}
use sentinel_cpp.Stat.Leap.Total.{is_live}
use sentinel_cpp.Stat.Config.{StatConfig}
use sentinel_cpp.Stat.Config.Laws.{IsDivided, window_length_pos}
use sentinel_cpp.Stat.Sliding.{add_event}
use sentinel_cpp.Stat.Sliding.Refine.{
  MetricOp, event, response_time, perform, perform_all, amount_of, get_sum_window,
}
use sentinel_cpp.Stat.Node.{
  StatisticNode, new_node, count_in_minute, count_in_second, add_request, add_rt_and_complete,
  increase_thread_num, decrease_thread_num,
}

-- The methods of a node that write.
pub data NodeCall : Type 0 where
  requests : MetricEvent → ℕ → NodeCall
  completes : ℕ → ℕ → NodeCall
  thread_starts thread_ends : NodeCall

call : ℕ × NodeCall → StatisticNode → StatisticNode
call (t, requests e n) node = add_request e n t node
call (t, completes response n) node = add_rt_and_complete response n t node
call (t, thread_starts) node = increase_thread_num node
call (t, thread_ends) node = decrease_thread_num node

-- The node after a history of calls, the newest first.
pub calls : StatisticNode → History NodeCall → StatisticNode
unfolding call
calls node [] = node
calls node (c ∷ log) = call c (calls node log)

-- What a history of calls writes to each of the two rings.
abbrev pub writes : History NodeCall → History MetricOp
writes [] = []
writes ((t, requests e n) ∷ log) = (t, event e n) ∷ writes log
writes ((t, completes response n) ∷ log) =
    (t, response_time response) ∷ (t, event complete n) ∷ writes log
writes ((t, thread_starts) ∷ log) = writes log
writes ((t, thread_ends) ∷ log) = writes log

rings :
    (node : StatisticNode) (log : History NodeCall)
    → ((calls node log).rolling_counter_second
        ≡ perform_all node.rolling_counter_second (writes log))
      × ((calls node log).rolling_counter_minute
          ≡ perform_all node.rolling_counter_minute (writes log))
unfolding calls perform_all perform add_event add_request add_rt_and_complete increase_thread_num
    decrease_thread_num
rings node [] = (refl, refl)
rings node ((t, requests e n) ∷ log) =
    let (s, m) = rings node log in (ap (perform (t, event e n)) s, ap (perform (t, event e n)) m)
rings node ((t, completes r n) ∷ log) =
    let (s, m) = rings node log in
    (
      ap (λ x. perform (t, response_time r) (perform (t, event complete n) x)) s,
      ap (λ x. perform (t, response_time r) (perform (t, event complete n) x)) m,
    )
rings node ((t, thread_starts) ∷ log) = rings node log
rings node ((t, thread_ends) ∷ log) = rings node log

-- The times of the writes are those of the calls.
writes-IsChronological :
    (log : History NodeCall) (t : ℕ) → IsChronological t log → IsChronological t (writes log)
writes-IsChronological [] t c = tt
writes-IsChronological ((u, requests e n) ∷ log) t c = (c.0, writes-IsChronological log u c.1)
writes-IsChronological ((u, completes r n) ∷ log) t c =
    (c.0, (omega arith, writes-IsChronological log u c.1))
writes-IsChronological ((u, thread_starts) ∷ log) t c =
    IsChronological-le u t (writes log) c.0 (writes-IsChronological log u c.1)
writes-IsChronological ((u, thread_ends) ∷ log) t c =
    IsChronological-le u t (writes log) c.0 (writes-IsChronological log u c.1)

-- A count of the last minute is the sum of what the calls since then added, in the windows of one
-- second that are among the last 60 (modulo 2 ^ 64), for calls at times that do
-- not decrease and are not in the future.
pub count_in_minute_window :
    (c : StatConfig) (e : MetricEvent) (now : ℕ) (log : History NodeCall)
    → IsChronological now log
    → (count_in_minute e now (calls (new_node c) log)).0
      ≡ sum_if (amount_of e) (is_live 1000 60 now now) (writes log) % 2 ^ 64
unfolding count_in_minute new_node
count_in_minute_window c e now log h = rw (rings (new_node c) log).1 (
    get_sum_window e 60 60_000 now now (writes log) (omega arith) (omega arith) refl (omega arith)
      (writes-IsChronological log now h))

-- For a configuration that divides its interval into equal windows, and calls at times that do not
-- decrease and are not in the future, the count behind the QPS methods is the sum (modulo 2 ^ 64) of
-- what the calls added in the last `sample_count` windows.
pub count_in_second_window :
    (c : StatConfig) (e : MetricEvent) (now : ℕ) (log : History NodeCall)
    → IsDivided c
    → IsChronological now log
    → (count_in_second e now (calls (new_node c) log)).0
      ≡ sum_if
          (amount_of e)
          (is_live (c.interval_ms / c.sample_count) c.sample_count now now)
          (writes log)
        % 2 ^ 64
unfolding count_in_second new_node
count_in_second_window c e now log v h = rw (rings (new_node c) log).0 (
    get_sum_window e c.sample_count c.interval_ms now now (writes log) v.some_sample
      (window_length_pos c v) v.equal_windows (omega arith) (writes-IsChronological log now h))

-- How many threads came in and went out.
abbrev pub started : History NodeCall → ℕ
started [] = 0
started ((t, thread_starts) ∷ log) = started log + 1
started ((t, requests e n) ∷ log) = started log
started ((t, completes r n) ∷ log) = started log
started ((t, thread_ends) ∷ log) = started log

abbrev pub ended : History NodeCall → ℕ
ended [] = 0
ended ((t, thread_ends) ∷ log) = ended log + 1
ended ((t, requests e n) ∷ log) = ended log
ended ((t, completes r n) ∷ log) = ended log
ended ((t, thread_starts) ∷ log) = ended log

-- A node's thread number is always the number of threads that came in less those that went out,
-- modulo 2 ^ 32.
pub thread_balance :
    (c : StatConfig) (log : History NodeCall)
    → ((calls (new_node c) log).cur_thread_num + ended log) % 2 ^ 32 ≡ started log % 2 ^ 32
unfolding calls new_node add_request add_rt_and_complete increase_thread_num decrease_thread_num
thread_balance c [] = refl
thread_balance c ((t, requests e n) ∷ log) = thread_balance c log
thread_balance c ((t, completes r n) ∷ log) = thread_balance c log
thread_balance c ((t, thread_starts) ∷ log) = omega (arith, thread_balance c log)
thread_balance c ((t, thread_ends) ∷ log) = omega (arith, thread_balance c log)
