-- ===== src/Stat/Sliding/Tests.antt =====
-- A metric of two windows of 500 milliseconds.
use sentinel_cpp.Prelude.{◌%◌, ◌^◌, ◌≡◌, refl, arith, [], ◌∷◌, sum_if}
use sentinel_cpp.Stat.Bucket.{pass, block, get, new_bucket}
use sentinel_cpp.Stat.Leap.History.{History}
use sentinel_cpp.Stat.Leap.Total.{is_live}
use sentinel_cpp.Stat.Sliding.{new_metric, get_sum, add_event, add_response_time, reset_window_to}
use sentinel_cpp.Stat.Sliding.Refine.{
  MetricOp, event, response_time, perform, perform_all, amount_of, get_sum_window,
}
use sentinel_cpp.Stat.Leap.{values, current_window, record_at}

-- The newest first.
abbrev requests : History MetricOp
requests =
    (1800, event pass 5)
    ∷ (1600, response_time 30)
    ∷ (1600, event block 2)
    ∷ (1100, event pass 3)
    ∷ (900, event pass 7)
    ∷ []

passes_at_1900 : (get_sum pass 1900 1900 (perform_all (new_metric 2 1000) requests)).0 ≡ 8
unfolding get_sum perform_all perform new_metric add_event add_response_time values get new_bucket
    current_window record_at reset_window_to
passes_at_1900 = refl

get_sum_window_example :
    (get_sum pass 1900 1910 (perform_all (new_metric 2 1000) requests)).0
    ≡ sum_if (amount_of pass) (is_live 500 2 1900 1910) requests % 2 ^ 64
get_sum_window_example =
    get_sum_window pass 2 1000 1900 1910 requests (omega arith) (omega arith) refl (omega arith)
      (omega arith)
