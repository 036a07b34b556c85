-- ===== src/Stat/Leap/Tests.antt =====
-- The ring at concrete times.
use sentinel_cpp.Prelude.{ℕ, suc, ◌+◌, ◌≡◌, refl, some, [], ◌∷◌}
use sentinel_cpp.Stat.Leap.{LeapArray, BucketOps, at, new, record_at, values}

-- Buckets that are numbers.
abbrev number_ops : BucketOps ℕ
number_ops = record {
  new_empty_bucket = λ t. 0;
  reset_window_to = λ w s. record w { bucket_start = s; value = 0 };
}

-- Two windows of 500 milliseconds: 3 at 1000, 4 at 1500.
abbrev two_windows : LeapArray ℕ
two_windows = record {
  interval_ms = 1000;
  sample_count = 2;
  bucket_length_ms = 500;
  array =
      some (record { bucket_start = 1000; bucket_length_ms = 500; value = 3 })
      ∷ some (record { bucket_start = 1500; bucket_length_ms = 500; value = 4 })
      ∷ [];
}

fills :
    record_at number_ops 1700 (λ v. v + 4) (record_at number_ops 1200 (λ v. v + 3) (new 2 1000))
    ≡ two_windows
unfolding record_at new
fills = refl

-- At 2000 the slot of the first window is used anew.
renews : values (record_at number_ops 2000 (λ v. v + 9) two_windows) (at 2100) ≡ 9 ∷ 4 ∷ []
unfolding record_at values
renews = refl

-- 400 belongs to a window before that at 1000.
stale : record_at number_ops 400 suc two_windows ≡ two_windows
unfolding record_at
stale = refl
