-- ===== src/Flow/Throttle/Pace.antt =====
-- The pace of a throttler: each request that it accepts is due `cost` after the one before, and
-- waits no longer than the timeout.
use sentinel_cpp.Prelude.{ℕ, ◌+◌, ◌^◌, ◌≤◌, ◌<◌, ◌≡◌, arith, none, some}
use sentinel_cpp.Slot.Token.{TokenResult, blocked}
use sentinel_cpp.Flow.Throttle.{Throttler, schedule}

-- How long the answer tells its caller to wait.
abbrev pub wait_of : TokenResult → ℕ
wait_of r = elim r.wait_ms [ none ↦ 0 | some w ↦ w ]

-- For times, costs and timeouts below 2 ^ 61: a request that is not blocked is due at the new
-- `last_passed_time`, now or after its wait, which is at most the timeout; that is at least the
-- cost after the request before it. A blocked one would have to wait longer than the timeout, and
-- leaves the throttler as it was.
pub schedule_pace :
    (now cost : ℕ) (t : Throttler)
    → now < 2 ^ 61
    → cost < 2 ^ 61
    → t.last_passed_time < 2 ^ 61
    → t.max_timeout < 2 ^ 61
    → let (r, t') = schedule now cost t in
      (t'.max_timeout ≡ t.max_timeout)
      × ((r.status ≡ blocked)
          → (t'.last_passed_time ≡ t.last_passed_time)
            × (now + t.max_timeout < t.last_passed_time + cost))
      × (¬ (r.status ≡ blocked)
          → (t'.last_passed_time ≡ now + wait_of r)
            × (wait_of r ≤ t.max_timeout)
            × (t.last_passed_time + cost ≤ t'.last_passed_time))
unfolding schedule
schedule_pace now cost t a b c e = ground arith
