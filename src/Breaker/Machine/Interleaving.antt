-- ===== src/Breaker/Machine/Interleaving.antt =====
-- The breaker under threads: TryPass and the changes of state of a completion, one access of the
-- shared memory at a time, by any number of threads in any order.
use sentinel_cpp.Prelude.{ℕ, ◌+◌, ◌==◌, ◌≡◌, ◌≢◌, refl, arith, Bool, if◌then◌else◌}
use sentinel_cpp.Breaker.Machine.{
  State, closed, open_, half_open, Base, compare_exchange, retry_timeout_arrived,
  from_open_to_half_open, from_half_open_to_close, update_next_retry_timestamp,
}

-- Where a thread stands, with its local variable.
pub data Pc : Type 0 where
  idle : Pc
  -- in TryPass: after the load of the state, and after RetryTimeoutArrived
  loaded : State → Pc
  arrived : Pc
  -- before the compare and exchange of FromCloseToOpen and of FromHalfOpenToOpen, and after either
  tripping : Pc
  reopening : Pc
  stamping : Pc
  -- before the compare and exchange of FromHalfOpenToClose
  closing : Pc

-- The breaker's shared fields and the threads, with counts of the openings and of the probes so far.
pub record System (D : Type 0) : Type 0 where
  pub base : Base D
  pub pc : ℕ → Pc
  pub openings : ℕ
  pub probes : ℕ

abbrev pub open_now : State → ℕ
open_now closed = 0
open_now open_ = 1
open_now half_open = 0

module _ {D : Type 0} where
  abbrev pub goes : ℕ → Pc → System D → System D
  goes i p s = record s { pc = λ j. if i == j then p else s.pc j }

  -- What `compare_exchange_strong` does with the state: whether it wins, and the fields after it.
  unfoldable pub exchange : State → State → Base D → Bool × Base D
  unfolding compare_exchange
  exchange expected desired b = compare_exchange expected desired b b.current_state

  -- The exchange to the open state by the thread `i`: the winner has its retry time still to set.
  abbrev pub opens_from : State → ℕ → System D → System D
  opens_from expected i s =
      let (won, b) = exchange expected open_ s.base in
      goes i (if won then stamping else idle)
        (record s { base = b; openings = if won then s.openings + 1 else s.openings })

  -- The probe of the thread `i`, which FromOpenToHalfOpen lets pass or not.
  abbrev pub probes_by : ℕ → System D → System D
  probes_by i s =
      let (won, b) = from_open_to_half_open s.base in
      goes i idle (record s { base = b; probes = if won then s.probes + 1 else s.probes })

  -- One access by the thread `i`. Which completions try to change the state is left open: any may.
  pub data Step (s : System D) : System D → Type 0 where
    loads : (i : ℕ) → s.pc i ≡ idle → Step s (goes i (loaded s.base.current_state) s)
    returns : (i : ℕ) (t : State) → s.pc i ≡ loaded t → t ≢ open_ → Step s (goes i idle s)
    looks :
        (i now : ℕ)
        → s.pc i ≡ loaded open_
        → Step s (goes i (if retry_timeout_arrived now s.base then arrived else idle) s)
    tries_probe : (i : ℕ) → s.pc i ≡ arrived → Step s (probes_by i s)
    trips : (i : ℕ) → s.pc i ≡ idle → Step s (goes i tripping s)
    fails_probe : (i : ℕ) → s.pc i ≡ idle → Step s (goes i reopening s)
    recovers : (i : ℕ) → s.pc i ≡ idle → Step s (goes i closing s)
    tries_trip : (i : ℕ) → s.pc i ≡ tripping → Step s (opens_from closed i s)
    tries_reopen : (i : ℕ) → s.pc i ≡ reopening → Step s (opens_from half_open i s)
    stamps :
        (i now : ℕ)
        → s.pc i ≡ stamping
        → Step s (goes i idle (record s { base = update_next_retry_timestamp now s.base }))
    tries_close :
        (i : ℕ)
        → s.pc i ≡ closing
        → Step s (goes i idle (record s { base = (from_half_open_to_close s.base).1 }))

  -- The states that are reached from a closed breaker that no thread uses.
  pub data Reach (b : Base D) : System D → Type 0 where
    start : Reach b (record {
      base = record b { current_state = closed };
      pc = λ i. idle;
      openings = 0;
      probes = 0;
    })
    later : {s t : System D} → Reach b s → Step s t → Reach b t

  -- Each opening has had its probe, but the one that lasts.
  abbrev pub IsMatched : System D → Type 0
  IsMatched s = s.openings ≡ s.probes + open_now s.base.current_state

  opens-IsMatched :
      (expected : State) (i : ℕ) (s : System D)
      → expected ≢ open_
      → IsMatched s
      → IsMatched (opens_from expected i s)
  unfolding exchange
  opens-IsMatched closed i s h m = ground (arith, m)
  opens-IsMatched open_ i s h m = absurd (h refl)
  opens-IsMatched half_open i s h m = ground (arith, m)

  probes-IsMatched : (i : ℕ) (s : System D) → IsMatched s → IsMatched (probes_by i s)
  unfolding from_open_to_half_open
  probes-IsMatched i s m = ground (arith, m)

  close-IsMatched :
      (s : System D)
      → IsMatched s
      → IsMatched (record s { base = (from_half_open_to_close s.base).1 })
  unfolding from_half_open_to_close
  close-IsMatched s m = ground (arith, m)

  Step-IsMatched : {s t : System D} → Step s t → IsMatched s → IsMatched t
  unfolding update_next_retry_timestamp
  Step-IsMatched (loads i e) m = m
  Step-IsMatched (returns i t e h) m = m
  Step-IsMatched (looks i now e) m = m
  Step-IsMatched {s = s} (tries_probe i e) m = probes-IsMatched i s m
  Step-IsMatched (trips i e) m = m
  Step-IsMatched (fails_probe i e) m = m
  Step-IsMatched (recovers i e) m = m
  Step-IsMatched {s = s} (tries_trip i e) m = opens-IsMatched closed i s (λ q. cc) m
  Step-IsMatched {s = s} (tries_reopen i e) m = opens-IsMatched half_open i s (λ q. cc) m
  Step-IsMatched (stamps i now e) m = m
  Step-IsMatched {s = s} (tries_close i e) m = close-IsMatched s m

  -- However the accesses of any number of threads interleave, each opening of a breaker lets exactly
  -- one probe pass before the breaker can be closed or opened again: the number of openings is that of
  -- the probes, and one more while the breaker is open.
  pub probes_match_openings :
      {b : Base D} {s : System D}
      → Reach b s
      → s.openings ≡ s.probes + open_now s.base.current_state
  probes_match_openings start = refl
  probes_match_openings (later r st) = Step-IsMatched st (probes_match_openings r)
