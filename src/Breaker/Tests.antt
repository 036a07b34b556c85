-- ===== src/Breaker/Tests.antt =====
-- A breaker on the error ratio: at least 2 requests in a second, and a threshold of one half.
use sentinel_cpp.Prelude.{ℕ, ◌+◌, ◌≡◌, refl, true, [], ◌∷◌, milli, Double}
use sentinel_cpp.Breaker.Rule.{Rule, error_ratio}
use sentinel_cpp.Breaker.Machine.{
  closed, open_, half_open, opened, retry_timeout_arrived, from_open_to_half_open,
}
use sentinel_cpp.Breaker.Machine.Interleaving.{
  Pc, System, goes, exchange, opens_from, probes_by, Step, Reach, start, later, open_now,
  probes_match_openings,
}
use sentinel_cpp.Breaker.Machine.Transition.{Edge}
use sentinel_cpp.Breaker.Error.{ErrorCircuitBreaker, new_error_breaker}
use sentinel_cpp.Breaker.CircuitBreaker.{
  CircuitBreaker, error_breaker, base_of, current_state, try_pass, record_complete,
}
use sentinel_cpp.Breaker.CircuitBreaker.Steps.{tries, completes, step, passes, step-Edge}
use sentinel_cpp.Breaker.CircuitBreaker.Probe.{run, open_holds, half_open_holds}
use sentinel_cpp.Breaker.CircuitBreaker.Recovery.{open_recovers}
use sentinel_cpp.Stat.Leap.{values}

instance abbrev thousandths : Double ℕ
thousandths = milli

abbrev half_errors : Rule ℕ
half_errors = record {
  resource = "shop";
  strategy = error_ratio;
  threshold = 500;
  retry_timeout_sec = 10;
  min_request_amount = 2;
  stat_interval_ms = 1000;
  max_allowed_rt = 0;
}

abbrev fresh : ErrorCircuitBreaker ℕ
fresh = new_error_breaker half_errors

-- Two errors within a second, and it is open until 12300.
tripped :
    base_of (
      step (2300, completes 5 "timeout") (step (2200, completes 5 "timeout") (error_breaker fresh)))
    ≡ opened 2300 fresh.base
unfolding step record_complete new_error_breaker values
tripped = refl

abbrev shut : CircuitBreaker ℕ
shut = error_breaker (record fresh { base = opened 2300 fresh.base })

abbrev probing : CircuitBreaker ℕ
probing = error_breaker (record fresh { base = record (fresh.base) { current_state = half_open } })

step-Edge_example : Edge (current_state shut) (current_state (step (12_300, tries) shut))
step-Edge_example = step-Edge (12_300, tries) shut

open_holds_example :
    ((run ((12_299, tries) ∷ (5000, completes 5 "") ∷ []) shut).0 ≡ 0)
    × (base_of (run ((12_299, tries) ∷ (5000, completes 5 "") ∷ []) shut).1 ≡ base_of shut)
unfolding new_error_breaker
open_holds_example =
    open_holds ((12_299, tries) ∷ (5000, completes 5 "") ∷ []) shut refl (refl, (tt, tt))

half_open_holds_example :
    ((run ((12_300, tries) ∷ (90_000, tries) ∷ []) probing).0 ≡ 0)
    × (current_state (run ((12_300, tries) ∷ (90_000, tries) ∷ []) probing).1 ≡ half_open)
half_open_holds_example =
    half_open_holds ((12_300, tries) ∷ (90_000, tries) ∷ []) probing refl (tt, (tt, tt))

open_recovers_example :
    (passes (12_300, tries) (run ((12_299, tries) ∷ (5000, completes 5 "") ∷ []) shut).1 ≡ true)
    × (current_state (
          step
            (12_400, completes 5 "")
            (step (12_300, tries) (run ((12_299, tries) ∷ (5000, completes 5 "") ∷ []) shut).1))
        ≡ closed)
unfolding run step try_pass record_complete new_error_breaker
open_recovers_example =
    open_recovers ((12_299, tries) ∷ (5000, completes 5 "") ∷ []) 12_300 12_400 5 "" shut refl
      (refl, (tt, tt)) refl refl

-- The thread 0 opens the breaker, and before it has set the retry time the thread 1 takes the probe:
-- the retry timeout of ten seconds has no effect.
abbrev begun : System ℕ
begun = record {
  base = record (fresh.base) { current_state = closed };
  pc = λ i. Pc.idle;
  openings = 0;
  probes = 0;
}

abbrev clock_seen : System ℕ
clock_seen =
    goes 1 Pc.arrived (goes 1 (Pc.loaded open_) (opens_from closed 0 (goes 0 Pc.tripping begun)))

clock_seen-Reach : Reach fresh.base clock_seen
unfolding exchange retry_timeout_arrived new_error_breaker
clock_seen-Reach =
    later
      (later (later (later start (Step.trips 0 refl)) (Step.tries_trip 0 refl)) (Step.loads 1 refl))
      (Step.looks 1 2300 refl)

early_probe :
    ((probes_by 1 clock_seen).base.current_state ≡ half_open)
    × ((probes_by 1 clock_seen).pc 0 ≡ Pc.stamping)
unfolding exchange from_open_to_half_open new_error_breaker
early_probe = (refl, refl)

probes_match_openings_example :
    (probes_by 1 clock_seen).openings
    ≡ (probes_by 1 clock_seen).probes + open_now (probes_by 1 clock_seen).base.current_state
probes_match_openings_example =
    probes_match_openings (later clock_seen-Reach (Step.tries_probe 1 refl))
