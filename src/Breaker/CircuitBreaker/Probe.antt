-- ===== src/Breaker/CircuitBreaker/Probe.antt =====
-- While a breaker is open nothing passes before the retry time, and then one probe does.
use mathlib.Core.Path.{subst}
use sentinel_cpp.Prelude.{
  ℕ, ◌+◌, ◌≤◌, ◌≡◌, ◌⊎◌, inl, inr, refl, sym, ◌∙◌, ap, arith, Bool, true, false, if◌then◌else◌,
  List, [], ◌∷◌, All, lt_int64, Double,
}
use sentinel_cpp.Breaker.Machine.{
  closed, open_, half_open, Base, try_pass_base, retry_timeout_arrived,
}
use sentinel_cpp.Breaker.Machine.Transition.{try_pass_half_open, try_pass_open}
use sentinel_cpp.Breaker.CircuitBreaker.{CircuitBreaker, base_of, current_state, record_complete}
use sentinel_cpp.Breaker.CircuitBreaker.Steps.{
  Event, tries, completes, step, passes, base-try_pass, completed, Completed,
}

-- A request before the time `next`, or any completion.
abbrev pub IsEarly : ℕ → ℕ × Event → Type 0
IsEarly next (now, tries) = lt_int64 now next ≡ true
IsEarly next (now, completes rt err) = Unit

abbrev pub IsTry : ℕ × Event → Type 0
IsTry (now, tries) = Unit
IsTry (now, completes rt err) = ⊥

module _ {D : Type 0} ⦃d : Double D⦄ where
  -- How many requests of a sequence of events pass, and the breaker after it.
  unfoldable pub run : List (ℕ × Event) → CircuitBreaker D → ℕ × CircuitBreaker D
  run [] cb = (0, cb)
  run (e ∷ es) cb = let (n, cb') = run es (step e cb) in ((if passes e cb then n + 1 else n), cb')

  early_step :
      (e : ℕ × Event) (cb : CircuitBreaker D)
      → current_state cb ≡ open_
      → IsEarly (base_of cb).next_retry_timestamp e
      → (passes e cb ≡ false) × (base_of (step e cb) ≡ base_of cb)
  unfolding step retry_timeout_arrived
  early_step (now, tries) cb e h =
      let (p, q) = base-try_pass now cb in
      let early : try_pass_base now (base_of cb) ≡ (false, base_of cb) =
        try_pass_open now (base_of cb) e ∙ rw h in
      (p ∙ ap (λ (r : Bool × Base D). r.0) early, q ∙ ap (λ (r : Bool × Base D). r.1) early)
  early_step (now, completes rt err) cb e h = (refl, kept (completed now rt err cb))
    where
      kept :
          Completed now (base_of cb) (base_of (record_complete now rt err cb))
          → base_of (record_complete now rt err cb) ≡ base_of cb
      kept (inl (c, q)) = absurd (apart (sym e ∙ c))
        where
          apart : open_ ≡ closed → ⊥
          apart x = cc
      kept (inr (inl (c, q))) = q
      kept (inr (inr (c, q))) = absurd (apart (sym e ∙ c))
        where
          apart : open_ ≡ half_open → ⊥
          apart x = cc

  -- In a sequence of requests before its retry time and of any completions, an open breaker lets no
  -- request pass, and neither its state nor its retry time changes.
  pub open_holds :
      (es : List (ℕ × Event)) (cb : CircuitBreaker D)
      → current_state cb ≡ open_
      → All (IsEarly (base_of cb).next_retry_timestamp) es
      → ((run es cb).0 ≡ 0) × (base_of (run es cb).1 ≡ base_of cb)
  unfolding run
  open_holds [] cb e h = (refl, refl)
  open_holds (x ∷ es) cb e h =
      let (p, q) = early_step x cb e h.0 in
      let (n, r) =
        open_holds es (step x cb) (ap Base.current_state q ∙ e)
          (subst (λ (b : Base D). All (IsEarly b.next_retry_timestamp) es) (sym q) h.1) in
      (rw p n, r ∙ q)

  half_open_step :
      (e : ℕ × Event) (cb : CircuitBreaker D)
      → current_state cb ≡ half_open
      → IsTry e
      → (passes e cb ≡ false) × (current_state (step e cb) ≡ half_open)
  unfolding step
  half_open_step (now, tries) cb e h =
      let (p, q) = base-try_pass now cb in
      let shut = try_pass_half_open now (base_of cb) e in
      (
        p ∙ ap (λ (r : Bool × Base D). r.0) shut,
        ap Base.current_state (q ∙ ap (λ (r : Bool × Base D). r.1) shut) ∙ e,
      )
  half_open_step (now, completes rt err) cb e h = absurd h

  -- A half-open breaker lets none of any requests pass, and stays half-open, as long as none of them
  -- completes.
  pub half_open_holds :
      (es : List (ℕ × Event)) (cb : CircuitBreaker D)
      → current_state cb ≡ half_open
      → All IsTry es
      → ((run es cb).0 ≡ 0) × (current_state (run es cb).1 ≡ half_open)
  unfolding run
  half_open_holds [] cb e h = (refl, e)
  half_open_holds (x ∷ es) cb e h =
      let (p, q) = half_open_step x cb e h.0 in
      let (n, r) = half_open_holds es (step x cb) q h.1 in (rw p n, r)

  open_try :
      (now : ℕ) (cb : CircuitBreaker D)
      → current_state cb ≡ open_
      → ((passes (now, tries) cb ≡ false) × (current_state (step (now, tries) cb) ≡ open_))
        ⊎ ((passes (now, tries) cb ≡ true) × (current_state (step (now, tries) cb) ≡ half_open))
  unfolding step
  open_try now cb e =
      by_time (retry_timeout_arrived now (base_of cb)) (try_pass_open now (base_of cb) e)
    where
      by_time :
          (c : Bool)
          → try_pass_base now (base_of cb) ≡ (
              if c
              then (true, record (base_of cb) { current_state = half_open })
              else (false, base_of cb))
          → ((passes (now, tries) cb ≡ false) × (current_state (step (now, tries) cb) ≡ open_))
            ⊎ ((passes (now, tries) cb ≡ true) × (current_state (step (now, tries) cb) ≡ half_open))
      by_time true q =
          let (a, b) = base-try_pass now cb in
          inr (
            a ∙ ap (λ (r : Bool × Base D). r.0) q,
            ap Base.current_state (b ∙ ap (λ (r : Bool × Base D). r.1) q),
          )
      by_time false q =
          let (a, b) = base-try_pass now cb in
          inl (
            a ∙ ap (λ (r : Bool × Base D). r.0) q,
            ap Base.current_state (b ∙ ap (λ (r : Bool × Base D). r.1) q) ∙ e,
          )

  -- From the open state on, at most one of any requests passes as long as none of them completes.
  pub one_probe :
      (es : List (ℕ × Event)) (cb : CircuitBreaker D)
      → current_state cb ≡ open_
      → All IsTry es
      → (run es cb).0 ≤ 1
  unfolding run
  one_probe [] cb e h = omega arith
  one_probe ((now, tries) ∷ es) cb e h =
      by_try (open_try now cb e) (λ o. one_probe es (step (now, tries) cb) o h.1)
    where
      by_try :
          ((passes (now, tries) cb ≡ false) × (current_state (step (now, tries) cb) ≡ open_))
            ⊎ ((passes (now, tries) cb ≡ true) × (current_state (step (now, tries) cb) ≡ half_open))
          → (current_state (step (now, tries) cb) ≡ open_ → (run es (step (now, tries) cb)).0 ≤ 1)
          → (if passes (now, tries) cb
              then (run es (step (now, tries) cb)).0 + 1
              else (run es (step (now, tries) cb)).0)
            ≤ 1
      by_try (inl (p, o)) ih = rw p (ih o)
      by_try (inr (p, o)) ih =
          let (none_pass, _) = half_open_holds es (step (now, tries) cb) o h.1 in
          rw (p, none_pass) (omega arith)
  one_probe ((now, completes rt err) ∷ es) cb e h = absurd h.0
