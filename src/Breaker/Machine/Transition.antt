-- ===== src/Breaker/Machine/Transition.antt =====
-- The legal transitions of a breaker, and that `TryPass` makes no other.
use sentinel_cpp.Prelude.{ℕ, ◌≡◌, ◌∙◌, ap, Bool, true, false, if◌then◌else◌}
use sentinel_cpp.Breaker.Machine.{
  State, closed, open_, half_open, Base, try_pass_in, try_pass_base, retry_timeout_arrived,
  compare_exchange, update_next_retry_timestamp, from_close_to_open, from_half_open_to_open,
  from_open_to_half_open, from_half_open_to_close, opened,
}

-- The edges of the state machine.
pub data Edge (s t : State) : Type 0 where
  stay : t ≡ s → Edge s t
  trip : s ≡ closed → t ≡ open_ → Edge s t
  probe : s ≡ open_ → t ≡ half_open → Edge s t
  reopen : s ≡ half_open → t ≡ open_ → Edge s t
  recover : s ≡ half_open → t ≡ closed → Edge s t

module _ {D : Type 0} where
  -- A closed breaker lets a request pass.
  pub try_pass_closed :
      (now : ℕ) (b : Base D) → b.current_state ≡ closed → try_pass_base now b ≡ (true, b)
  unfolding try_pass_base
  try_pass_closed now b e = ap (λ s. try_pass_in s now b) e

  -- A half-open one lets none pass, and changes nothing.
  pub try_pass_half_open :
      (now : ℕ) (b : Base D) → b.current_state ≡ half_open → try_pass_base now b ≡ (false, b)
  unfolding try_pass_base
  try_pass_half_open now b e = ap (λ s. try_pass_in s now b) e

  -- An open one passes its probe as soon as the retry time has come, and becomes half-open.
  pub try_pass_open :
      (now : ℕ) (b : Base D)
      → b.current_state ≡ open_
      → try_pass_base now b ≡ (
          if retry_timeout_arrived now b
          then (true, record b { current_state = half_open })
          else (false, b))
  unfolding try_pass_base from_open_to_half_open
  try_pass_open now b e =
      ap (λ s. try_pass_in s now b) e
      ∙ ap
          (λ s.
            if retry_timeout_arrived now b
            then compare_exchange open_ half_open b s
            else (false, b))
          e

  abbrev reopened : ℕ → Bool × Base D → Bool × Base D
  reopened now (done, b') = if done then (true, update_next_retry_timestamp now b') else (false, b')

  pub close_to_open :
      (now : ℕ) (b : Base D)
      → b.current_state ≡ closed
      → from_close_to_open now b ≡ (true, opened now b)
  unfolding from_close_to_open
  close_to_open now b e = ap (λ s. reopened now (compare_exchange closed open_ b s)) e

  pub half_open_to_open :
      (now : ℕ) (b : Base D)
      → b.current_state ≡ half_open
      → from_half_open_to_open now b ≡ (true, opened now b)
  unfolding from_half_open_to_open
  half_open_to_open now b e = ap (λ s. reopened now (compare_exchange half_open open_ b s)) e

  pub half_open_to_close :
      (b : Base D)
      → b.current_state ≡ half_open
      → from_half_open_to_close b ≡ (true, record b { current_state = closed })
  unfolding from_half_open_to_close
  half_open_to_close b e = ap (λ s. compare_exchange half_open closed b s) e
