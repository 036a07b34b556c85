-- ===== src/Stat/Leap.antt =====
-- sentinel-core/statistic/base/window_wrap.h and leap_array.h: a ring of time windows.
-- Times are milliseconds since the epoch; only the argument of `current_window` can be negative.
-- Each call is the effect of an uncontended run: `try_lock` succeeds, and the loop leaves in its
-- first round. A `shared_ptr` to a window of the ring is its index, since later calls through the
-- pointer change the window in place.
pub mod Time
pub mod Lookup
pub mod Laws
pub mod History
pub mod Step
pub mod Total
pub mod Replay
mod Tests
use sentinel_cpp.Prelude.{
  ℕ, zero, suc, ◌+◌, ◌-◌, ◌/◌, ◌%◌, ltb, leb, ◌==◌, if◌then◌else◌, Bool, ◌&&◌, Option, none, some,
  List, [], ◌∷◌, set, replicate,
}

-- A signed time, as the functions take it.
pub data Millis : Type 0 where
  at : ℕ → Millis
  negative : ℕ → Millis

pub record Window {ℓ} (V : Type ℓ) : Type ℓ where
  pub bucket_start : ℕ
  pub bucket_length_ms : ℕ
  pub value : V

-- The pure virtual functions of LeapArray<T>.
pub record BucketOps {ℓ} (V : Type ℓ) : Type ℓ where
  pub new_empty_bucket : ℕ → V
  pub reset_window_to : Window V → ℕ → Window V

pub record LeapArray {ℓ} (V : Type ℓ) : Type ℓ where
  pub interval_ms : ℕ
  pub sample_count : ℕ
  pub bucket_length_ms : ℕ
  pub array : List (Option (Window V))

-- What a `WindowWrapSharedPtr` refers to.
pub data Handle {ℓ} (V : Type ℓ) : Type ℓ where
  null : Handle V
  slot : ℕ → Handle V
  detached : Window V → Handle V

module _ {ℓ} {V : Type ℓ} where
  unfoldable pub reset_to : Window V → ℕ → Window V
  reset_to w start_time = record w { bucket_start = start_time }

  unfoldable pub is_time_in_bucket : Window V → ℕ → Bool
  is_time_in_bucket w t = leb w.bucket_start t && ltb t (w.bucket_start + w.bucket_length_ms)

  -- The constructor; `make_unique` fills the array with null pointers.
  unfoldable pub new : ℕ → ℕ → LeapArray V
  new sample_count interval_ms = record {
    interval_ms = interval_ms;
    sample_count = sample_count;
    bucket_length_ms = interval_ms / sample_count;
    array = replicate sample_count none;
  }

  abbrev pub calculate_time_idx : LeapArray V → ℕ → ℕ
  calculate_time_idx a t = (t / a.bucket_length_ms) % a.sample_count

  abbrev pub calculate_window_start : LeapArray V → ℕ → ℕ
  calculate_window_start a t = t - t % a.bucket_length_ms

  -- `array_[idx]`; a read out of bounds is a null pointer here.
  abbrev pub load : List (Option (Window V)) → ℕ → Option (Window V)
  load [] i = none
  load (o ∷ os) zero = o
  load (o ∷ os) (suc i) = load os i

  -- `t - start > interval` in signed arithmetic: with `t < start` it is false, as on ℕ.
  unfoldable pub is_bucket_deprecated : LeapArray V → ℕ → Window V → Bool
  is_bucket_deprecated a t w = ltb a.interval_ms (t - w.bucket_start)

  -- The loop over the array in `Buckets`.
  buckets_from : LeapArray V → ℕ → List (Option (Window V)) → List (Window V)
  buckets_from a t [] = []
  buckets_from a t (none ∷ ws) = buckets_from a t ws
  buckets_from a t (some w ∷ ws) =
      let rest = buckets_from a t ws in if is_bucket_deprecated a t w then rest else w ∷ rest

  unfoldable pub buckets : LeapArray V → Millis → List (Window V)
  unfolding buckets_from is_bucket_deprecated
  buckets a (negative _) = []
  buckets a (at t) = buckets_from a t a.array

  -- The loop over the array in `Values`.
  values_from : LeapArray V → ℕ → List (Option (Window V)) → List V
  values_from a t [] = []
  values_from a t (none ∷ ws) = values_from a t ws
  values_from a t (some w ∷ ws) =
      let rest = values_from a t ws in if is_bucket_deprecated a t w then rest else w.value ∷ rest

  unfoldable pub values : LeapArray V → Millis → List V
  unfolding values_from is_bucket_deprecated
  values a (negative _) = []
  values a (at t) = values_from a t a.array

  -- The value behind a handle, and its change in place. A detached window is not in the ring: what
  -- is written to it is lost with the handle.
  unfoldable pub read : LeapArray V → Handle V → Option V
  read a null = none
  read a (slot i) = elim (load a.array i) [ none ↦ none | some w ↦ some w.value ]
  read a (detached w) = some w.value

  unfoldable pub update : (V → V) → Handle V → LeapArray V → LeapArray V
  update f null a = a
  update f (slot i) a = elim (load a.array i) [
    | none ↦ a
    | some w ↦ record a { array = set a.array i (some (record w { value = f w.value })) }
  ]
  update f (detached w) a = a

  module _ (ops : BucketOps V) where
    -- One round of the loop in `CurrentWindow`, at the window that `array_[idx]` holds.
    place : ℕ → ℕ → ℕ → Option (Window V) → LeapArray V → Handle V × LeapArray V
    place t idx start none a = (
      slot idx,
      record a {
        array = set a.array idx (
            some (record {
              bucket_start = start;
              bucket_length_ms = a.bucket_length_ms;
              value = ops.new_empty_bucket t;
            }));
      },
    )
    place t idx start (some old) a =
        if start == old.bucket_start
        then (slot idx, a)
        else if ltb old.bucket_start start
        then (slot idx, record a { array = set a.array idx (some (ops.reset_window_to old start)) })
        else (
          detached (record {
            bucket_start = start;
            bucket_length_ms = a.bucket_length_ms;
            value = ops.new_empty_bucket t;
          }),
          a,
        )

    unfoldable pub current_window : Millis → LeapArray V → Handle V × LeapArray V
    unfolding place
    current_window (negative _) a = (null, a)
    current_window (at t) a =
        let idx = calculate_time_idx a t in
        place t idx (calculate_window_start a t) (load a.array idx) a

    -- `CurrentWindow(t)->Value()` changed by `f`, as the clients of the ring do.
    unfoldable pub record_at : ℕ → (V → V) → LeapArray V → LeapArray V
    unfolding current_window update
    record_at t f a = let (h, a') = current_window (at t) a in update f h a'
