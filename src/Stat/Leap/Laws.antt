-- ===== src/Stat/Leap/Laws.antt =====
-- What a window is for, and which windows a query sees.
use sentinel_cpp.Prelude.{
  ℕ, ◌+◌, ◌≤◌, ◌<◌, ◌≡◌, refl, ap, arith, Bool, true, false, if◌then◌else◌, Option, none, some,
  List, [], ◌∷◌, map, All,
}
use sentinel_cpp.Stat.Leap.{
  Window, LeapArray, BucketOps, Millis, at, negative, load, record_at, values, values_from, buckets,
  buckets_from, is_bucket_deprecated, calculate_time_idx, calculate_window_start,
}

module _ {ℓ} {V : Type ℓ} where
  -- `Values` returns the values of the windows that `Buckets` returns, in their order.
  pub values-buckets : (a : LeapArray V) (t : Millis) → values a t ≡ map Window.value (buckets a t)
  unfolding values buckets
  values-buckets a (negative n) = refl
  values-buckets a (at t) = go a.array
    where
      go :
          (os : List (Option (Window V)))
          → values_from a t os ≡ map Window.value (buckets_from a t os)
      go [] = refl
      go (none ∷ os) = go os
      go (some w ∷ os) = pick (is_bucket_deprecated a t w) (go os)
        where
          pick :
              (b : Bool)
              → values_from a t os ≡ map Window.value (buckets_from a t os)
              → (if b then values_from a t os else w.value ∷ values_from a t os)
                ≡ map Window.value (if b then buckets_from a t os else w ∷ buckets_from a t os)
          pick true h = h
          pick false h = ap (◌∷◌ w.value) h

  -- No window that `Buckets` returns started more than `interval_ms` ago.
  pub buckets_fresh :
      (a : LeapArray V) (t : ℕ) → All (λ w. t ≤ w.bucket_start + a.interval_ms) (buckets a (at t))
  unfolding buckets is_bucket_deprecated
  buckets_fresh a t = go a.array
    where
      go :
          (os : List (Option (Window V)))
          → All (λ w. t ≤ w.bucket_start + a.interval_ms) (buckets_from a t os)
      go [] = tt
      go (none ∷ os) = go os
      go (some w ∷ os) = ground (arith, go os)

  -- A recording at a time whose slot holds a later window is lost: the ring is as it was.
  pub record_at_stale :
      (ops : BucketOps V) (f : V → V) (t : ℕ) (a : LeapArray V) (w : Window V)
      → load a.array (calculate_time_idx a t) ≡ some w
      → calculate_window_start a t < w.bucket_start
      → record_at ops t f a ≡ a
  unfolding record_at
  record_at_stale ops f t a w e h = rw (e, record_at) (ground arith)
