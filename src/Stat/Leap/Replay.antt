-- ===== src/Stat/Leap/Replay.antt =====
-- A ring that recorded a history from its construction on, and the sum that a query reads off it.
use mathlib.Core.Path.{subst, subst₂}
use native.Mathlib.Nat.{div-add-mod}
use sentinel_cpp.Prelude.{
  ℕ, zero, suc, ◌/◌, ◌%◌, ◌^◌, ◌≤◌, ◌<◌, ◌≡◌, refl, sym, ◌∙◌, ap, arith, none, [], ◌∷◌, replicate,
  length-replicate, sum_if,
}
use sentinel_cpp.Stat.Leap.{LeapArray, BucketOps, at, load, new, current_window, record_at, values}
use sentinel_cpp.Stat.Leap.History.{
  History, IsChronological, IsCounter, SlotOk, Tracks, SlotOk-later, weight_of,
}
use sentinel_cpp.Stat.Leap.Step.{IsValid, Recorded, current_window_lem, record_at_lem}
use sentinel_cpp.Stat.Leap.Total.{sum_of, is_live, total_of}

-- The ring after a history, the newest recording first.
unfoldable pub replay {ℓ κ} :
    {V : Type ℓ} {O : Type κ} → BucketOps V → (O → V → V) → LeapArray V → History O → LeapArray V
replay ops apply a [] = a
replay ops apply a ((t, o) ∷ log) = record_at ops t (apply o) (replay ops apply a log)

load-replicate {ℓ} : {V : Type ℓ} (m i : ℕ) → load {V = V} (replicate m none) i ≡ none
load-replicate zero i = refl
load-replicate (suc m) zero = refl
load-replicate (suc m) (suc i) = load-replicate m i

module _ {ℓ κ} {V : Type ℓ} {O : Type κ} (ops : BucketOps V) (apply : O → V → V) (reading : V → ℕ)
    (weight : O → ℕ) (law : IsCounter ops apply reading weight) (n interval : ℕ) where
  -- What a replayed ring keeps: its shape, and what its slots hold.
  record Replayed (t : ℕ) (a : LeapArray V) (log : History O) : Type ℓ where
    valid : IsValid a
    count : a.sample_count ≡ n
    len : a.bucket_length_ms ≡ interval / n
    tracks : Tracks ops apply reading weight a.bucket_length_ms a.sample_count t a.array log

  Replayed-new :
      (t : ℕ) → 0 < n → 0 < interval / n → interval % n ≡ 0 → Replayed t (new n interval) []
  unfolding new
  Replayed-new t p q whole = record {
    valid = record {
      slots = length-replicate n none;
      some_slot = p;
      some_time = q;
      whole = omega (arith, div-add-mod interval n, whole);
    };
    count = refl;
    len = refl;
    tracks = λ i h.
        subst (λ o. SlotOk ops apply reading weight (interval / n) n t i o [])
          (sym (load-replicate n i)) tt;
  }

  Replayed-later :
      (s t : ℕ) (a : LeapArray V) (log : History O) → s ≤ t → Replayed s a log → Replayed t a log
  Replayed-later s t a log h r = record {
    valid = r.valid;
    count = r.count;
    len = r.len;
    tracks = λ i hi. SlotOk-later ops apply reading weight _ _ s t i _ log h (r.tracks i hi);
  }

  Replayed-record :
      (t : ℕ) (o : O) (a : LeapArray V) (log : History O)
      → Replayed t a log
      → Replayed t (record_at ops t (apply o) a) ((t, o) ∷ log)
  Replayed-record t o a log r =
      extend _
        (record_at_lem ops apply reading weight law a r.valid t t (omega arith) log r.tracks o)
    where
      extend :
          (b : LeapArray V)
          → Recorded ops apply reading weight law a r.valid t t (omega arith) log r.tracks o b
          → Replayed t b ((t, o) ∷ log)
      extend b (shape, size, tr) =
          let l : b.bucket_length_ms ≡ a.bucket_length_ms =
            ap (λ (c : LeapArray V). c.bucket_length_ms) shape in
          let m : b.sample_count ≡ a.sample_count =
            ap (λ (c : LeapArray V). c.sample_count) shape in
          let k : b.interval_ms ≡ a.interval_ms = ap (λ (c : LeapArray V). c.interval_ms) shape in
          record {
            valid = record {
              slots = omega (arith, size, m, r.valid.slots);
              some_slot = omega (arith, m, r.valid.some_slot);
              some_time = omega (arith, l, r.valid.some_time);
              whole = rw (k, l, m) (r.valid.whole);
            };
            count = m ∙ r.count;
            len = l ∙ r.len;
            tracks =
                subst₂ (λ x y. Tracks ops apply reading weight x y t b.array ((t, o) ∷ log)) (sym l)
                  (sym m) tr;
          }

  replay-Replayed :
      (log : History O) (t : ℕ)
      → 0 < n
      → 0 < interval / n
      → interval % n ≡ 0
      → IsChronological t log
      → Replayed t (replay ops apply (new n interval) log) log
  unfolding replay
  replay-Replayed [] t p q whole c = Replayed-new t p q whole
  replay-Replayed ((u, o) ∷ log) t p q whole c =
      Replayed-later u t _ ((u, o) ∷ log) c.0
        (Replayed-record u o _ log (replay-Replayed log u p q whole c.1))

  -- The sum after `CurrentWindow` at `now` and `Values` at `now'`.
  query :
      (a : LeapArray V) (log : History O) (now now' : ℕ)
      → now ≤ now'
      → Replayed now a log
      → sum_of reading 0 (values (current_window ops (at now) a).1 (at now'))
        ≡ sum_if
            (weight_of ops apply reading weight (interval / n) n)
            (is_live (interval / n) n now now')
            log
          % 2 ^ 64
  query a log now now' late r =
      let (f, tr) =
        current_window_lem ops apply reading weight law a r.valid now now (omega arith) log
          r.tracks in
      subst₂
        (λ x y.
          sum_of reading 0 (values (current_window ops (at now) a).1 (at now'))
          ≡ sum_if (weight_of ops apply reading weight x y) (is_live x y now now') log % 2 ^ 64)
        r.len r.count
        (total_of ops apply reading weight a.bucket_length_ms a.sample_count now now' _ log f.window
          r.valid.some_time r.valid.some_slot late
          (ap (λ (c : LeapArray V). c.interval_ms) f.shape ∙ r.valid.whole)
          (f.same_length ∙ r.valid.slots) f.loaded f.start tr)

  pub window_sum :
      (log : History O) (now now' : ℕ)
      → 0 < n
      → 0 < interval / n
      → interval % n ≡ 0
      → now ≤ now'
      → IsChronological now log
      → sum_of reading 0
          (values (current_window ops (at now) (replay ops apply (new n interval) log)).1 (at now'))
        ≡ sum_if
            (weight_of ops apply reading weight (interval / n) n)
            (is_live (interval / n) n now now')
            log
          % 2 ^ 64
  window_sum log now now' p q whole late c =
      query _ log now now' late (replay-Replayed log now p q whole c)
