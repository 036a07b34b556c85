-- ===== src/Stat/Leap/Total.antt =====
-- The sum over the values of the ring is the sum of the history over the windows that are live.
use native.Mathlib.Nat.{mod-lt, zero-add, add-mod_right}
use native.Mathlib.Decide.{ℕ_discrete, dec_lt}
use mathlib.Core.Path.{subst}
use sentinel_cpp.Prelude.{
  ℕ, suc, ◌+◌, ◌*◌, ◌/◌, ◌%◌, ◌^◌, ◌≤◌, ◌<◌, ◌≡◌, ◌≢◌, refl, sym, ◌∙◌, ap, arith, ltb, leb, ◌==◌,
  Bool, true, false, ◌&&◌, if◌then◌else◌, Option, none, some, List, [], ◌∷◌, length, add64, sum_if,
  All-mono, All-All, sum_if_congr, sum_if_none, sum_if-split, range_sum,
}
use sentinel_cpp.Stat.Leap.{
  Window, LeapArray, BucketOps, at, load, values, values_from, is_bucket_deprecated,
}
use sentinel_cpp.Stat.Leap.Time.{mul_le, mul-div_le, mul_eq, same_slot, window_after}
use sentinel_cpp.Stat.Leap.History.{History, SlotOk, Tracks, weight_of}

-- `sum += reading(bucket)` over a list of buckets, in 64 bits.
abbrev pub sum_of {ℓ} : {V : Type ℓ} → (V → ℕ) → ℕ → List V → ℕ
sum_of reading acc [] = acc
sum_of reading acc (v ∷ vs) = sum_of reading (add64 acc (reading v)) vs

-- A recording counts at the two clock readings of a query: its window is among the last
-- `sample_count` at the first, and not deprecated at the second.
abbrev pub is_live {κ} : {O : Type κ} → ℕ → ℕ → ℕ → ℕ → ℕ × O → Bool
is_live len n now now' e = ltb (now / len) (e.0 / len + n) && leb now' (len * (e.0 / len) + len * n)

module _ {ℓ κ} {V : Type ℓ} {O : Type κ} (ops : BucketOps V) (apply : O → V → V) (reading : V → ℕ)
    (weight : O → ℕ) (len n now now' : ℕ) (a : LeapArray V) where
  -- What a slot adds to the sum.
  abbrev share : Option (Window V) → ℕ
  share none = 0
  share (some w) = if is_bucket_deprecated a now' w then 0 else reading w.value % 2 ^ 64

  abbrev start_of : Option (Window V) → ℕ
  start_of none = 0
  start_of (some w) = w.bucket_start

  values_from-sum :
      (os : List (Option (Window V))) (i acc : ℕ) (f : ℕ → ℕ)
      → acc < 2 ^ 64
      → ((j k : ℕ) → j < length os → i + j ≡ k → share (load os j) ≡ f k % 2 ^ 64)
      → sum_of reading acc (values_from a now' os) ≡ (acc + range_sum i (length os) f) % 2 ^ 64
  unfolding values_from
  values_from-sum [] i acc f small h = omega arith
  values_from-sum (none ∷ os) i acc f small h = ground (
    arith,
    values_from-sum os (suc i) acc f small (λ j k p q. h (suc j) k (omega arith) (omega arith)),
    h 0 i (omega arith) (omega arith),
  )
  values_from-sum (some w ∷ os) i acc f small h = ground (
    arith,
    values_from-sum os (suc i) acc f small (λ j k p q. h (suc j) k (omega arith) (omega arith)),
    values_from-sum os (suc i) (add64 acc (reading w.value)) f (omega arith)
        (λ j k p q. h (suc j) k (omega arith) (omega arith)),
    h 0 i (omega arith) (omega arith),
  )

  abbrev live_in : ℕ → ℕ × O → Bool
  live_in i e = is_live len n now now' e && (e.0 / len % n == i)

  -- With the slot's window `k` not deprecated, the live recordings of the slot are those of `k`.
  live_of_kept :
      (i k : ℕ) (e : ℕ × O)
      → 0 < len
      → 0 < n
      → now ≤ now'
      → len * k ≤ now
      → k % n ≡ i
      → (i ≡ now / len % n → k ≡ now / len)
      → now' ≤ len * k + len * n
      → (e.0 / len % n ≡ i → e.0 / len ≤ k)
      → live_in i e ≡ (e.0 / len == k)
  live_of_kept i k e p q late before r fresh kept above = elim (ℕ_discrete (e.0 / len) k) [
    | yes same ↦ ground (arith, same, recent, r, kept)
    | no differ ↦ ground (arith, differ, old)
  ]
    where
      k_le : k ≤ now / len
      k_le = window_after len now k p before

      same_window : k + n ≤ now / len → now / len ≡ k + n
      same_window h =
          mul_eq len (now / len) (k + n) p
            (omega (arith, mul-div_le len now, mul_le len (k + n) (now / len) h))

      same_start : now / len ≡ k + n → k ≡ k + n
      same_start e' = fresh (sym r ∙ sym (ap (λ x. x % n) e' ∙ add-mod_right k n)) ∙ e'

      far : k + n ≤ now / len → ⊥
      far h = omega (arith, same_start (same_window h))

      recent : now / len < k + n
      recent = elim (dec_lt (now / len) (k + n)) [ yes h ↦ h | no h ↦ absurd (far (omega arith)) ]

      old : e.0 / len ≢ k → e.0 / len % n ≡ i → ¬ (now / len < e.0 / len + n)
      old ne s h =
          let le : e.0 / len ≤ k = above s in
          let gap : e.0 / len + n ≤ k = same_slot n (e.0 / len) k q (s ∙ sym r) (omega arith) in
          omega (arith, k_le)

  -- With the slot's window deprecated, so is all that was recorded for the slot.
  live_of_deprecated :
      (i k : ℕ) (e : ℕ × O)
      → len * k + len * n < now'
      → (e.0 / len % n ≡ i → e.0 / len ≤ k)
      → live_in i e ≡ false
  live_of_deprecated i k e gone above = elim (ℕ_discrete (e.0 / len % n) i) [
    | yes same ↦ ground (arith, mul_le len (e.0 / len) k (above same))
    | no differ ↦ ground arith
  ]

  -- What a slot adds to the sum is what was recorded for it in live windows.
  share_lem :
      (i : ℕ) (o : Option (Window V)) (log : History O)
      → 0 < len
      → 0 < n
      → now ≤ now'
      → a.interval_ms ≡ len * n
      → (i ≡ now / len % n → start_of o ≡ len * (now / len))
      → SlotOk ops apply reading weight len n now i o log
      → share o ≡ sum_if (weight_of ops apply reading weight len n) (live_in i) log % 2 ^ 64
  unfolding is_bucket_deprecated
  share_lem i none log p q late whole cur ok =
      ap (λ x. x % 2 ^ 64)
        (sym (sum_if_none _ (live_in i) log (All-mono (λ e ne. ground (arith, ne)) log ok)))
  share_lem i (some w) log p q late whole cur (k, st, before, r, above, value) =
      by_test (is_bucket_deprecated a now' w) refl
    where
      fresh : i ≡ now / len % n → k ≡ now / len
      fresh h = mul_eq len k (now / len) p (sym st ∙ cur h)

      by_test :
          (b : Bool)
          → is_bucket_deprecated a now' w ≡ b
          → (if b then 0 else reading w.value % 2 ^ 64)
            ≡ sum_if (weight_of ops apply reading weight len n) (live_in i) log % 2 ^ 64
      by_test true gone =
          ap (λ x. x % 2 ^ 64)
            (sym (
              sum_if_none _ (live_in i) log (
                All-mono
                  (λ e above'. live_of_deprecated i k e (ground (arith, gone, whole, st)) above')
                  log above)))
      by_test false kept =
          value
          ∙ ap (λ x. x % 2 ^ 64)
              (sym (
                sum_if_congr _ (live_in i) (λ e. e.0 / len == k) log
                  (All-mono
                    (λ e above'.
                      live_of_kept i k e p q late (omega arith) r fresh
                        (ground (arith, kept, whole, st)) above')
                    log above)))

  pub total_of :
      (log : History O) (w : Window V)
      → 0 < len
      → 0 < n
      → now ≤ now'
      → a.interval_ms ≡ len * n
      → length a.array ≡ n
      → load a.array (now / len % n) ≡ some w
      → w.bucket_start ≡ len * (now / len)
      → Tracks ops apply reading weight len n now a.array log
      → sum_of reading 0 (values a (at now'))
        ≡ sum_if (weight_of ops apply reading weight len n) (is_live len n now now') log % 2 ^ 64
  unfolding values
  total_of log w p q late whole size loaded start tr =
      values_from-sum a.array 0 0 part (omega arith) each ∙ ap (λ x. x % 2 ^ 64) whole_sum
    where
      part : ℕ → ℕ
      part k = sum_if (weight_of ops apply reading weight len n) (live_in k) log

      each : (j k : ℕ) → j < length a.array → 0 + j ≡ k → share (load a.array j) ≡ part k % 2 ^ 64
      each j k h e =
          let e' : j ≡ k = omega arith in
          share_lem k (load a.array j) log p q late whole
            (λ c. ap (λ i. start_of (load a.array i)) (e' ∙ c) ∙ ap start_of loaded ∙ start)
            (subst (λ i. SlotOk ops apply reading weight len n now i (load a.array j) log) e'
              (tr j h))

      whole_sum :
          0 + range_sum 0 (length a.array) part
          ≡ sum_if (weight_of ops apply reading weight len n) (is_live len n now now') log
      whole_sum =
          rw (size, zero-add)
            (sum_if-split (weight_of ops apply reading weight len n) (is_live len n now now')
              (λ e. e.0 / len % n) n log (All-All (λ e. mod-lt (e.0 / len) q) log))
