-- ===== src/Stat/Leap/History.antt =====
-- What the ring holds after a history of recordings: in each slot the latest window of the history
-- that maps to the slot, with the sum of what was recorded in it.
use sentinel_cpp.Prelude.{
  ℕ, ◌+◌, ◌*◌, ◌/◌, ◌%◌, ◌^◌, ◌≤◌, ◌<◌, ◌≡◌, ◌≢◌, refl, sym, ◌∙◌, ap, arith, ◌==◌, Option, none,
  some, List, [], ◌∷◌, length, All, sum_if,
}
use sentinel_cpp.Stat.Leap.{Window, BucketOps, load}
use sentinel_cpp.Stat.Leap.Time.{mul_eq}

-- A recorded operation with its time. A history is a list of these, the newest first.
abbrev pub History {κ} : Type κ → Type κ
History O = List (ℕ × O)

-- No recording is later than `t`, and the times do not decrease.
abbrev pub IsChronological {κ} : {O : Type κ} → ℕ → History O → Type 0
IsChronological t [] = Unit
IsChronological t ((u, o) ∷ log) = (u ≤ t) × IsChronological u log

pub IsChronological-le {κ} :
    {O : Type κ} (s t : ℕ) (log : History O) → s ≤ t → IsChronological s log → IsChronological t log
IsChronological-le s t [] h c = tt
IsChronological-le s t ((u, o) ∷ log) h c = (omega (arith, c.0), c.1)

-- How an operation shows in one reading of a bucket: a counter modulo 2 ^ 64 that a new and a reset
-- bucket have at zero, and that each operation raises by its weight.
pub record IsCounter {ℓ κ} {V : Type ℓ} {O : Type κ} (ops : BucketOps V) (apply : O → V → V)
    (reading : V → ℕ) (weight : O → ℕ) : Type (ℓ ⊔ κ) where
  pub reading_new : (t : ℕ) → reading (ops.new_empty_bucket t) ≡ 0
  pub reading_reset : (w : Window V) (s : ℕ) → reading (ops.reset_window_to w s).value ≡ 0
  pub start_reset : (w : Window V) (s : ℕ) → (ops.reset_window_to w s).bucket_start ≡ s
  pub reading_apply :
      (o : O) (v : V) → reading (apply o v) % 2 ^ 64 ≡ (reading v + weight o) % 2 ^ 64

module _ {ℓ κ} {V : Type ℓ} {O : Type κ} (ops : BucketOps V) (apply : O → V → V) (reading : V → ℕ)
    (weight : O → ℕ) (len n : ℕ) where
  -- The number of a recording's window.
  abbrev pub window_of : ℕ × O → ℕ
  window_of e = e.0 / len

  abbrev pub weight_of : ℕ × O → ℕ
  weight_of e = weight e.1

  -- What slot `i` may hold after the history `log` when the time is `t`.
  abbrev pub SlotOk : ℕ → ℕ → Option (Window V) → History O → Type 0
  SlotOk t i none log = All (λ e. window_of e % n ≢ i) log
  SlotOk t i (some w) log =
      (k : ℕ) × (w.bucket_start ≡ len * k)
      × (w.bucket_start ≤ t)
      × (k % n ≡ i)
      × All (λ e. window_of e % n ≡ i → window_of e ≤ k) log
      × (reading w.value % 2 ^ 64 ≡ sum_if weight_of (λ e. window_of e == k) log % 2 ^ 64)

  abbrev pub Tracks : ℕ → List (Option (Window V)) → History O → Type 0
  Tracks t xs log = (i : ℕ) → i < length xs → SlotOk t i (load xs i) log

  -- A window starts no later than any later time.
  pub SlotOk-later :
      (s t i : ℕ) (o : Option (Window V)) (log : History O)
      → s ≤ t
      → SlotOk s i o log
      → SlotOk t i o log
  SlotOk-later s t i none log h k = k
  SlotOk-later s t i (some w) log h (k, a, b, c, d, e) = (k, a, omega arith, c, d, e)

  -- A recording in another slot's window leaves what a slot may hold.
  pub SlotOk-other :
      (t i : ℕ) (o : Option (Window V)) (e : ℕ × O) (log : History O)
      → window_of e % n ≢ i
      → SlotOk t i o log
      → SlotOk t i o (e ∷ log)
  SlotOk-other t i none e log ne h = (ne, h)
  SlotOk-other t i (some w) e log ne (k, a, b, c, d, r) =
      (k, a, b, c, (λ q. absurd (ne q), d), r ∙ ap (λ s. s % 2 ^ 64) (ground (arith, differ)))
    where
      differ : window_of e ≢ k
      differ q = ne (ap (λ m. m % n) q ∙ c)

  -- No recording of the history is in window `m`, so the sum is nothing.
  pub sum_none :
      (m i : ℕ) (log : History O)
      → m % n ≡ i
      → All (λ e. window_of e % n ≡ i → window_of e < m) log
      → sum_if weight_of (λ e. window_of e == m) log ≡ 0
  sum_none m i [] h a = refl
  sum_none m i (e ∷ log) h a = ground (arith, sum_none m i log h a.1, differ)
    where
      differ : window_of e ≢ m
      differ q = let p : window_of e < m = a.0 (ap (λ x. x % n) q ∙ h) in omega arith

  pub All-weaken :
      (k m i : ℕ) (log : History O)
      → k < m
      → All (λ e. window_of e % n ≡ i → window_of e ≤ k) log
      → All (λ e. window_of e % n ≡ i → window_of e < m) log
  All-weaken k m i [] h a = tt
  All-weaken k m i (e ∷ log) h a =
      ((λ q. let p : window_of e ≤ k = a.0 q in omega arith), All-weaken k m i log h a.1)

  pub All-empty :
      (m i : ℕ) (log : History O)
      → All (λ e. window_of e % n ≢ i) log
      → All (λ e. window_of e % n ≡ i → window_of e < m) log
  All-empty m i [] a = tt
  All-empty m i (e ∷ log) a = ((λ q. absurd (a.0 q)), All-empty m i log a.1)

  All-le :
      (m i : ℕ) (log : History O)
      → All (λ e. window_of e % n ≡ i → window_of e < m) log
      → All (λ e. window_of e % n ≡ i → window_of e ≤ m) log
  All-le m i [] a = tt
  All-le m i (e ∷ log) a =
      ((λ q. let p : window_of e < m = a.0 q in omega arith), All-le m i log a.1)

  -- A window with nothing recorded in it.
  pub SlotOk-fresh :
      (t m i : ℕ) (w : Window V) (log : History O)
      → w.bucket_start ≡ len * m
      → len * m ≤ t
      → m % n ≡ i
      → reading w.value ≡ 0
      → All (λ e. window_of e % n ≡ i → window_of e < m) log
      → SlotOk t i (some w) log
  SlotOk-fresh t m i w log s l r z a = (
    m,
    s,
    omega arith,
    r,
    All-le m i log a,
    ap (λ x. x % 2 ^ 64) (z ∙ sym (sum_none m i log r a)),
  )

  -- A recording in the slot's current window.
  pub SlotOk-apply :
      IsCounter ops apply reading weight
      → (t m i : ℕ) (o : O) (w : Window V) (log : History O) → w.bucket_start ≡ len * m
      → 0 < len
      → t / len ≡ m
      → SlotOk t i (some w) log
      → SlotOk t i (some (record w { value = apply o w.value })) ((t, o) ∷ log)
  SlotOk-apply law t m i o w log s p e (k, a, b, c, d, r) = (
    k,
    a,
    b,
    c,
    ((λ q. omega (arith, same)), d),
    law.reading_apply o w.value ∙ ground (arith, same, r),
  )
    where
      same : m ≡ k
      same = mul_eq len m k p (sym s ∙ a)
