-- ===== src/Stat/Leap/Step.antt =====
-- `CurrentWindow` and a recording through its result keep what the ring holds in step with the
-- history.
use native.Mathlib.Nat.{mod-lt}
use native.Mathlib.Decide.{ℕ_discrete}
use mathlib.Core.Path.{subst}
use sentinel_cpp.Prelude.{
  ℕ, ◌*◌, ◌/◌, ◌≤◌, ◌<◌, ◌≡◌, ◌≢◌, refl, sym, ◌∙◌, ap, arith, ltb, ◌==◌, Bool, true, false,
  if◌then◌else◌, Option, none, some, List, ◌∷◌, length, set, length-set, ==_iff, ltb→lt,
}
use sentinel_cpp.Stat.Leap.{
  Window, LeapArray, BucketOps, Handle, slot, detached, at, load, place, current_window, update,
  record_at, calculate_time_idx, calculate_window_start,
}
use sentinel_cpp.Stat.Leap.Lookup.{load-set_self, load-set_ne, update_slot}
use sentinel_cpp.Stat.Leap.Time.{sub-mod, mul_le, lt_of_mul, mul-div_le, window_after}
use sentinel_cpp.Stat.Leap.History.{
  History, IsCounter, SlotOk, Tracks, SlotOk-later, SlotOk-other, SlotOk-fresh, SlotOk-apply,
  All-weaken, All-empty,
}

-- The ring has a slot for each sample, and windows that are not empty.
pub record IsValid {ℓ} {V : Type ℓ} (a : LeapArray V) : Type 0 where
  pub slots : length a.array ≡ a.sample_count
  pub some_slot : 0 < a.sample_count
  pub some_time : 0 < a.bucket_length_ms
  pub whole : a.interval_ms ≡ a.bucket_length_ms * a.sample_count

module _ {ℓ κ} {V : Type ℓ} {O : Type κ} (ops : BucketOps V) (apply : O → V → V) (reading : V → ℕ)
    (weight : O → ℕ) (len n : ℕ) where
  abbrev SlotIs : ℕ → History O → ℕ → Option (Window V) → Type 0
  SlotIs t log i o = SlotOk ops apply reading weight len n t i o log

  pub Tracks-set :
      (t i : ℕ) (w : Window V) (xs : List (Option (Window V))) (log : History O)
      → i < length xs
      → ((j : ℕ)
          → j < length xs
          → i ≢ j
          → SlotOk ops apply reading weight len n t j (load xs j) log)
      → SlotOk ops apply reading weight len n t i (some w) log
      → Tracks ops apply reading weight len n t (set xs i (some w)) log
  Tracks-set t i w xs log h others own j hj = elim (ℕ_discrete i j) [
    | yes e ↦
        subst (λ k. SlotIs t log k (load (set xs i (some w)) k)) e
          (rw (load-set_self xs i (some w) h) own)
    | no ne ↦
        rw (load-set_ne xs i j (some w) ne) (others j (omega (arith, length-set xs i (some w))) ne)
  ]

abbrev fresh_window {ℓ} : {V : Type ℓ} → BucketOps V → LeapArray V → ℕ → Window V
fresh_window ops a t = record {
  bucket_start = calculate_window_start a t;
  bucket_length_ms = a.bucket_length_ms;
  value = ops.new_empty_bucket t;
}

-- What `current_window` leaves at a time that is not before the history.
pub record Refreshed {ℓ} {V : Type ℓ} (a b : LeapArray V) (t : ℕ) (h : Handle V) : Type ℓ where
  pub handle : h ≡ slot (calculate_time_idx a t)
  pub window : Window V
  pub loaded : load b.array (calculate_time_idx a t) ≡ some window
  pub start : window.bucket_start ≡ a.bucket_length_ms * (t / a.bucket_length_ms)
  pub shape : b ≡ record a { array = b.array }
  pub same_length : length b.array ≡ length a.array

module _ {ℓ κ} {V : Type ℓ} {O : Type κ} (ops : BucketOps V) (apply : O → V → V) (reading : V → ℕ)
    (weight : O → ℕ) (law : IsCounter ops apply reading weight) (a : LeapArray V) (v : IsValid a)
    (s t : ℕ) (le : s ≤ t) (log : History O)
    (tr : Tracks ops apply reading weight a.bucket_length_ms a.sample_count s a.array log) where
  abbrev idx : ℕ
  idx = calculate_time_idx a t

  abbrev Ok : ℕ → Option (Window V) → History O → Type 0
  Ok i o l = SlotOk ops apply reading weight a.bucket_length_ms a.sample_count t i o l

  idx_in : idx < length a.array
  idx_in = omega (arith, mod-lt (t / a.bucket_length_ms) v.some_slot, v.slots)

  at_idx : Ok idx (load a.array idx) log
  at_idx = SlotOk-later ops apply reading weight _ _ s t idx _ log le (tr idx idx_in)

  others : (j : ℕ) → j < length a.array → Ok j (load a.array j) log
  others j h = SlotOk-later ops apply reading weight _ _ s t j _ log le (tr j h)

  -- The slot gets a window for `t` with nothing in it.
  renewed :
      (w : Window V)
      → w.bucket_start ≡ calculate_window_start a t
      → Ok idx (some w) log
      → let b : LeapArray V = record a { array = set a.array idx (some w) } in
        Refreshed a b t (slot idx)
        × Tracks ops apply reading weight a.bucket_length_ms a.sample_count t b.array log
  renewed w e own = (
    record {
      handle = refl;
      window = w;
      loaded = load-set_self a.array idx (some w) idx_in;
      start = e ∙ sub-mod t a.bucket_length_ms;
      shape = refl;
      same_length = length-set a.array idx (some w);
    },
    Tracks-set ops apply reading weight _ _ t idx w a.array log idx_in (λ j h _. others j h) own,
  )

  -- `place` at a window, by the outcomes of its two tests.
  place_some :
      (w : Window V)
      → load a.array idx ≡ some w
      → Ok idx (some w) log
      → (b c : Bool) → (calculate_window_start a t == w.bucket_start) ≡ b
      → ltb w.bucket_start (calculate_window_start a t) ≡ c
      → let (h, r) : Handle V × LeapArray V =
          if b
          then (slot idx, a)
          else if c
          then (
            slot idx,
            record a {
              array = set a.array idx (some (ops.reset_window_to w (calculate_window_start a t)));
            },
          )
          else (
            detached (record {
              bucket_start = calculate_window_start a t;
              bucket_length_ms = a.bucket_length_ms;
              value = ops.new_empty_bucket t;
            }),
            a,
          ) in
        Refreshed a r t h
        × Tracks ops apply reading weight a.bucket_length_ms a.sample_count t r.array log
  place_some w e ok true c p q = (
    record {
      handle = refl;
      window = w;
      loaded = e;
      start = sym ((==_iff _ _).0 p) ∙ sub-mod t a.bucket_length_ms;
      shape = refl;
      same_length = refl;
    },
    others,
  )
  place_some w e (k, st, before, slot_of, above, sum_of) false true p q =
      renewed (ops.reset_window_to w (calculate_window_start a t)) (law.start_reset w _) (
        SlotOk-fresh ops apply reading weight _ _ t (t / a.bucket_length_ms) idx
          (ops.reset_window_to w (calculate_window_start a t)) log
          (law.start_reset w _ ∙ sub-mod t a.bucket_length_ms) (mul-div_le a.bucket_length_ms t)
          refl (law.reading_reset w _)
          (All-weaken ops apply reading weight _ _ k (t / a.bucket_length_ms) idx log later above))
    where
      later : k < t / a.bucket_length_ms
      later =
          lt_of_mul a.bucket_length_ms _ _
            (omega (arith, st, sub-mod t a.bucket_length_ms, ltb→lt _ _ q))
  place_some w e (k, st, before, slot_of, above, sum_of) false false p q =
      absurd (not_later (window_after a.bucket_length_ms t k v.some_time (omega arith)))
    where
      not_later : ¬ (k ≤ t / a.bucket_length_ms)
      not_later h = ground (
        arith,
        mul_le a.bucket_length_ms k (t / a.bucket_length_ms) h,
        sub-mod t a.bucket_length_ms,
        st,
        p,
        q,
      )

  pub current_window_lem :
      let (h, b) = current_window ops (at t) a in
      Refreshed a b t h
      × Tracks ops apply reading weight a.bucket_length_ms a.sample_count t b.array log
  unfolding current_window
  current_window_lem = go (load a.array idx) refl at_idx
    where
      go :
          (o : Option (Window V))
          → load a.array idx ≡ o
          → Ok idx o log
          → let (h, b) = place ops t idx (calculate_window_start a t) o a in
            Refreshed a b t h
            × Tracks ops apply reading weight a.bucket_length_ms a.sample_count t b.array log
      go none e ok = renewed (fresh_window ops a t) refl (
          SlotOk-fresh ops apply reading weight _ _ t (t / a.bucket_length_ms) idx
            (fresh_window ops a t) log (sub-mod t a.bucket_length_ms)
            (mul-div_le a.bucket_length_ms t) refl (law.reading_new t)
            (All-empty ops apply reading weight _ _ _ idx log ok))
      go (some w) e ok = place_some w e ok _ _ refl refl

  abbrev pub Recorded : O → LeapArray V → Type ℓ
  Recorded o b =
      (b ≡ record a { array = b.array })
      × (length b.array ≡ length a.array)
      × Tracks ops apply reading weight a.bucket_length_ms a.sample_count t b.array ((t, o) ∷ log)

  recorded :
      (o : O) (h : Handle V) (b : LeapArray V)
      → Refreshed a b t h
      → Tracks ops apply reading weight a.bucket_length_ms a.sample_count t b.array log
      → Recorded o (update (apply o) h b)
  recorded o h b r tb =
      rw (r.handle, update_slot (apply o) idx r.window b r.loaded)
        (
          ap (λ (c : LeapArray V). record c { array = written }) r.shape,
          length-set b.array idx (some w') ∙ r.same_length,
          Tracks-set ops apply reading weight _ _ t idx w' b.array ((t, o) ∷ log) in_b
              (λ j hj ne. SlotOk-other ops apply reading weight _ _ t j _ (t, o) log ne (tb j hj))
              own,
        )
    where
      w' : Window V
      w' = record (r.window) { value = apply o r.window.value }

      written : List (Option (Window V))
      written = set b.array idx (some w')

      in_b : idx < length b.array
      in_b = omega (arith, r.same_length, idx_in)

      own : Ok idx (some w') ((t, o) ∷ log)
      own =
          SlotOk-apply ops apply reading weight _ _ law t (t / a.bucket_length_ms) idx o r.window
            log r.start v.some_time refl (subst (λ x. Ok idx x log) r.loaded (tb idx in_b))

  -- A recording at `t` joins the history, and changes only the array.
  pub record_at_lem : (o : O) → Recorded o (record_at ops t (apply o) a)
  unfolding record_at
  record_at_lem o = let l = current_window_lem in recorded o _ _ l.0 l.1
