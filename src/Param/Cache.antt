-- ===== src/Param/Cache.antt =====
-- The counters that a bucket and a metric keep, ThreadSafeScalableCache<absl::any, AnyCmp>: code of
-- another project, which enters as its operations. A look-up also marks the value as used.
use sentinel_cpp.Prelude.{
  Bool, true, false, ◌||◌, ℕ, ◌≡◌, if◌then◌else◌, Option, none, some, List, add_int, sext32,
}
use sentinel_cpp.Param.Value.{AnyValue, any_eq}

pub record Cache (C : Type 0) : Type 0 where
  pub new_cache : ℕ → C
  pub find : AnyValue → C → Option ℕ
  pub touch : AnyValue → C → C
  pub increase : AnyValue → ℕ → C → C
  pub clear : C → C
  pub snapshot_pairs : C → List (AnyValue × ℕ)

-- The counter of a value, 0 without one.
abbrev pub counter : {C : Type 0} → Cache C → AnyValue → C → ℕ
counter ops v c = elim (ops.find v c) [ none ↦ 0 | some n ↦ n ]

-- Whether a cache holds a value.
abbrev pub holds : {C : Type 0} → Cache C → AnyValue → C → Bool
holds ops v c = elim (ops.find v c) [ none ↦ false | some n ↦ true ]

-- What a cache of limited size does: a look-up changes no counter, a counter is an `int`, and
-- `increase` adds to the counter of its value, or makes one, and then holds the value. It drops other
-- values only for a new value that there is no room for: that case has no law. No value that does
-- not equal itself has room.
pub record IsLimited {C : Type 0} (ops : Cache C) : Type 0 where
  pub has_room : AnyValue → C → Bool
  pub counter_touch : (w v : AnyValue) (c : C) → counter ops v (ops.touch w c) ≡ counter ops v c
  pub counter_int : (v : AnyValue) (c : C) → sext32 (counter ops v c) ≡ counter ops v c
  pub counter_increase :
      (w v : AnyValue) (n : ℕ) (c : C)
      → (holds ops w c || has_room w c) ≡ true
      → counter ops v (ops.increase w n c)
        ≡ (if any_eq w v then add_int (counter ops v c) n else counter ops v c)
  pub holds_increased :
      (w : AnyValue) (n : ℕ) (c : C)
      → (holds ops w c || has_room w c) ≡ true
      → holds ops w (ops.increase w n c) ≡ true
