-- ===== src/Param/Metric/Threads.antt =====
-- How many threads the metric of a resource counts for a value of a parameter.
use mathlib.Core.Path.{subst}
use sentinel_cpp.Prelude.{
  Bool, true, ◌||◌, ℕ, zero, suc, ◌+◌, ◌-◌, ◌^◌, ◌==◌, ◌≤◌, ◌≡◌, refl, arith, inl, inr,
  if◌then◌else◌, Option, none, some, List, [], ◌∷◌, get_elem?, add_int, sext32, Bool-cases,
  Option-cases,
}
use sentinel_cpp.Param.Value.{AnyValue, any_eq}
use sentinel_cpp.Param.Cache.{Cache, counter, holds, IsLimited}
use sentinel_cpp.Param.Metric.{
  ParamMetric, find_cache, change_cache, add_threads, add_thread_count, decrease_thread_count,
  get_thread_count,
}

pub add_int_back : (x : ℕ) → sext32 x ≡ x → add_int (add_int x 1) (2 ^ 64 - 1) ≡ x
add_int_back x h = ground (arith, h)

module _ {C : Type 0} where
  -- The cache under an index after a change of the one under another or the same.
  pub find_cache-change_cache :
      (j k : ℕ) (f : C → C) (m : List (ℕ × C))
      → find_cache j (change_cache k f m)
        ≡ elim (find_cache j m) [ none ↦ none | some c ↦ some (if k == j then f c else c) ]
  find_cache-change_cache j k f [] = refl
  find_cache-change_cache j k f ((i, c) ∷ m) = ground (arith, find_cache-change_cache j k f m)

module _ {C : Type 0} (ops : Cache C) where
  -- The count under an index: 0 without a cache.
  abbrev pub threads_at : ℕ → AnyValue → Option C → ℕ
  threads_at j v none = 0
  threads_at j v (some c) = counter ops v c

  -- A count, changed by `delta` if the parameter at that place is the value.
  abbrev pub bumped : ℕ → AnyValue → Option AnyValue → ℕ → ℕ
  bumped delta v none x = x
  bumped delta v (some p) x = if any_eq p v then add_int x delta else x

  abbrev raised : ℕ → Option AnyValue → C → C
  raised delta none c = c
  raised delta (some p) c = ops.increase p delta c

  -- The parameters from index `i` on change no cache below it.
  find_cache-add_threads_below :
      (delta i j : ℕ) (ps : List AnyValue) (m : List (ℕ × C))
      → suc j ≤ i
      → find_cache j (add_threads ops delta i ps m) ≡ find_cache j m
  unfolding add_threads
  find_cache-add_threads_below delta i j [] m h = refl
  find_cache-add_threads_below delta i j (p ∷ ps) m h = grind (
    arith,
    find_cache-add_threads_below delta (i + 1) j ps (change_cache i (ops.increase p delta) m)
        (omega arith),
    find_cache-change_cache j i (ops.increase p delta) m,
    Option-cases (find_cache j m),
  )

  find_cache-add_threads :
      (delta i j n : ℕ) (ps : List AnyValue) (m : List (ℕ × C))
      → j ≡ i + n
      → find_cache j (add_threads ops delta i ps m)
        ≡ elim (find_cache j m) [ none ↦ none | some c ↦ some (raised delta (get_elem? ps n) c) ]
  unfolding add_threads
  find_cache-add_threads delta i j n [] m h = ground (arith, Option-cases (find_cache j m))
  find_cache-add_threads delta i j zero (p ∷ ps) m h = grind (
    arith,
    find_cache-add_threads_below delta (i + 1) j ps (change_cache i (ops.increase p delta) m)
        (omega arith),
    find_cache-change_cache j i (ops.increase p delta) m,
    Option-cases (find_cache j m),
  )
  find_cache-add_threads delta i j (suc n) (p ∷ ps) m h = grind (
    arith,
    find_cache-add_threads delta (i + 1) j n ps (change_cache i (ops.increase p delta) m)
        (omega arith),
    find_cache-change_cache j i (ops.increase p delta) m,
    Option-cases (find_cache j m),
  )

  -- A cache that the call's parameter, if there is one at its place, does not make drop a value.
  abbrev pub takes : IsLimited ops → Option C → Option AnyValue → Bool
  takes law none o = true
  takes law (some c) none = true
  takes law (some c) (some p) = holds ops p c || law.has_room p c

  counter-raised :
      (law : IsLimited ops) (delta : ℕ) (v : AnyValue) (o : Option AnyValue) (c : C)
      → takes law (some c) o ≡ true
      → counter ops v (raised delta o c) ≡ bumped delta v o (counter ops v c)
  counter-raised law delta v none c h = refl
  counter-raised law delta v (some p) c h = law.counter_increase p v delta c h

  takes-raised :
      (law : IsLimited ops) (delta : ℕ) (o : Option AnyValue) (c : C)
      → takes law (some c) o ≡ true
      → takes law (some (raised delta o c)) o ≡ true
  takes-raised law delta none c h = refl
  takes-raised law delta (some p) c h = rw (law.holds_increased p delta c h) refl

  bumped_back :
      (v : AnyValue) (o : Option AnyValue) (x : ℕ)
      → sext32 x ≡ x
      → bumped (2 ^ 64 - 1) v o (bumped 1 v o x) ≡ x
  bumped_back v none x h = refl
  bumped_back v (some p) x h = elim (Bool-cases (any_eq p v)) [
    | inl e ↦ rw e (add_int_back x h)
    | inr e ↦ rw e refl
  ]

  -- Where the cache of an index takes the parameter there without dropping a value: after
  -- AddThreadCount the thread count of a value under the index is one more if the parameter is the
  -- value, and else as before.
  pub get_thread_count-add_thread_count :
      (law : IsLimited ops) (j : ℕ) (v : AnyValue) (c : C) (ps : List AnyValue) (m : ParamMetric C)
      → find_cache j m.thread_count_map ≡ some c
      → takes law (some c) (get_elem? ps j) ≡ true
      → (get_thread_count ops j v (add_thread_count ops ps m)).0
        ≡ bumped 1 v (get_elem? ps j) (get_thread_count ops j v m).0
  unfolding add_thread_count get_thread_count
  get_thread_count-add_thread_count law j v c ps m e h =
      rw
        (
          get_thread_count,
          add_thread_count,
          find_cache-add_threads 1 0 j j ps m.thread_count_map (omega arith),
          e,
        )
        (counter-raised law 1 v (get_elem? ps j) c h)

  -- Where the cache of an index, if there is one, holds the parameter there or has room for it:
  -- DecreaseThreadCount takes back what AddThreadCount did to the thread count of every value under
  -- the index.
  pub thread_counts_restored :
      (law : IsLimited ops) (j : ℕ) (v : AnyValue) (ps : List AnyValue) (m : ParamMetric C)
      → takes law (find_cache j m.thread_count_map) (get_elem? ps j) ≡ true
      → (get_thread_count ops j v (decrease_thread_count ops ps (add_thread_count ops ps m))).0
        ≡ (get_thread_count ops j v m).0
  unfolding add_thread_count decrease_thread_count get_thread_count
  thread_counts_restored law j v ps m t = elim (Option-cases (find_cache j m.thread_count_map)) [
    | inl e ↦
        rw
          (
            get_thread_count,
            add_thread_count,
            decrease_thread_count,
            find_cache-add_threads (2 ^ 64 - 1) 0 j j ps (add_threads ops 1 0 ps m.thread_count_map)
                (omega arith),
            find_cache-add_threads 1 0 j j ps m.thread_count_map (omega arith),
            e,
          )
          refl
    | inr (c, e) ↦
        let t' = subst (λ o. takes law o (get_elem? ps j) ≡ true) e t in
        rw
          (
            get_thread_count,
            add_thread_count,
            decrease_thread_count,
            find_cache-add_threads (2 ^ 64 - 1) 0 j j ps (add_threads ops 1 0 ps m.thread_count_map)
                (omega arith),
            find_cache-add_threads 1 0 j j ps m.thread_count_map (omega arith),
            e,
            counter-raised law (2 ^ 64 - 1) v (get_elem? ps j) (raised 1 (get_elem? ps j) c)
                (takes-raised law 1 (get_elem? ps j) c t'),
            counter-raised law 1 v (get_elem? ps j) c t',
          )
          (bumped_back v (get_elem? ps j) (counter ops v c) (law.counter_int v c))
  ]
