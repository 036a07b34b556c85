-- ===== src/System/Status/Usage.antt =====
-- What the listener stores as the processor usage.
use sentinel_cpp.Prelude.{
  ◌≡◌, refl, ◌∙◌, ap, sym, arith, ℕ, zero, suc, ◌+◌, ◌%◌, ◌^◌, sub64, Bool, true, false, Option,
  some, List, [], ◌∷◌, ◌++◌, String, length, map, All,
}
use sentinel_cpp.System.Status.{
  CpuUsageInfo, CpuLoadInfo, ProcReader, SystemStatusListener, new_usage_info, store_times, time_at,
  get_idle_time, get_active_time, read_cpu_usage_from_proc, store_usage, update_cpu_usage,
  update_system_load, listen, run_cpu_listener, new_listener,
}

-- The time in all states together.
abbrev pub sum : List ℕ → ℕ
sum [] = 0
sum (t ∷ times) = t + sum times

store_times_all :
    (numbers times : List ℕ) → length numbers ≡ length times → store_times numbers times ≡ numbers
unfolding store_times
store_times_all [] [] h = refl
store_times_all [] (t ∷ times) h = absurd (omega (arith, h))
store_times_all (n ∷ numbers) [] h = absurd (omega (arith, h))
store_times_all (n ∷ numbers) (t ∷ times) h =
    ap (λ ts. n ∷ ts) (store_times_all numbers times (omega (arith, h)))

-- The times from one index on.
sum_from : ℕ → ℕ → List ℕ → ℕ
sum_from zero i times = 0
sum_from (suc k) i times = time_at i times + sum_from k (suc i) times

sum_from_shift : (k i t : ℕ) (times : List ℕ) → sum_from k (suc i) (t ∷ times) ≡ sum_from k i times
unfolding sum_from time_at
sum_from_shift zero i t times = refl
sum_from_shift (suc k) i t times = rw (sum_from_shift k (suc i) t times) refl

sum_from_all : (times : List ℕ) → sum_from (length times) 0 times ≡ sum times
unfolding sum_from time_at
sum_from_all [] = refl
sum_from_all (t ∷ times) = rw (sum_from_shift (length times) 0 t times, sum_from_all times) refl

ten_times : (times : List ℕ) → length times ≡ 10 → sum_from 10 0 times ≡ sum times
ten_times times h = ap (λ k. sum_from k 0 times) (sym h) ∙ sum_from_all times

-- Active and idle together are all states.
states :
    (u : CpuUsageInfo)
    → length u.times ≡ 10
    → (get_active_time u + get_idle_time u) % 2 ^ 64 ≡ sum u.times % 2 ^ 64
unfolding get_active_time get_idle_time sum_from
states u h = omega (arith, ten_times u.times h)

-- A line of the processor's times in all ten states.
module _ {D : Type 0} (proc : ProcReader D) where
  abbrev pub IsFull : String → Type 0
  IsFull line = (proc.starts_with_cpu line ≡ true) × (length (proc.numbers line) ≡ 10)

  abbrev pub usage_of : String → CpuUsageInfo
  usage_of line = record { cpu = proc.word line; times = proc.numbers line }

  -- How much a time grew from one line to the next.
  abbrev pub grown : (CpuUsageInfo → ℕ) → CpuUsageInfo → CpuUsageInfo → ℕ
  grown time older newer = sub64 (time newer) (time older)

  all_grown :
      (u v : CpuUsageInfo)
      → length u.times ≡ 10
      → length v.times ≡ 10
      → (grown get_active_time u v + grown get_idle_time u v) % 2 ^ 64
        ≡ grown (λ w. sum w.times) u v
  all_grown u v hu hv = omega (arith, states u hu, states v hv)

  busy_grown :
      (u v : CpuUsageInfo)
      → length u.times ≡ 10
      → length v.times ≡ 10
      → grown get_active_time u v ≡ sub64 (grown (λ w. sum w.times) u v) (grown get_idle_time u v)
  busy_grown u v hu hv = omega (arith, states u hu, states v hv)

  -- What the listener holds after two lines.
  abbrev pub HoldsUsage : CpuUsageInfo → CpuUsageInfo → SystemStatusListener D → Type 0
  HoldsUsage u v l = (l.usage_info_p1 ≡ some u) × (l.usage_info_p2 ≡ some v)

  read_full :
      (l : SystemStatusListener D) (u : CpuUsageInfo) (line : String)
      → length u.times ≡ 10
      → IsFull line
      → read_cpu_usage_from_proc proc (some line) u l
        ≡ record l { usage_info_p2 = some (usage_of line) }
  unfolding read_cpu_usage_from_proc
  read_full l u line hu (good, ten) =
      rw (good, store_times_all (proc.numbers line) u.times (ten ∙ sym hu)) refl

  abbrev pub ratio_of : CpuUsageInfo → CpuUsageInfo → D
  ratio_of u v =
      proc.float_ratio (grown get_active_time u v)
        ((grown get_active_time u v + grown get_idle_time u v) % 2 ^ 64)

  update_full :
      (l : SystemStatusListener D) (u v : CpuUsageInfo) (line : String)
      → HoldsUsage u v l
      → length u.times ≡ 10
      → IsFull line
      → update_cpu_usage proc (some line) l
        ≡ some (record l {
          usage_info_p1 = some v;
          usage_info_p2 = some (usage_of line);
          cur_cpu_usage = ratio_of v (usage_of line);
        })
  unfolding update_cpu_usage store_usage
  update_full l u v line (p1, p2) hu full =
      rw
        (
          p1,
          p2,
          read_full (record l { usage_info_p1 = some v; usage_info_p2 = some u }) u line hu full,
        )
        refl

  load_keeps :
      (reading : Option String) (l : SystemStatusListener D)
      → let l' = update_system_load proc reading l in
        (l'.usage_info_p1 ≡ l.usage_info_p1)
        × (l'.usage_info_p2 ≡ l.usage_info_p2)
        × (l'.cur_cpu_usage ≡ l.cur_cpu_usage)
  unfolding update_system_load
  load_keeps reading l = ground arith

  listen_full :
      (l : SystemStatusListener D) (u v : CpuUsageInfo) (line : String) (load : Option String)
      → HoldsUsage u v l
      → length u.times ≡ 10
      → IsFull line
      → (l' : SystemStatusListener D) × (listen proc (some line, load) l ≡ some l')
        × HoldsUsage v (usage_of line) l'
        × (l'.cur_cpu_usage
            ≡ proc.float_ratio (grown get_active_time v (usage_of line)) (
                (grown get_active_time v (usage_of line) + grown get_idle_time v (usage_of line))
                % 2 ^ 64))
  unfolding listen
  listen_full l u v line load holds hu full =
      let start = record l { stopped = false } in
      let after = record start {
        usage_info_p1 = some v;
        usage_info_p2 = some (usage_of line);
        cur_cpu_usage = ratio_of v (usage_of line);
      } in
      let (k1, k2, k3) = load_keeps load after in
      (
        record (update_system_load proc load after) { stopped = true },
        rw (listen, update_full start u v line holds hu full) refl,
        (k1, k2),
        k3,
      )

  run_full :
      (readings : List (String × Option String))
      → (older newer : String) → (load load' : Option String)
      → (l : SystemStatusListener D) (u v : CpuUsageInfo) → HoldsUsage u v l
      → length u.times ≡ 10
      → length v.times ≡ 10
      → All (λ r. IsFull r.0) readings
      → IsFull older
      → IsFull newer
      → (l' : SystemStatusListener D) × (run_cpu_listener proc
            (map (λ r. (some r.0, r.1)) readings ++ (some older, load) ∷ (some newer, load') ∷ [])
            l
          ≡ some l')
        × (l'.cur_cpu_usage ≡ ratio_of (usage_of older) (usage_of newer))
  unfolding run_cpu_listener
  run_full [] older newer load load' l u v holds hu hv full fo fn =
      let (l1, e1, holds1, _) = listen_full l u v older load holds hu fo in
      let (l2, e2, holds2, ratio) = listen_full l1 v (usage_of older) newer load' holds1 hv fn in
      (record l2 { stopped = true }, rw (run_cpu_listener, e1, e2) refl, ratio)
  run_full ((line, read) ∷ readings) older newer load load' l u v holds hu hv (f, full) fo fn =
      let (l1, e1, holds1, _) = listen_full l u v line read holds hu f in
      let (l', e', ratio) =
        run_full readings older newer load load' l1 v (usage_of line) holds1 hv (f.1) full fo fn in
      (l', rw (run_cpu_listener, e1, e') refl, ratio)

  -- Where every line of the processor's times is full and no reading fails, the listener never
  -- dereferences a null pointer, whatever happens to the readings of the load; and from the second
  -- line on the usage that it stores is the quotient of two times between the last two lines alone:
  -- the time in all ten states together, less the time in the two idle ones, by the time in all.
  pub usage_of_last_lines :
      (readings : List (String × Option String))
      → (older newer : String) → (load load' : Option String)
      → (load_open : Bool) (minus_one : D) (new_load : CpuLoadInfo D)
      → All (λ r. IsFull r.0) readings
      → IsFull older
      → IsFull newer
      → let whole = grown (λ u. sum u.times) (usage_of older) (usage_of newer) in
        let idle = grown get_idle_time (usage_of older) (usage_of newer) in
        (l : SystemStatusListener D) × (run_cpu_listener proc
            (map (λ r. (some r.0, r.1)) readings ++ (some older, load) ∷ (some newer, load') ∷ [])
            (new_listener true load_open minus_one new_load)
          ≡ some l)
        × (l.cur_cpu_usage ≡ proc.float_ratio (sub64 whole idle) whole)
  unfolding new_listener
  usage_of_last_lines readings older newer load load' load_open minus_one new_load full fo fn =
      let (l, e, ratio) =
        run_full readings older newer load load' (new_listener true load_open minus_one new_load)
          new_usage_info new_usage_info (refl, refl) refl refl full fo fn in
      let u = usage_of older in
      let v = usage_of newer in
      (
        l,
        e,
        ratio
            ∙ ap (λ t. proc.float_ratio (grown get_active_time u v) t) (all_grown u v (fo.1) (fn.1))
            ∙ ap (λ t. proc.float_ratio t (grown (λ w. sum w.times) u v))
                (busy_grown u v (fo.1) (fn.1)),
      )
