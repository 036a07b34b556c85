-- ===== src/System/Status.antt =====
-- sentinel-core/system/system_status_listener.h and .cc: the thread that reads the processor usage
-- and the load from /proc. A reading is the first line of a file, or `none` where `seekg` fails.
pub mod Usage
use sentinel_cpp.Prelude.{
  ℕ, zero, suc, ◌+◌, ◌%◌, ◌^◌, sub64, if◌then◌else◌, Bool, true, false, not, ◌||◌, Option, none,
  some, List, [], ◌∷◌, String,
}

pub record CpuUsageInfo : Type 0 where
  pub cpu : String
  pub times : List ℕ

pub record CpuLoadInfo (D : Type 0) : Type 0 where
  pub usage : List D
  pub cur_pro_num : String
  pub cur_pro_id : ℕ

-- What it takes from the standard library: the test of the line's first letters, the word that a
-- stream reads, the numbers that it stores at its extractions (none where it is in a failed state),
-- the extraction of a load line, and the quotient of two `int64_t` in `float`.
pub record ProcReader (D : Type 0) : Type 0 where
  pub starts_with_cpu : String → Bool
  pub word : String → String
  pub numbers : String → List ℕ
  pub load : String → CpuLoadInfo D → CpuLoadInfo D
  pub float_ratio : ℕ → ℕ → D

-- `times[i]`
unfoldable pub time_at : ℕ → List ℕ → ℕ
time_at i [] = 0
time_at zero (t ∷ ts) = t
time_at (suc i) (t ∷ ts) = time_at i ts

unfoldable pub get_idle_time : CpuUsageInfo → ℕ
unfolding time_at
get_idle_time u = (time_at 3 u.times + time_at 4 u.times) % 2 ^ 64

unfoldable pub get_active_time : CpuUsageInfo → ℕ
unfolding time_at
get_active_time u =
    (time_at 0 u.times
      + time_at 1 u.times
      + time_at 2 u.times
      + time_at 5 u.times
      + time_at 6 u.times
      + time_at 7 u.times
      + time_at 8 u.times
      + time_at 9 u.times)
    % 2 ^ 64

pub record SystemStatusListener (D : Type 0) : Type 0 where
  pub usage_info_p1 : Option CpuUsageInfo
  pub usage_info_p2 : Option CpuUsageInfo
  pub load_info_p : Option (CpuLoadInfo D)
  pub cur_load : D
  pub cur_cpu_usage : D
  pub stopped_cmd : Bool
  pub stopped : Bool
  pub inited : Bool

-- The loop that reads the times: each number that is stored, over what was there.
pub store_times : List ℕ → List ℕ → List ℕ
store_times numbers [] = []
store_times [] (t ∷ ts) = t ∷ ts
store_times (n ∷ numbers) (t ∷ ts) = n ∷ store_times numbers ts

abbrev pub new_usage_info : CpuUsageInfo
new_usage_info = record { cpu = ""; times = 0 ∷ 0 ∷ 0 ∷ 0 ∷ 0 ∷ 0 ∷ 0 ∷ 0 ∷ 0 ∷ 0 ∷ [] }

-- A pointer that is not null.
abbrev pub is_set : {A : Type 0} → Option A → Bool
is_set none = false
is_set (some a) = true

module _ {D : Type 0} where
  -- `usage[0]`
  pub first_or : D → List D → D
  first_or d [] = d
  first_or d (x ∷ xs) = x

  -- The constructor, for whether the two files are open, with the value -1 and a new load.
  unfoldable pub new_listener : Bool → Bool → D → CpuLoadInfo D → SystemStatusListener D
  new_listener stat_open load_open minus_one new_load = record {
    usage_info_p1 = if stat_open then some new_usage_info else none;
    usage_info_p2 = if stat_open then some new_usage_info else none;
    load_info_p = if load_open then some new_load else none;
    cur_load = minus_one;
    cur_cpu_usage = minus_one;
    stopped_cmd = false;
    stopped = false;
    inited = false;
  }

  module _ (proc : ProcReader D) where
    -- ReadCpuUsageFromProc, where `usage_info_p2` is the given one.
    unfoldable pub read_cpu_usage_from_proc :
        Option String → CpuUsageInfo → SystemStatusListener D → SystemStatusListener D
    unfolding store_times
    read_cpu_usage_from_proc none u l = record l { usage_info_p1 = none; usage_info_p2 = none }
    read_cpu_usage_from_proc (some line) u l =
        if not (proc.starts_with_cpu line) then l else record l {
          usage_info_p2 =
              some (record u {
                cpu = proc.word line;
                times = store_times (proc.numbers line) u.times;
              });
        }

    -- UpdateCpuUsage: `none` where it dereferences a null pointer.
    store_usage : SystemStatusListener D → Option (SystemStatusListener D)
    unfolding get_active_time get_idle_time
    store_usage l = elim l.usage_info_p1 [
      | none ↦ none
      | some u1 ↦ elim l.usage_info_p2 [
        | none ↦ none
        | some u2 ↦
            let active_time = sub64 (get_active_time u2) (get_active_time u1) in
            let idle_time = sub64 (get_idle_time u2) (get_idle_time u1) in
            let total_time = (active_time + idle_time) % 2 ^ 64 in
            some (record l { cur_cpu_usage = proc.float_ratio active_time total_time })
      ]
    ]

    unfoldable pub update_cpu_usage :
        Option String → SystemStatusListener D → Option (SystemStatusListener D)
    unfolding read_cpu_usage_from_proc store_usage
    update_cpu_usage reading l = elim l.usage_info_p1 [
      | none ↦ some l
      | some u1 ↦ elim l.usage_info_p2 [
        | none ↦ some l
        | some u2 ↦ store_usage (
            read_cpu_usage_from_proc reading u1
              (record l { usage_info_p1 = some u2; usage_info_p2 = some u1 }))
      ]
    ]

    -- UpdateSystemLoad
    unfoldable pub update_system_load :
        Option String → SystemStatusListener D → SystemStatusListener D
    unfolding first_or
    update_system_load reading l = elim l.load_info_p [
      | none ↦ l
      | some info ↦ elim reading [
        | none ↦ record l { load_info_p = none }
        | some line ↦
            let info' = proc.load line info in
            record l { load_info_p = some info'; cur_load = first_or l.cur_load info'.usage }
      ]
    ]

    -- A round of the loop of RunCpuListener, with what the two files give.
    unfoldable pub listen :
        Option String × Option String → SystemStatusListener D → Option (SystemStatusListener D)
    unfolding update_cpu_usage update_system_load
    listen (stat, load) l = elim (update_cpu_usage stat (record l { stopped = false })) [
      | none ↦ none
      | some l' ↦ some (record (update_system_load load l') { stopped = true })
    ]

    -- RunCpuListener, for the readings before the command to stop.
    unfoldable pub run_cpu_listener :
        List (Option String × Option String)
        → SystemStatusListener D
        → Option (SystemStatusListener D)
    unfolding listen
    run_cpu_listener [] l = some (record l { stopped = true })
    run_cpu_listener (reading ∷ readings) l = elim (listen reading l) [
      | none ↦ none
      | some l' ↦ run_cpu_listener readings l'
    ]

  -- Initialize, with whether it starts the thread.
  unfoldable pub initialize_listener : SystemStatusListener D → Bool × SystemStatusListener D
  initialize_listener l =
      if l.inited
      then (false, l)
      else if is_set l.load_info_p || is_set l.usage_info_p1
      then (true, record l { inited = true; stopped_cmd = false })
      else (false, record l { inited = true })
