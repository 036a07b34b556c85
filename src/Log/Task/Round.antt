-- ===== src/Log/Task/Round.antt =====
-- What one round of MetricLogTask::RunLogTask collects.
use mathlib.Core.Path.{subst}
use mathlib.Core.List.{Perm, perm_middle, perm_append_comm, append_assoc, append-nil, map-append}
use mathlib.Core.List.Perm as P
use sentinel_cpp.Prelude.{
  ℕ, ◌-◌, ◌%◌, ◌^◌, ◌<◌, ◌≡◌, refl, ap, sym, ◌∙◌, arith, ◌==◌, ==_iff, true, false, List, [], ◌∷◌,
  ◌++◌, map, String, lt_int64, Bool-cases, inl, inr, All, All-mono,
}
use sentinel_cpp.Stat.Sliding
use sentinel_cpp.Stat.Node.{metrics}
use sentinel_cpp.Stat.Node.Fetch.{metrics-IsNews}
use sentinel_cpp.Stat.Storage.{ClusterNode, ResourceNodeStorage}
use sentinel_cpp.Log.Format.{Text, Format}
use sentinel_cpp.Log.Item.{MetricItem}
use sentinel_cpp.Log.Writer.{Host, MetricWriter, write_all}
use sentinel_cpp.Log.Task.{
  MetricItemTimeMap, set_resource, add_item, aggregate_metrics, collect, run_log_task,
}

-- The items of a map, each with its time.
abbrev pub entries_of : MetricItemTimeMap → List (ℕ × MetricItem)
entries_of [] = []
entries_of ((t, items) ∷ m) = map (λ item. (t, item)) items ++ entries_of m

-- What a node reports, with the name of its resource.
abbrev pub named : Text → List (ℕ × Sliding.MetricItem) → List (ℕ × MetricItem)
named resource [] = []
named resource ((t, item) ∷ items) = (t, set_resource resource item) ∷ named resource items

-- What all the nodes report.
abbrev pub reports :
    (String → Text) → (String → ℕ) → List (String × ClusterNode) → List (ℕ × MetricItem)
reports bytes clock [] = []
reports bytes clock ((name, n) ∷ nodes) =
    named (bytes name) (metrics (clock name) n.node).0 ++ reports bytes clock nodes

-- The times come after one of them, each after the one before it.
abbrev pub IncreasingFrom : ℕ → MetricItemTimeMap → Type 0
IncreasingFrom k [] = Unit {0}
IncreasingFrom k ((t, items) ∷ m) = (lt_int64 k t ≡ true) × (t < 2 ^ 63) × IncreasingFrom t m

abbrev pub Increasing : MetricItemTimeMap → Type 0
Increasing [] = Unit {0}
Increasing ((t, items) ∷ m) = (t < 2 ^ 63) × IncreasingFrom t m

at_end-perm :
    (t : ℕ) (item : MetricItem) (items : List MetricItem) (rest : List (ℕ × MetricItem))
    → Perm
        (map (λ x. (t, x)) (items ++ item ∷ []) ++ rest)
        ((t, item) ∷ (map (λ x. (t, x)) items ++ rest))
at_end-perm t item items rest =
    let timed : MetricItem → ℕ × MetricItem = λ x. (t, x) in
    subst (λ l. Perm l ((t, item) ∷ (map timed items ++ rest)))
      (sym (
        ap (λ l. l ++ rest) (map-append timed items (item ∷ []))
        ∙ append_assoc (map timed items) ((t, item) ∷ []) rest))
      (perm_middle (map timed items) rest)

add_item-perm :
    (t : ℕ) (item : MetricItem) (m : MetricItemTimeMap)
    → Perm (entries_of (add_item t item m)) ((t, item) ∷ entries_of m)
unfolding add_item
add_item-perm t item [] = P.refl _
add_item-perm t item ((k, items) ∷ m) = elim (Bool-cases (k == t)) [
  | inl e ↦ rw e (rw ((==_iff k t).0 e) (at_end-perm t item items (entries_of m)))
  | inr e ↦ elim (Bool-cases (lt_int64 t k)) [
    | inl q ↦ rw (e, q) (P.refl _)
    | inr q ↦
        rw (e, q)
          (P.trans (P.append_left (map (λ x. (k, x)) items) (add_item-perm t item m))
            (perm_middle (map (λ x. (k, x)) items) (entries_of m)))
  ]
]

after :
    (k t : ℕ)
    → k < 2 ^ 63
    → t < 2 ^ 63
    → (k == t) ≡ false
    → lt_int64 t k ≡ false
    → lt_int64 k t ≡ true
after k t h1 h2 e q = ground (arith, h1, h2, e, q)

add_item-IncreasingFrom :
    (j t : ℕ) (item : MetricItem) (m : MetricItemTimeMap)
    → t < 2 ^ 63
    → lt_int64 j t ≡ true
    → IncreasingFrom j m
    → IncreasingFrom j (add_item t item m)
unfolding add_item
add_item-IncreasingFrom j t item [] h k s = (k, h, tt)
add_item-IncreasingFrom j t item ((i, items) ∷ m) h k s = elim (Bool-cases (i == t)) [
  | inl e ↦ rw e s
  | inr e ↦ elim (Bool-cases (lt_int64 t i)) [
    | inl q ↦ rw (e, q) (k, h, (q, s.1, s.2))
    | inr q ↦ rw (e, q) (s.0, s.1, add_item-IncreasingFrom i t item m h (after i t s.1 h e q) s.2)
  ]
]

add_item-Increasing :
    (t : ℕ) (item : MetricItem) (m : MetricItemTimeMap)
    → t < 2 ^ 63
    → Increasing m
    → Increasing (add_item t item m)
unfolding add_item
add_item-Increasing t item [] h s = (h, tt)
add_item-Increasing t item ((i, items) ∷ m) h s = elim (Bool-cases (i == t)) [
  | inl e ↦ rw e s
  | inr e ↦ elim (Bool-cases (lt_int64 t i)) [
    | inl q ↦ rw (e, q) (h, (q, s.0, s.1))
    | inr q ↦ rw (e, q) (s.0, add_item-IncreasingFrom i t item m h (after i t s.0 h e q) s.1)
  ]
]

aggregate-perm :
    (resource : Text) (items : List (ℕ × Sliding.MetricItem)) (m : MetricItemTimeMap)
    → Perm (entries_of (aggregate_metrics resource items m)) (named resource items ++ entries_of m)
unfolding aggregate_metrics
aggregate-perm resource [] m = P.refl _
aggregate-perm resource ((t, item) ∷ items) m =
    P.trans (aggregate-perm resource items (add_item t (set_resource resource item) m)) (
      P.trans
        (P.append_left (named resource items) (add_item-perm t (set_resource resource item) m))
        (perm_middle (named resource items) (entries_of m)))

aggregate-Increasing :
    (resource : Text) (items : List (ℕ × Sliding.MetricItem)) (m : MetricItemTimeMap)
    → All (λ e. e.0 < 2 ^ 63) items
    → Increasing m
    → Increasing (aggregate_metrics resource items m)
unfolding aggregate_metrics
aggregate-Increasing resource [] m h s = s
aggregate-Increasing resource ((t, item) ∷ items) m h s =
    aggregate-Increasing resource items _ h.1
      (add_item-Increasing t (set_resource resource item) m h.0 s)

lt_of_le : (a b : ℕ) → a < b - b % 1000 → b < 2 ^ 63 → a < 2 ^ 63
lt_of_le a b h k = omega (arith, h, k)

metrics_lt :
    (bytes : String → Text) (now : ℕ) (n : ClusterNode)
    → now < 2 ^ 63
    → All (λ (e : ℕ × Sliding.MetricItem). e.0 < 2 ^ 63) (metrics now n.node).0
metrics_lt bytes now n h =
    All-mono (λ (e : ℕ × Sliding.MetricItem) i. lt_of_le e.0 now i.2 h) (metrics now n.node).0
      (metrics-IsNews now n.node)

module _ (bytes : String → Text) (clock : String → ℕ)
    (clock_lt : (name : String) → clock name < 2 ^ 63) where
  collect-round :
      (nodes : List (String × ClusterNode)) (m : MetricItemTimeMap)
      → Increasing m
      → Increasing (collect bytes clock nodes m).0
        × Perm
            (entries_of (collect bytes clock nodes m).0)
            (reports bytes clock nodes ++ entries_of m)
  unfolding collect
  collect-round [] m s = (s, P.refl _)
  collect-round ((name, n) ∷ nodes) m s =
      let items = (metrics (clock name) n.node).0 in
      let m' = aggregate_metrics (bytes name) items m in
      let (up, same) = collect-round nodes m' (
        aggregate-Increasing (bytes name) items m (metrics_lt bytes (clock name) n (clock_lt name))
          s) in
      let own = named (bytes name) items in
      let others = reports bytes clock nodes in
      let moved = P.trans (P.append_left others (aggregate-perm (bytes name) items m)) (
        subst (λ l. Perm l ((own ++ others) ++ entries_of m))
          (append_assoc others own (entries_of m))
          (P.append_right (entries_of m) (perm_append_comm others own))) in
      (up, P.trans same moved)

  -- In a round, at times below 2 ^ 63, the writer is called with times in increasing order, each once,
  -- and with exactly the items that the nodes of the resources report then, each under its time and
  -- with the name of its resource.
  pub round_writes_reports :
      (f : Format) (host : Host) (s : ResourceNodeStorage) (w : MetricWriter)
      → (calls : MetricItemTimeMap) × ((run_log_task bytes clock f host s w).1
          ≡ write_all f host calls w)
        × Increasing calls
        × Perm (entries_of calls) (reports bytes clock s.node_map)
  unfolding run_log_task
  round_writes_reports f host s w =
      let nodes = s.node_map in
      let (up, same) = collect-round nodes [] tt in
      (
        (collect bytes clock nodes []).0,
        refl,
        up,
        subst (Perm (entries_of (collect bytes clock nodes []).0))
            (append-nil (reports bytes clock nodes)) same,
      )
