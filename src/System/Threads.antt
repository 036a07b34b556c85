-- ===== src/System/Threads.antt =====
-- The check of the system rules changes no thread number.
use sentinel_cpp.Prelude.{ℕ, ◌≡◌, refl, ◌∙◌, arith, List, [], ◌∷◌, Double, Bool-cases, inl, inr}
use sentinel_cpp.Stat.Node.{
  StatisticNode, qps, avg_rt, max_complete_qps, node_min_rt, count_in_second,
}
use sentinel_cpp.Stat.Storage.{
  ResourceNodeStorage, NodeRef, entry_node_ref, cluster_node_ref, tag_node_ref, load_node,
  modify_node,
}
use sentinel_cpp.Slot.Entry.{Entry}
use sentinel_cpp.Slot.Statistic.Threads.{threads_of}
use sentinel_cpp.System.{
  MetricType, system_load, rt, concurrency, pass_qps, cpu_usage, check_bbr, check_metric,
  check_system, system_slot_entry,
}

module _ {D : Type 0} ⦃d : Double D⦄ where
  check_bbr_threads :
      (threads : D) (now : ℕ) (own : StatisticNode)
      → (check_bbr threads now own).1.cur_thread_num ≡ own.cur_thread_num
  unfolding check_bbr max_complete_qps node_min_rt
  check_bbr_threads threads now own = ground arith

  check_metric_threads :
      (load usage : D) (now count : ℕ) (k : MetricType) (threshold : D) (own : StatisticNode)
      → (check_metric load usage now count k threshold own).1.cur_thread_num ≡ own.cur_thread_num
  unfolding check_metric qps avg_rt count_in_second
  check_metric_threads load usage now count pass_qps threshold own = refl
  check_metric_threads load usage now count concurrency threshold own = refl
  check_metric_threads load usage now count rt threshold own = ground arith
  check_metric_threads load usage now count system_load threshold own =
      ground (arith, check_bbr_threads (d.of_uint32 own.cur_thread_num) now own)
  check_metric_threads load usage now count cpu_usage threshold own =
      ground (arith, check_bbr_threads (d.of_uint32 own.cur_thread_num) now own)

  check_system_threads :
      (load usage : D) (now count : ℕ) (m : List (MetricType × D)) (own : StatisticNode)
      → (check_system load usage now count m own).1.cur_thread_num ≡ own.cur_thread_num
  unfolding check_system
  check_system_threads load usage now count [] own = refl
  check_system_threads load usage now count ((k, threshold) ∷ m) own =
      let r = check_metric load usage now count k threshold own in
      let same = check_metric_threads load usage now count k threshold own in
      elim (Bool-cases r.0) [
        | inl e ↦ rw e (check_system_threads load usage now count m r.1 ∙ same)
        | inr e ↦ rw e same
      ]

  -- SystemSlot's entry leaves the thread number of every node as it was.
  pub system_slot_threads :
      (load usage : D) (now : ℕ) (e : Entry) (count : ℕ) (m : List (MetricType × D)) (r : NodeRef)
      (s : ResourceNodeStorage)
      → threads_of r (system_slot_entry load usage now e count m s).1 ≡ threads_of r s
  unfolding system_slot_entry load_node modify_node
  system_slot_threads load usage now e count m entry_node_ref s =
      ground (arith, check_system_threads load usage now count m s.entry_node.node)
  system_slot_threads load usage now e count m (cluster_node_ref name) s = ground arith
  system_slot_threads load usage now e count m (tag_node_ref name tag) s = ground arith
