-- ===== src/Flow/Checker/Threads.antt =====
-- The flow control changes no thread number.
use sentinel_cpp.Prelude.{
  ℕ, ◌+◌, ◌≡◌, refl, ◌∙◌, arith, if◌then◌else◌, Bool, true, false, Option, none, some, List, [],
  ◌∷◌, Double, Bool-cases, Option-cases, inl, inr,
}
use sentinel_cpp.Stat.Node.{StatisticNode, count_in_second}
use sentinel_cpp.Stat.Node
use sentinel_cpp.Stat.Storage.{ResourceNodeStorage, NodeRef, load_node, call_node}
use sentinel_cpp.Slot.Token.{TokenResult, ok_result, is_blocked}
use sentinel_cpp.Slot.Entry.{Entry, EntryContext}
use sentinel_cpp.Slot.Statistic.Threads.{threads_of, threads-modify_node, map_count}
use sentinel_cpp.Slot.Statistic.Pointers.{same_ref}
use sentinel_cpp.Flow.Rule.{FlowRule, FlowMetricType, empty, thread_count, qps}
use sentinel_cpp.Flow.Manager.{get_traffic_controller_for, get_rules_for_resource}
use sentinel_cpp.Flow.Shaping.{
  Controller, Checker, default_checker, throttling_checker, cur_pass, default_do_check, check,
  can_pass, calculate_allowed_tokens,
}
use sentinel_cpp.Flow.Checker.{
  FlowState, pass_with, pass_local_check, can_pass_check, check_rules, flow_slot_entry, select_node,
  wait_for,
}

same_count : (b : Bool) (o : Option ℕ) → (if b then map_count (λ n. n) o else o) ≡ o
same_count b none = ground arith
same_count b (some n) = ground arith

-- A call through a pointer that keeps the thread number of its node keeps that of every node.
call_node_threads :
    {A : Type 0} (f : StatisticNode → A × StatisticNode) (a : A) (q : Option NodeRef) (r : NodeRef)
    (s : ResourceNodeStorage)
    → ((n : StatisticNode) → (f n).1.cur_thread_num ≡ n.cur_thread_num)
    → threads_of r (call_node f a q s).1 ≡ threads_of r s
call_node_threads f a none r s h = refl
call_node_threads f a (some q) r s h = elim (Option-cases (load_node q s)) [
  | inl e ↦ rw (e, call_node) refl
  | inr (n, e) ↦
      rw (e, call_node)
        (threads-modify_node (λ n. (f n).1) (λ n. n) h q r s
          ∙ same_count (same_ref q r) (threads_of r s))
]

cur_pass_threads :
    {D : Type 0} (d : Double D) (mode : FlowMetricType) (now : ℕ) (own : Option NodeRef)
    (r : NodeRef) (s : ResourceNodeStorage)
    → threads_of r (cur_pass ⦃d = d⦄ mode now own s).1 ≡ threads_of r s
unfolding cur_pass Node.qps count_in_second
cur_pass_threads d thread_count now own r s = call_node_threads _ _ own r s (λ n. refl)
cur_pass_threads d qps now own r s = call_node_threads _ _ own r s (λ n. refl)

module _ {D : Type 0} ⦃d : Double D⦄ where
  can_pass_threads :
      (now : ℕ) (own : Option NodeRef) (count : ℕ) (c : Controller D) (r : NodeRef)
      (s : ResourceNodeStorage)
      → threads_of r (can_pass now own count c s).2 ≡ threads_of r s
  unfolding can_pass check default_do_check
  can_pass_threads now own count c r s = by_checker c.action_checker
    where
      by_checker :
          (k : Checker)
          → threads_of r (check k now own count (calculate_allowed_tokens c.calculator) s).2
            ≡ threads_of r s
      by_checker (default_checker mode) = cur_pass_threads d mode now own r s
      by_checker (throttling_checker t) = refl

  can_pass_check_threads :
      (rule : FlowRule D) (context : EntryContext) (own : Option NodeRef) (count now : ℕ)
      (r : NodeRef) (s : FlowState D)
      → threads_of r (can_pass_check rule context own count now s).1.storage
        ≡ threads_of r s.storage
  unfolding can_pass_check pass_local_check pass_with
  can_pass_check_threads rule context own count now r s = by_origin (empty rule.limit_origin) _ (
      by_node (select_node rule context own s.manager s.storage)
        (get_traffic_controller_for rule s.manager))
    where
      by_controller :
          (n : NodeRef) (o : Option (Controller D))
          → threads_of r (pass_with rule (some n) count now s o).1.storage ≡ threads_of r s.storage
      by_controller n none = refl
      by_controller n (some c) = can_pass_threads now (some n) count c r s.storage

      by_node :
          (q : Option NodeRef) (o : Option (Controller D))
          → threads_of r
              (elim q as (λ _. TokenResult × FlowState D) [
                | none ↦ (ok_result, s)
                | some n ↦ pass_with rule (some n) count now s o
              ]).1.storage
            ≡ threads_of r s.storage
      by_node none o = refl
      by_node (some n) o = by_controller n o

      by_origin :
          (b : Bool) (t : TokenResult × FlowState D)
          → threads_of r t.1.storage ≡ threads_of r s.storage
          → threads_of r (if b then (ok_result, s) else t).1.storage ≡ threads_of r s.storage
      by_origin true t h = refl
      by_origin false t h = h

  check_rules_threads :
      (rules : List (FlowRule D)) (context : EntryContext) (own : Option NodeRef) (count now : ℕ)
      (r : NodeRef) (s : FlowState D)
      → threads_of r (check_rules rules context own count now s).1.storage ≡ threads_of r s.storage
  unfolding check_rules
  check_rules_threads [] context own count now r s = refl
  check_rules_threads (rule ∷ rules) context own count now r s =
      let c = can_pass_check rule context own count now s in
      let same = can_pass_check_threads rule context own count now r s in
      elim (Bool-cases (is_blocked c.0)) [
        | inl e ↦ rw e same
        | inr e ↦ rw e (
            check_rules_threads rules context own count (now + wait_for c.0) r
              (record (c.1) { slept = c.1.slept + wait_for c.0 })
            ∙ same)
      ]

  -- FlowSlot's entry leaves the thread number of every node as it was.
  pub flow_slot_threads :
      (e : Entry) (context : EntryContext) (own : Option NodeRef) (count now : ℕ) (r : NodeRef)
      (s : FlowState D)
      → threads_of r (flow_slot_entry e context own count now s).1.storage ≡ threads_of r s.storage
  unfolding flow_slot_entry
  flow_slot_threads e context own count now r s =
      check_rules_threads (get_rules_for_resource e.resource s.manager) context own count now r s
