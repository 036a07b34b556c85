-- ===== src/Sph/Balance.antt =====
-- The parts of a whole call and of its exit.
use sentinel_cpp.Prelude.{
  ℕ, ◌≡◌, refl, sym, ap, ◌∙◌, arith, true, false, Option, none, some, String, str_eq, Double,
  Bool-cases, Option-cases, inl, inr,
}
use sentinel_cpp.Stat.Storage.{ResourceNodeStorage, NodeRef, cluster_node_ref}
use sentinel_cpp.Slot.Token.{TokenResult, ok_result, is_blocked, blocked}
use sentinel_cpp.Slot.Entry.{Entry, EntryContext, EntryType, has_block_error}
use sentinel_cpp.Slot.Builder.{builder_entry, result_exit}
use sentinel_cpp.Slot.Statistic.{ParamMetric, Outcome, statistic_entry, statistic_exit, on_block}
use sentinel_cpp.Slot.Statistic.Threads.{threads_of, blocked_leaves_threads}
use sentinel_cpp.Slot.Chain.{run_slots, is_continue, chain_entry, chain_exit}
use sentinel_cpp.Param.Cache.{Cache}
use sentinel_cpp.Param.Slot.{MetricMap, metric_calls}
use sentinel_cpp.Sph.{
  World, new_entry, storage_of, set_last, builder_slot, statistic_slot, complete_stat_slot,
  log_slot, system_slot, flow_slot, param_flow_slot, checker_slot, global_slot_chain, answer,
  sph_u_entry, entry_exit,
}
use sentinel_cpp.Sph.Named.{named}
use sentinel_cpp.Sph.Threads.{
  threads_in, IsSame, checkers, counters, checkers-Checks, checkers_leave, run_slots-append,
  counters_end, builder_threads,
}

-- An entry with a block error is not counted at its exit.
blocked_exit :
    {P : Type 0} (metric : ParamMetric P) (e : Entry) (context : EntryContext) (count now : ℕ)
    (s : ResourceNodeStorage) (p : P)
    → has_block_error e ≡ true
    → statistic_exit metric e context count now s p ≡ (e, s, p)
unfolding statistic_exit
blocked_exit metric e context count now s p h = ground (arith, h, Option-cases e.cur_node)

-- At its exit an entry looks at no more of the context than the tag node, and the nodes do not depend
-- on the metric.
pub exit_storage :
    {P : Type 0} (metric metric' : ParamMetric P) (e : Entry) (context context' : EntryContext)
    (count now : ℕ) (s : ResourceNodeStorage) (p : P)
    → context.tag_node ≡ context'.tag_node
    → (statistic_exit metric e context count now s p).1
      ≡ (statistic_exit metric' e context' count now s p).1
unfolding statistic_exit
exit_storage metric metric' e context context' count now s p h =
    ap (λ t. (statistic_exit metric e (record context { tag_node = t }) count now s p).1) h
    ∙ ground (arith, Option-cases e.cur_node)

-- A result that is blocked and named has its reason.
reason_of :
    (t : TokenResult)
    → is_blocked t ≡ true
    → named t ≡ true
    → (t.status ≡ blocked)
      × (reason : String) × (t.blocked_reason ≡ some reason)
      × (str_eq reason "" ≡ false)
reason_of t b n = elim (Option-cases t.blocked_reason) [
  | inl e ↦ absurd (ground (arith, b, n, e))
  | inr (reason, e) ↦ (ground (arith, b), reason, e, ground (arith, b, n, e))
]

module _ {P : Type 0} (metric : ParamMetric P) where
  -- The entry of a blocked call has its block error.
  blocked_error :
      (e : Entry) (context : EntryContext) (own : Option NodeRef) (count now : ℕ)
      (s : ResourceNodeStorage) (p : P) (token : TokenResult) (reason : String)
      → context.last_token_result ≡ some token
      → token.status ≡ blocked
      → token.blocked_reason ≡ some reason
      → str_eq reason "" ≡ false
      → has_block_error (statistic_entry metric e context own count now s p).entry ≡ true
  unfolding statistic_entry on_block
  blocked_error e context own count now s p token reason l b m z = ground (arith, l, b, m, z)

  -- The entry of a call that is not blocked is as it was, and so is the answer.
  passed_entry :
      (e : Entry) (context : EntryContext) (own : Option NodeRef) (count now : ℕ)
      (s : ResourceNodeStorage) (p : P) (token : TokenResult)
      → context.last_token_result ≡ some token
      → is_blocked token ≡ false
      → let o = statistic_entry metric e context own count now s p in
        (o.entry ≡ e) × (is_blocked o.result ≡ false)
  unfolding statistic_entry
  passed_entry e context own count now s p token l b = (ground (arith, l, b), ground (arith, l, b))

module _ {C D : Type 0} (ops : Cache C) ⦃d : Double D⦄ (resource : String) (t : EntryType)
    (w : World C D) where
  -- The world after the builder, after the rule checkers, and after the whole chain.
  unfoldable pub begun : World C D
  begun =
      (builder_slot.entry
        (set_last ok_result (record w { entry = new_entry resource t w.now; node = none }))).1

  unfoldable pub checked : TokenResult × World C D
  checked = run_slots set_last (checkers ops) ok_result begun

  unfoldable pub ended : TokenResult × World C D
  ended = run_slots set_last (counters ops) checked.0 checked.1

  -- The statistic slot's part.
  unfoldable pub counted : Outcome (MetricMap C)
  counted =
      statistic_entry (metric_calls ops checked.1.params checked.1.now) checked.1.entry
        (set_last checked.0 checked.1).context checked.1.node checked.1.count checked.1.now
        (storage_of checked.1) checked.1.metrics

  pub sph_u_entry-answer : sph_u_entry ops true resource t w ≡ answer ops ended
  unfolding sph_u_entry chain_entry run_slots is_continue global_slot_chain begun ended checked
      builder_slot checkers counters builder_entry
  sph_u_entry-answer =
      ap (answer ops) (run_slots-append (checkers ops) (counters ops) ok_result begun)

  pub checked-IsSame : (r : NodeRef) → IsSame r begun checked.1 × (named checked.0 ≡ true)
  unfolding checked
  checked-IsSame r = checkers_leave r (checkers ops) ok_result begun (checkers-Checks ops d r) refl

  pub begun_threads :
      (r : NodeRef) (n : ℕ) → threads_in r w ≡ some n → threads_in r checked.1 ≡ some n
  unfolding begun
  begun_threads r n h =
      (checked-IsSame r).0.0
      ∙ builder_threads r
          (set_last ok_result (record w { entry = new_entry resource t w.now; node = none })) n h

  -- The exit of a blocked entry changes no node.
  blocked_chain_exit :
      (v : World C D)
      → has_block_error v.entry ≡ true
      → storage_of (chain_exit (global_slot_chain ops) v) ≡ storage_of v
  unfolding chain_exit global_slot_chain builder_slot system_slot flow_slot param_flow_slot
      checker_slot statistic_slot complete_stat_slot log_slot
  blocked_chain_exit v h =
      ap (λ x. x.1)
        (blocked_exit (metric_calls ops v.params v.now) v.entry v.context v.count v.now
          (storage_of v) v.metrics h)

  pub ended-counted :
      (ended.0 ≡ counted.result)
      × (storage_of ended.1 ≡ counted.storage)
      × (ended.1.entry ≡ counted.entry)
      × (ended.1.context.tag_node ≡ checked.1.context.tag_node)
  unfolding ended counted
  ended-counted = counters_end ops checked.0 checked.1

  pub passed_counted :
      is_blocked checked.0 ≡ false
      → (counted.entry ≡ checked.1.entry) × (is_blocked counted.result ≡ false)
  unfolding counted
  passed_counted b =
      passed_entry (metric_calls ops checked.1.params checked.1.now) checked.1.entry
        (set_last checked.0 checked.1).context checked.1.node checked.1.count checked.1.now
        (storage_of checked.1) checked.1.metrics checked.0 refl b

  blocked_counted :
      (r : NodeRef)
      → is_blocked checked.0 ≡ true
      → (counted.result ≡ checked.0)
        × (threads_of r counted.storage ≡ threads_in r checked.1)
        × (has_block_error counted.entry ≡ true)
  unfolding counted
  blocked_counted r b =
      let (st, reason, m, z) = reason_of checked.0 b (checked-IsSame r).1 in
      let metric = metric_calls ops checked.1.params checked.1.now in
      let context = (set_last checked.0 checked.1).context in
      let left =
        blocked_leaves_threads metric checked.1.entry context checked.1.node checked.1.count
          checked.1.now (storage_of checked.1) checked.1.metrics checked.0 reason r refl st m z in
      (
        left.0,
        left.1,
        blocked_error metric checked.1.entry context checked.1.node checked.1.count checked.1.now
            (storage_of checked.1) checked.1.metrics checked.0 reason refl st m z,
      )

  -- The counters leave it as it is whether the call is blocked.
  pub checked-ended : is_blocked checked.0 ≡ is_blocked ended.0
  checked-ended = elim (Bool-cases (is_blocked checked.0)) [
    | inr q ↦ q ∙ sym (passed_counted q).1 ∙ ap is_blocked (sym ended-counted.0)
    | inl q ↦
        ap is_blocked (sym (blocked_counted (cluster_node_ref resource) q).0 ∙ sym ended-counted.0)
  ]

  pub blocked_threads :
      (r : NodeRef) (n : ℕ)
      → threads_in r w ≡ some n
      → is_blocked ended.0 ≡ true
      → threads_in r (answer ops ended).1 ≡ some n
  unfolding answer
  blocked_threads r n h b =
      let (_, same, error) = blocked_counted r (checked-ended ∙ b) in
      rw b (
        ap (threads_of r) (
          blocked_chain_exit ended.1 (ap has_block_error (ended-counted.2) ∙ error)
          ∙ ended-counted.1)
        ∙ same
        ∙ begun_threads r n h)

  -- The exit, by its statistics.
  pub exit_statistics :
      (v : World C D)
      → v.entry.exited ≡ false
      → storage_of (entry_exit ops v).1
        ≡ (statistic_exit
            (metric_calls ops v.params v.now)
            v.entry
            v.context
            v.count
            v.now
            (storage_of v)
            v.metrics).1
  unfolding entry_exit result_exit chain_exit global_slot_chain builder_slot system_slot flow_slot
      param_flow_slot checker_slot statistic_slot complete_stat_slot log_slot
  exit_statistics v h = rw h refl

  pub begun_entry :
      (begun.entry.exited ≡ false)
      × (has_block_error begun.entry ≡ false)
      × (begun.entry.cur_node ≡ some (cluster_node_ref resource))
      × (begun.node ≡ some (cluster_node_ref resource))
  unfolding begun builder_slot builder_entry
  begun_entry = (refl, refl, refl, refl)
