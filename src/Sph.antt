-- ===== src/Sph.antt =====
-- sentinel-core/public/sph_u.h and sentinel-core/slot/global_slot_chain.cc: a call of a resource
-- through all the slots. The clock stands still in an entry but where the flow control sleeps.
pub mod Named
pub mod Threads
pub mod Balance
pub mod Calls
pub mod Tests
use sentinel_cpp.Prelude.{
  ℕ, ◌+◌, ◌-◌, ◌^◌, if◌then◌else◌, Bool, true, false, not, Option, none, some, List, [], ◌∷◌,
  String, Double,
}
use sentinel_cpp.Stat.Config.{StatConfig}
use sentinel_cpp.Stat.Storage.{ResourceNodeStorage, NodeRef}
use sentinel_cpp.Slot.Token.{TokenResult, ok_result, is_blocked}
use sentinel_cpp.Slot.Entry.{Entry, EntryContext, EntryType}
use sentinel_cpp.Slot.Builder.{builder_entry, result_exit}
use sentinel_cpp.Slot.Statistic.{statistic_entry, statistic_exit}
use sentinel_cpp.Slot.Chain.{Slot, SlotType, rule_checker_slot, stats_slot, chain_entry, chain_exit}
use sentinel_cpp.System.{MetricType, system_slot_entry}
use sentinel_cpp.Flow.Checker.{FlowState, flow_slot_entry}
use sentinel_cpp.Breaker.Manager.{RuleManager, checker_slot_entry, complete_stat_slot_exit}
use sentinel_cpp.Param.Value.{AnyValue}
use sentinel_cpp.Param.Cache.{Cache}
use sentinel_cpp.Param.Manager.{ParamFlowRuleManager}
use sentinel_cpp.Param.Slot.{MetricMap, param_slot_entry, metric_calls}
use sentinel_cpp.Log.Block.{BlockLogTask, log_slot_entry}

-- Everything that the slots read and write: the call, the nodes, the rules and their state.
pub record World (C D : Type 0) : Type 0 where
  pub entry : Entry
  pub context : EntryContext
  pub node : Option NodeRef
  pub count : ℕ
  pub params : List AnyValue
  pub now : ℕ
  pub config : StatConfig
  pub flow : FlowState D
  pub system_rules : List (MetricType × D)
  pub load : D
  pub usage : D
  pub param_rules : ParamFlowRuleManager D
  pub metrics : MetricMap C
  pub breakers : RuleManager D
  pub block_log : BlockLogTask

-- Either the entry or the reason why it was blocked.
pub record EntryResult : Type 0 where
  pub entry : Option Entry
  pub blocked_reason : Option String

-- The constructor of Entry.
abbrev pub new_entry : String → EntryType → ℕ → Entry
new_entry resource t now = record {
  resource = resource;
  entry_type = t;
  create_time = now;
  exited = false;
  rt = 2 ^ 64 - 1;
  error = "";
  block_error = "";
  cur_node = none;
}

module _ {C D : Type 0} where
  abbrev pub storage_of : World C D → ResourceNodeStorage
  storage_of w = w.flow.storage

  abbrev pub with_storage : ResourceNodeStorage → World C D → World C D
  with_storage s w = record w { flow = record (w.flow) { storage = s } }

  abbrev pub set_last : TokenResult → World C D → World C D
  set_last token w = record w { context = record (w.context) { last_token_result = some token } }

  unfoldable pub builder_slot : Slot (World C D)
  unfolding builder_entry
  builder_slot = record {
    slot_type = stats_slot;
    entry = λ w.
        let b = builder_entry w.config w.entry w.context (storage_of w) in
        (
          b.result,
          with_storage b.storage (record w { entry = b.entry; context = b.context; node = b.node }),
        );
    exit = λ w. w;
  }

  unfoldable pub log_slot : Slot (World C D)
  log_slot = record {
    slot_type = stats_slot;
    entry = λ w.
        let (r, t) = log_slot_entry w.entry w.context w.now w.block_log in
        (r, record w { block_log = t });
    exit = λ w. w;
  }

module _ {C D : Type 0} (ops : Cache C) ⦃d : Double D⦄ where
  unfoldable pub system_slot : Slot (World C D)
  system_slot = record {
    slot_type = rule_checker_slot;
    entry = λ w.
        let (r, s) =
          system_slot_entry w.load w.usage w.now w.entry w.count w.system_rules (storage_of w) in
        (r, with_storage s w);
    exit = λ w. w;
  }

  unfoldable pub flow_slot : Slot (World C D)
  flow_slot = record {
    slot_type = rule_checker_slot;
    entry = λ w.
        let (r, f) =
          flow_slot_entry w.entry w.context w.node w.count w.now (record (w.flow) { slept = 0 }) in
        (r, record w { flow = f; now = w.now + f.slept });
    exit = λ w. w;
  }

  unfoldable pub param_flow_slot : Slot (World C D)
  param_flow_slot = record {
    slot_type = rule_checker_slot;
    entry = λ w.
        let (r, m) = param_slot_entry ops w.entry w.param_rules w.count w.params w.now w.metrics in
        (r, record w { metrics = m });
    exit = λ w. w;
  }

  unfoldable pub checker_slot : Slot (World C D)
  checker_slot = record {
    slot_type = rule_checker_slot;
    entry = λ w.
        let (r, m) = checker_slot_entry w.entry w.now w.breakers in (r, record w { breakers = m });
    exit = λ w. w;
  }

  unfoldable pub statistic_slot : Slot (World C D)
  statistic_slot = record {
    slot_type = stats_slot;
    entry = λ w.
        let o =
          statistic_entry (metric_calls ops w.params w.now) w.entry w.context w.node w.count w.now
            (storage_of w) w.metrics in
        (o.result, with_storage o.storage (record w { entry = o.entry; metrics = o.params }));
    exit = λ w.
        let (e, s, m) =
          statistic_exit (metric_calls ops w.params w.now) w.entry w.context w.count w.now
            (storage_of w) w.metrics in
        with_storage s (record w { entry = e; metrics = m });
  }

  -- CompleteStatSlot: its entry answers the last result.
  unfoldable pub complete_stat_slot : Slot (World C D)
  complete_stat_slot = record {
    slot_type = stats_slot;
    entry = λ w. (elim w.context.last_token_result [ none ↦ ok_result | some r ↦ r ], w);
    exit = λ w. record w { breakers = complete_stat_slot_exit w.entry w.now w.breakers };
  }

  -- BuildDefaultSlotChain
  unfoldable pub global_slot_chain : List (Slot (World C D))
  unfolding builder_slot system_slot flow_slot param_flow_slot checker_slot statistic_slot
      complete_stat_slot log_slot
  global_slot_chain =
      builder_slot ∷ system_slot ∷ flow_slot ∷ param_flow_slot ∷ checker_slot ∷ statistic_slot
      ∷ complete_stat_slot ∷ log_slot ∷ []

  -- What is done with the answer of the chain: a blocked entry is exited.
  unfoldable pub answer : TokenResult × World C D → EntryResult × World C D
  answer (r, w) =
      if is_blocked r
      then (
        record { entry = none; blocked_reason = r.blocked_reason },
        chain_exit global_slot_chain w,
      )
      else (record { entry = some w.entry; blocked_reason = none }, w)

  -- SphU::Entry, with the number and the parameters of the call and its context in `w`; `activated` is
  -- GlobalStatus::activated.
  unfoldable pub sph_u_entry : Bool → String → EntryType → World C D → EntryResult × World C D
  unfolding answer
  sph_u_entry activated resource t w =
      let e = new_entry resource t w.now in
      if not activated
      then (
        record { entry = some (record e { exited = true }); blocked_reason = none },
        record w { entry = record e { exited = true } },
      )
      else answer (chain_entry set_last global_slot_chain (record w { entry = e; node = none }))

  -- EntryResult::Exit, of the entry in `w`.
  unfoldable pub entry_exit : World C D → Bool × World C D
  entry_exit w =
      let (done, e, w') =
        result_exit
          (λ (e, v).
            let v' = chain_exit global_slot_chain (record v { entry = e }) in (v'.entry, v'))
          (w.entry, w) in
      (done, record w' { entry = e })
