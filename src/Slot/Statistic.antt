-- ===== src/Slot/Statistic.antt =====
-- sentinel-core/slot/statistic_slot.h and statistic_slot.cc: the slot that counts what the others
-- let pass and block. The entry is not null; its context is given beside it. The metrics of hot
-- parameters belong to another part, and are operations of its own state.
pub mod Pointers
pub mod Threads
use sentinel_cpp.Prelude.{
  ℕ, if◌then◌else◌, not, Bool, Option, none, some, String, sub64, sext32, str_eq,
}
use sentinel_cpp.Stat.Bucket.{pass, block, exception}
use sentinel_cpp.Stat.Node.{
  StatisticNode, add_request, add_rt_and_complete, increase_thread_num, decrease_thread_num,
}
use sentinel_cpp.Stat.Storage.{ResourceNodeStorage, NodeRef, entry_node_ref, modify_node}
use sentinel_cpp.Slot.Token.{TokenResult, TokenStatus, ok, blocked, should_wait, ok_result}
use sentinel_cpp.Slot.Entry.{Entry, EntryContext, EntryType, inbound, outbound, has_block_error}

-- What the slot calls on the metric of a resource, where it has one.
pub record ParamMetric (P : Type 0) : Type 0 where
  pub add_pass : String → ℕ → P → P
  pub add_thread_count : String → P → P
  pub decrease_thread_count : String → P → P

-- RecordPassFor: a null node is skipped, as in the two that follow.
unfoldable pub record_pass_for : Option NodeRef → ℕ → ℕ → ResourceNodeStorage → ResourceNodeStorage
record_pass_for none count now s = s
record_pass_for (some r) count now s =
    modify_node (add_request pass count now) r (modify_node increase_thread_num r s)

-- RecordBlockFor
unfoldable pub record_block_for : Option NodeRef → ℕ → ℕ → ResourceNodeStorage → ResourceNodeStorage
record_block_for none count now s = s
record_block_for (some r) count now s = modify_node (add_request block count now) r s

-- RecordCompleteFor: `response` is narrowed to an `int`.
unfoldable pub record_complete_for :
    Option NodeRef → ℕ → String → ℕ → ℕ → ResourceNodeStorage → ResourceNodeStorage
record_complete_for none response err count now s = s
record_complete_for (some r) response err count now s =
    let s' = modify_node (add_rt_and_complete (sext32 response) count now) r s in
    let s'' =
      if not (str_eq err "") then modify_node (add_request exception count now) r s' else s' in
    modify_node decrease_thread_num r s''

-- The node of all inbound traffic, for an entry that counts towards it.
abbrev pub inbound_node : Entry → Option NodeRef
inbound_node e = elim e.entry_type [ inbound ↦ some entry_node_ref | outbound ↦ none ]

module _ {P : Type 0} (metric : ParamMetric P) where
  -- OnPass
  unfoldable pub on_pass :
      Entry
      → EntryContext
      → Option NodeRef
      → ℕ
      → ℕ
      → ResourceNodeStorage
      → P
      → TokenResult × ResourceNodeStorage × P
  unfolding record_pass_for
  on_pass e context node count now s p =
      let s' = record_pass_for node count now s in
      let s'' = record_pass_for (inbound_node e) count now s' in
      (
        ok_result,
        record_pass_for context.tag_node count now s'',
        metric.add_thread_count e.resource (metric.add_pass e.resource count p),
      )

-- OnBlock
unfoldable pub on_block :
    TokenResult
    → Entry
    → EntryContext
    → Option NodeRef
    → ℕ
    → ℕ
    → ResourceNodeStorage
    → TokenResult × Entry × ResourceNodeStorage
unfolding record_block_for
on_block prev_result e context node count now s =
    let reason : String = elim prev_result.blocked_reason [
      | none ↦ "unexpected_blocked"
      | some r ↦ r
    ] in
    let s' = record_block_for node count now s in
    let s'' = record_block_for context.tag_node count now s' in
    (
      prev_result,
      record e { block_error = reason },
      record_block_for (inbound_node e) count now s'',
    )

-- What an entry and an exit leave.
pub record Outcome (P : Type 0) : Type 0 where
  pub result : TokenResult
  pub entry : Entry
  pub storage : ResourceNodeStorage
  pub params : P

module _ {P : Type 0} (metric : ParamMetric P) where
  passed : Entry → EntryContext → Option NodeRef → ℕ → ℕ → ResourceNodeStorage → P → Outcome P
  unfolding on_pass
  passed e context node count now s p =
      let (r, s', p') = on_pass metric e context node count now s p in
      record { result = r; entry = e; storage = s'; params = p' }

  -- Entry, of an entry that has a context.
  unfoldable pub statistic_entry :
      Entry → EntryContext → Option NodeRef → ℕ → ℕ → ResourceNodeStorage → P → Outcome P
  unfolding passed on_block
  statistic_entry e context node count now s p = elim context.last_token_result [
    | none ↦ passed e context node count now s p
    | some prev_result ↦ elim prev_result.status [
      | blocked ↦
          let (r, e', s') = on_block prev_result e context node count now s in
          record { result = r; entry = e'; storage = s'; params = p }
      | _ ↦ passed e context node count now s p
    ]
  ]

  -- Exit: the entry, the nodes and the metrics afterwards.
  unfoldable pub statistic_exit :
      Entry → EntryContext → ℕ → ℕ → ResourceNodeStorage → P → Entry × ResourceNodeStorage × P
  unfolding record_complete_for
  statistic_exit e context count now s p = elim e.cur_node [
    | none ↦ (e, s, p)
    | some r ↦
        if has_block_error e
        then (e, s, p)
        else let rt = sub64 now e.create_time in
          let s' = record_complete_for (some r) rt e.error count now s in
          let s'' = record_complete_for context.tag_node rt e.error count now s' in
          (
            record e { rt = rt },
            record_complete_for (inbound_node e) rt e.error count now s'',
            metric.decrease_thread_count e.resource p,
          )
  ]
