-- ===== src/Slot/Builder.antt =====
-- sentinel-core/slot/resource_node_builder_slot.h and .cc, common/entry_result.h and .cc,
-- common/tracer.cc: the slot that finds the nodes of an entry, and what a caller does with the entry.
pub mod Nodes
pub mod Threads
use sentinel_cpp.Prelude.{
  ℕ, if◌then◌else◌, not, Bool, true, false, Option, none, some, List, [], ◌∷◌, String, str_eq,
  insert, is_nonpos_int64,
}
use sentinel_cpp.Stat.Bucket.{exception}
use sentinel_cpp.Stat.Config.{StatConfig}
use sentinel_cpp.Stat.Node.{add_request}
use sentinel_cpp.Stat.Storage.{
  ClusterNode, ResourceNodeStorage, NodeRef, cluster_node_ref, tag_node_ref,
  get_or_create_cluster_node, get_or_create_tag_node, modify_node,
}
use sentinel_cpp.Slot.Token.{TokenResult, ok_result}
use sentinel_cpp.Slot.Entry.{Entry, EntryContext}

-- What the builder leaves: the node is passed to the slots that follow.
pub record Built : Type 0 where
  pub result : TokenResult
  pub entry : Entry
  pub context : EntryContext
  pub node : Option NodeRef
  pub storage : ResourceNodeStorage

-- The context's tag node, and the storage with the node that it may need.
with_tag_node :
    StatConfig
    → String
    → EntryContext
    → ClusterNode
    → ResourceNodeStorage
    → EntryContext × ResourceNodeStorage
with_tag_node c name context n s =
    let (made, n') = get_or_create_tag_node c context.tag n in
    (
      record context { tag_node = if made then some (tag_node_ref name context.tag) else none },
      record s { node_map = insert name n' s.node_map },
    )

-- ResourceNodeBuilderSlot::Entry
unfoldable pub builder_entry : StatConfig → Entry → EntryContext → ResourceNodeStorage → Built
unfolding with_tag_node
builder_entry c e context s =
    let (n, s') = get_or_create_cluster_node c e.resource s in
    let tagged : EntryContext × ResourceNodeStorage =
      if not (str_eq context.tag "")
      then with_tag_node c e.resource context n s'
      else (context, s') in
    record {
      result = ok_result;
      entry = record e { cur_node = some (cluster_node_ref e.resource) };
      context = tagged.0;
      node = some (cluster_node_ref e.resource);
      storage = tagged.1;
    }

-- Tracer::Trace, of an entry that is not null; the count is the pattern of its value.
unfoldable pub trace : Entry → ℕ → ℕ → ResourceNodeStorage → ResourceNodeStorage
trace e count now s =
    if is_nonpos_int64 count
    then s
    else elim e.cur_node [ none ↦ s | some r ↦ modify_node (add_request exception count now) r s ]

module _ {S : Type 0} where
  -- EntryResult::Exit, of an entry that is not null: `exit` is the chain's exit on the state `S` and
  -- the entry.
  unfoldable pub result_exit : (Entry × S → Entry × S) → Entry × S → Bool × Entry × S
  result_exit exit (e, s) =
      if e.exited
      then (false, e, s)
      else (let (e', s') = exit (e, s) in (true, record e' { exited = true }, s'))

-- EntryResult::SetError
unfoldable pub set_error : String → Entry → Entry
set_error err e = record e { error = err }
