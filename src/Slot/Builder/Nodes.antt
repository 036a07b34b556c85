-- ===== src/Slot/Builder/Nodes.antt =====
-- The nodes that the builder finds are there, and an entry is exited once.
use sentinel_cpp.Prelude.{
  ◌≡◌, ◌⊎◌, inl, inr, refl, arith, true, false, none, some, String, str_eq, eq_iff, lookup,
  lookup-insert, Bool-cases, Option-cases,
}
use sentinel_cpp.Stat.Config.{StatConfig}
use sentinel_cpp.Stat.Node.{StatisticNode, new_node}
use sentinel_cpp.Stat.Storage.{
  ClusterNode, ResourceNodeStorage, NodeRef, cluster_node_ref, tag_node_ref, load_node,
  get_or_create_cluster_node, get_or_create_tag_node, get_cluster_node, get_tag_node,
}
use sentinel_cpp.Stat.Storage.Laws.{get_or_create_cluster_node_lem}
use sentinel_cpp.Slot.Entry.{Entry, EntryContext}
use sentinel_cpp.Slot.Builder.{builder_entry, result_exit}

-- A pointer leads to a node of the storage.
abbrev pub IsThere : NodeRef → ResourceNodeStorage → Type 0
IsThere r s = (n : StatisticNode) × (load_node r s ≡ some n)

made_tag_node :
    (c : StatConfig) (tag : String) (n : ClusterNode)
    → (get_or_create_tag_node c tag n).0 ≡ true
    → (t : StatisticNode) × (lookup tag (get_or_create_tag_node c tag n).1.tag_node_map ≡ some t)
unfolding get_or_create_tag_node get_tag_node
made_tag_node c tag n h = elim (Option-cases (lookup tag n.tag_node_map)) [
  | inl e ↦ (
    new_node c,
    ground (arith, e, h, lookup-insert tag tag (new_node c) n.tag_node_map, eq_iff tag tag),
  )
  | inr (t, e) ↦ (t, ground (arith, e))
]

-- After the builder the node of the entry is that of its resource, which is there; for a tag that is
-- not empty the context's tag node is null, or that of the tag, which is there too.
pub builder_nodes :
    (c : StatConfig) (e : Entry) (context : EntryContext) (s : ResourceNodeStorage)
    → let b = builder_entry c e context s in
      let own = cluster_node_ref e.resource in
      let tagged = tag_node_ref e.resource context.tag in
      (b.node ≡ some own)
      × (b.entry.cur_node ≡ some own)
      × IsThere own b.storage
      × (str_eq context.tag "" ≡ false
          → (b.context.tag_node ≡ none)
            ⊎ ((b.context.tag_node ≡ some tagged) × IsThere tagged b.storage))
unfolding builder_entry load_node get_cluster_node
builder_nodes c e context s = (refl, refl, own, tagged)
  where
    name : String
    name = e.resource

    n : ClusterNode
    n = (get_or_create_cluster_node c name s).0

    s' : ResourceNodeStorage
    s' = (get_or_create_cluster_node c name s).1

    n' : ClusterNode
    n' = (get_or_create_tag_node c context.tag n).1

    found : lookup name s'.node_map ≡ some n
    found = (get_or_create_cluster_node_lem c name name s).0

    own : IsThere (cluster_node_ref name) (builder_entry c e context s).storage
    own = elim (Bool-cases (str_eq context.tag "")) [
      | inl q ↦ (n.node, ground (arith, q, found))
      | inr q ↦
          (n'.node, ground (arith, q, lookup-insert name name n' s'.node_map, eq_iff name name))
    ]

    tagged :
        str_eq context.tag "" ≡ false
        → ((builder_entry c e context s).context.tag_node ≡ none)
          ⊎ (((builder_entry c e context s).context.tag_node ≡ some (tag_node_ref name context.tag))
              × IsThere (tag_node_ref name context.tag) (builder_entry c e context s).storage)
    tagged q = elim (Bool-cases (get_or_create_tag_node c context.tag n).0) [
      | inl m ↦
          let (t, g) = made_tag_node c context.tag n m in
          inr (
            ground (arith, q, m),
            (t, ground (arith, q, m, g, lookup-insert name name n' s'.node_map, eq_iff name name)),
          )
      | inr m ↦ inl (ground (arith, q, m))
    ]

-- An exit, whatever the chain does in it, leaves the entry exited; a second exit does nothing.
pub exit_once :
    {S : Type 0} (exit : Entry × S → Entry × S) (e : Entry) (s : S)
    → let (done, e', s') = result_exit exit (e, s) in
      (e'.exited ≡ true) × (result_exit exit (e', s') ≡ (false, e', s'))
unfolding result_exit
exit_once exit e s = ground arith
