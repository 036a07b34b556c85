-- ===== src/Slot/Builder/Threads.antt =====
-- The builder keeps every node that is there.
use mathlib.Core.Path.{subst}
use sentinel_cpp.Prelude.{
  ◌≡◌, sym, ap, ◌∙◌, arith, none, some, String, str_eq, eq_iff, lookup, insert, lookup-insert,
  Bool-cases, Option-cases, inl, inr,
}
use sentinel_cpp.Stat.Config.{StatConfig}
use sentinel_cpp.Stat.Node.{StatisticNode, new_node}
use sentinel_cpp.Stat.Storage.{
  ClusterNode, ResourceNodeStorage, NodeRef, entry_node_ref, cluster_node_ref, tag_node_ref,
  load_node, get_or_create_cluster_node, get_or_create_tag_node, get_cluster_node, get_tag_node,
  new_cluster_node,
}
use sentinel_cpp.Stat.Storage.Laws.{get_or_create_cluster_node_lem}
use sentinel_cpp.Slot.Entry.{Entry, EntryContext}
use sentinel_cpp.Slot.Builder.{builder_entry, with_tag_node}

-- `n'` has the node and the tags' nodes of `n`.
abbrev Extends : ClusterNode → ClusterNode → Type 0
Extends n n' =
    (n'.node ≡ n.node)
    × ((tag : String) (x : StatisticNode)
        → lookup tag n.tag_node_map ≡ some x
        → lookup tag n'.tag_node_map ≡ some x)

-- A node under a name that has none, or that extends the one there, keeps every node.
insert_keeps :
    (name : String) (n' : ClusterNode) (r : NodeRef) (s : ResourceNodeStorage) (x : StatisticNode)
    → ((n : ClusterNode) → lookup name s.node_map ≡ some n → Extends n n')
    → load_node r s ≡ some x
    → load_node r (record s { node_map = insert name n' s.node_map }) ≡ some x
unfolding load_node
insert_keeps name n' entry_node_ref s x ext h = h
insert_keeps name n' (cluster_node_ref b) s x ext h = elim (Option-cases (lookup b s.node_map)) [
  | inl e ↦ absurd (ground (arith, e, h))
  | inr (n, e) ↦ elim (Bool-cases (str_eq name b)) [
    | inl q ↦ ground (
      arith,
      e,
      h,
      q,
      lookup-insert name b n' s.node_map,
      (ext n (ap (λ k. lookup k s.node_map) ((eq_iff name b).0 q) ∙ e)).0,
    )
    | inr q ↦ ground (arith, e, h, q, lookup-insert name b n' s.node_map)
  ]
]
insert_keeps name n' (tag_node_ref b t) s x ext h = elim (Option-cases (lookup b s.node_map)) [
  | inl e ↦ absurd (ground (arith, e, h))
  | inr (n, e) ↦ elim (Bool-cases (str_eq name b)) [
    | inl q ↦ ground (
      arith,
      e,
      h,
      q,
      lookup-insert name b n' s.node_map,
      (ext n (ap (λ k. lookup k s.node_map) ((eq_iff name b).0 q) ∙ e)).1 t x
          (ground (arith, e, h)),
    )
    | inr q ↦ ground (arith, e, h, q, lookup-insert name b n' s.node_map)
  ]
]

cluster_keeps :
    (c : StatConfig) (name : String) (r : NodeRef) (s : ResourceNodeStorage) (x : StatisticNode)
    → load_node r s ≡ some x
    → load_node r (get_or_create_cluster_node c name s).1 ≡ some x
unfolding get_or_create_cluster_node get_cluster_node
cluster_keeps c name r s x h = elim (Option-cases (lookup name s.node_map)) [
  | inr (n, e) ↦ ground (arith, e, h)
  | inl e ↦ ground (
    arith,
    e,
    insert_keeps name (new_cluster_node c) r s x (λ n q. absurd (ground (arith, e, q))) h,
  )
]

get_or_create_tag_node-Extends :
    (c : StatConfig) (tag : String) (n : ClusterNode) → Extends n (get_or_create_tag_node c tag n).1
unfolding get_or_create_tag_node get_tag_node
get_or_create_tag_node-Extends c tag n = (ground arith, kept)
  where
    kept :
        (u : String) (y : StatisticNode)
        → lookup u n.tag_node_map ≡ some y
        → lookup u (get_or_create_tag_node c tag n).1.tag_node_map ≡ some y
    kept u y h = elim (Option-cases (lookup tag n.tag_node_map)) [
      | inr (x, e) ↦ ground (arith, e, h)
      | inl e ↦ elim (Bool-cases (str_eq tag u)) [
        | inl q ↦
            absurd
              (ground (arith, sym e ∙ ap (λ k. lookup k n.tag_node_map) ((eq_iff tag u).0 q) ∙ h))
        | inr q ↦ ground (arith, e, h, q, lookup-insert tag u (new_node c) n.tag_node_map)
      ]
    ]

-- A node that is there before the builder's entry is there after it, unchanged.
pub builder_keeps :
    (c : StatConfig) (e : Entry) (context : EntryContext) (r : NodeRef) (s : ResourceNodeStorage)
    (x : StatisticNode)
    → load_node r s ≡ some x
    → load_node r (builder_entry c e context s).storage ≡ some x
unfolding builder_entry with_tag_node get_cluster_node
builder_keeps c e context r s x h = elim (Bool-cases (str_eq context.tag "")) [
  | inl q ↦ ground (arith, q, cluster_keeps c e.resource r s x h)
  | inr q ↦ ground (
    arith,
    q,
    insert_keeps e.resource (get_or_create_tag_node c context.tag n).1 r s' x
        (λ m g.
          subst (λ k. Extends k (get_or_create_tag_node c context.tag n).1)
            (ap (λ o. elim o [ none ↦ n | some k ↦ k ]) (sym found ∙ g))
            (get_or_create_tag_node-Extends c context.tag n))
        (cluster_keeps c e.resource r s x h),
  )
]
  where
    n : ClusterNode
    n = (get_or_create_cluster_node c e.resource s).0

    s' : ResourceNodeStorage
    s' = (get_or_create_cluster_node c e.resource s).1

    found : lookup e.resource s'.node_map ≡ some n
    found = (get_or_create_cluster_node_lem c e.resource e.resource s).0
