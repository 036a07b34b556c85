-- ===== src/Stat/Storage/Laws.antt =====
-- Nodes are found under the names that they were made for, and pointers do not disturb each other.
use sentinel_cpp.Prelude.{
  ◌+◌, ◌≤◌, ◌≡◌, inl, inr, refl, arith, true, false, none, some, List, [], ◌∷◌, length, String,
  eq_iff, lookup, insert, lookup-insert, Option-cases,
}
use sentinel_cpp.Stat.Config.{StatConfig}
use sentinel_cpp.Stat.Node.{StatisticNode, new_node}
use sentinel_cpp.Stat.Storage.{
  ClusterNode, ResourceNodeStorage, max_tag_size, get_tag_node, get_or_create_tag_node,
  get_cluster_node, get_or_create_cluster_node, new_cluster_node,
}

-- `GetOrCreateClusterNode` returns the node that `GetClusterNode` then finds, and leaves every
-- resource that had a node with that node.
pub get_or_create_cluster_node_lem :
    (c : StatConfig) (name other : String) (s : ResourceNodeStorage)
    → let (n, s') = get_or_create_cluster_node c name s in
      (get_cluster_node name s' ≡ some n)
      × ((k : ClusterNode) → get_cluster_node other s ≡ some k → get_cluster_node other s' ≡ some k)
unfolding get_or_create_cluster_node
get_or_create_cluster_node_lem c name other s = elim (Option-cases (lookup name s.node_map)) [
  | inl e ↦
      rw (e, get_or_create_cluster_node)
        (
          ground (arith, lookup-insert name name (new_cluster_node c) s.node_map, eq_iff name name),
          λ k h. ground (
            arith,
            lookup-insert name other (new_cluster_node c) s.node_map,
            eq_iff name other,
            e,
            h,
          ),
        )
  | inr (n, e) ↦ rw (e, get_or_create_cluster_node) (e, λ k h. h)
]

length-insert-le {ℓ} :
    {V : Type ℓ} (name : String) (value : V) (pairs : List (String × V))
    → length (insert name value pairs) ≤ length pairs + 1
length-insert-le name value [] = omega arith
length-insert-le name value (pair ∷ rest) = ground (arith, length-insert-le name value rest)

-- GetOrCreateTagNode for each tag of a list, one after the other.
abbrev pub create_tags : StatConfig → List String → ClusterNode → ClusterNode
create_tags c [] n = n
create_tags c (tag ∷ tags) n = create_tags c tags (get_or_create_tag_node c tag n).1

tag_node_kept_bound :
    (c : StatConfig) (tag : String) (n : ClusterNode)
    → length n.tag_node_map ≤ max_tag_size + 1
    → length (get_or_create_tag_node c tag n).1.tag_node_map ≤ max_tag_size + 1
unfolding get_or_create_tag_node get_tag_node
tag_node_kept_bound c tag n h = elim (Option-cases (lookup tag n.tag_node_map)) [
  | inl e ↦
      rw (e, get_or_create_tag_node)
        (ground (arith, length-insert-le tag (new_node c) n.tag_node_map))
  | inr (t, e) ↦ rw (e, get_or_create_tag_node) h
]

create_tags_bound :
    (c : StatConfig) (tags : List String) (n : ClusterNode)
    → length n.tag_node_map ≤ max_tag_size + 1
    → length (create_tags c tags n).tag_node_map ≤ max_tag_size + 1
create_tags_bound c [] n h = h
create_tags_bound c (tag ∷ tags) n h =
    create_tags_bound c tags (get_or_create_tag_node c tag n).1 (tag_node_kept_bound c tag n h)

tag_node_refused :
    (c : StatConfig) (tag : String) (n : ClusterNode)
    → length n.tag_node_map ≤ max_tag_size + 1
    → (get_or_create_tag_node c tag n).0 ≡ false
    → (length n.tag_node_map ≡ max_tag_size + 1) × (get_tag_node n tag ≡ none)
unfolding get_or_create_tag_node get_tag_node
tag_node_refused c tag n h r = elim (Option-cases (lookup tag n.tag_node_map)) [
  | inl e ↦ (ground (arith, h, r, e), e)
  | inr (t, e) ↦ absurd (ground (arith, r, e))
]

-- Calls of GetOrCreateTagNode on a new node, with any tags, leave it with at most kMaxTagSize + 1
-- tag nodes; a tag that is then refused has none, and finds exactly that many there.
pub tag_nodes_bounded :
    (c : StatConfig) (tags : List String) (tag : String)
    → let n = create_tags c tags (new_cluster_node c) in
      (length n.tag_node_map ≤ max_tag_size + 1)
      × ((get_or_create_tag_node c tag n).0 ≡ false
          → (length n.tag_node_map ≡ max_tag_size + 1) × (get_tag_node n tag ≡ none))
tag_nodes_bounded c tags tag =
    let n = create_tags c tags (new_cluster_node c) in
    let bound = create_tags_bound c tags (new_cluster_node c) (omega arith) in
    (bound, tag_node_refused c tag n bound)

-- Unless the limit is met, the tag has a node afterwards.
pub tag_node_made :
    (c : StatConfig) (tag : String) (n : ClusterNode)
    → length n.tag_node_map ≤ max_tag_size
    → let (made, n') = get_or_create_tag_node c tag n in
      (made ≡ true) × ((t : StatisticNode) × (get_tag_node n' tag ≡ some t))
unfolding get_or_create_tag_node get_tag_node
tag_node_made c tag n h = elim (Option-cases (lookup tag n.tag_node_map)) [
  | inl e ↦
      rw (e, get_or_create_tag_node)
        (
          ground (arith, h),
          (
            new_node c,
            ground (arith, h, lookup-insert tag tag (new_node c) n.tag_node_map, eq_iff tag tag),
          ),
        )
  | inr (t, e) ↦ rw (e, get_or_create_tag_node) (refl, (t, e))
]
