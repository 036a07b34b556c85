-- ===== src/Slot/Statistic/Pointers.antt =====
-- Which nodes the pointers of the statistic slot lead to.
use sentinel_cpp.Prelude.{
  ◌≡◌, refl, arith, if◌then◌else◌, Bool, true, false, ◌&&◌, Option, none, some, String, str_eq,
  eq_iff, lookup, insert, lookup-insert, inl, inr, Option-cases,
}
use sentinel_cpp.Stat.Node.{StatisticNode}
use sentinel_cpp.Stat.Storage.{
  ResourceNodeStorage, NodeRef, ClusterNode, entry_node_ref, cluster_node_ref, tag_node_ref,
  modify_node, load_node,
}

abbrev pub same_ref : NodeRef → NodeRef → Bool
same_ref entry_node_ref entry_node_ref = true
same_ref (cluster_node_ref a) (cluster_node_ref b) = str_eq a b
same_ref (tag_node_ref a t) (tag_node_ref b u) = str_eq a b && str_eq t u
same_ref _ _ = false

abbrev pub map_node : (StatisticNode → StatisticNode) → Option StatisticNode → Option StatisticNode
map_node f none = none
map_node f (some n) = some (f n)

abbrev with_tag : ClusterNode → String → StatisticNode → ClusterNode
with_tag n t x = record n { tag_node_map = insert t x n.tag_node_map }

-- A write through one pointer is read through the pointers to the same node, and no others.
pub load_node-modify_node :
    (f : StatisticNode → StatisticNode) (q r : NodeRef) (s : ResourceNodeStorage)
    → load_node r (modify_node f q s)
      ≡ (if same_ref q r then map_node f (load_node r s) else load_node r s)
unfolding load_node modify_node
load_node-modify_node f entry_node_ref entry_node_ref s = refl
load_node-modify_node f entry_node_ref (cluster_node_ref b) s = refl
load_node-modify_node f entry_node_ref (tag_node_ref b u) s = refl
load_node-modify_node f (cluster_node_ref a) entry_node_ref s = ground arith
load_node-modify_node f (cluster_node_ref a) (cluster_node_ref b) s =
    elim (Option-cases (lookup a s.node_map)) [
      | inl e ↦ ground (arith, e, eq_iff a b)
      | inr (n, e) ↦
          ground (arith, e, eq_iff a b, lookup-insert a b (record n { node = f n.node }) s.node_map)
    ]
load_node-modify_node f (cluster_node_ref a) (tag_node_ref b u) s =
    elim (Option-cases (lookup a s.node_map)) [
      | inl e ↦ ground (arith, e, eq_iff a b)
      | inr (n, e) ↦
          ground (arith, e, eq_iff a b, lookup-insert a b (record n { node = f n.node }) s.node_map)
    ]
load_node-modify_node f (tag_node_ref a t) entry_node_ref s = ground arith
load_node-modify_node f (tag_node_ref a t) (cluster_node_ref b) s =
    elim (Option-cases (lookup a s.node_map)) [
      | inl e ↦ ground (arith, e, eq_iff a b)
      | inr (n, e) ↦ elim (Option-cases (lookup t n.tag_node_map)) [
        | inl g ↦ ground (arith, e, g, eq_iff a b, lookup-insert a b n s.node_map)
        | inr (x, g) ↦
            ground (arith, e, g, eq_iff a b, lookup-insert a b (with_tag n t (f x)) s.node_map)
      ]
    ]
load_node-modify_node f (tag_node_ref a t) (tag_node_ref b u) s =
    elim (Option-cases (lookup a s.node_map)) [
      | inl e ↦ ground (arith, e, eq_iff a b)
      | inr (n, e) ↦ elim (Option-cases (lookup t n.tag_node_map)) [
        | inl g ↦ ground (arith, e, g, eq_iff a b, eq_iff t u, lookup-insert a b n s.node_map)
        | inr (x, g) ↦ ground (
          arith,
          e,
          g,
          eq_iff a b,
          eq_iff t u,
          lookup-insert a b (with_tag n t (f x)) s.node_map,
          lookup-insert t u (f x) n.tag_node_map,
        )
      ]
    ]
