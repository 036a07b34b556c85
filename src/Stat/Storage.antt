-- ===== src/Stat/Storage.antt =====
-- sentinel-core/statistic/node/cluster_node.h, cluster_node.cc, resource_node_storage.h and
-- resource_node_storage.cc: the nodes of the resources, of their tags, and of all inbound traffic.
-- Nodes are shared by pointers and are never removed: a pointer is the place of its node.
pub mod Laws
mod Tests
use sentinel_cpp.Prelude.{
  lt_int64, ℕ, ◌<◌, ltb, if◌then◌else◌, Bool, true, false, Option, none, some, List, [], ◌∷◌, map,
  length, String, str_eq, lookup, insert,
}
use sentinel_cpp.Stat.Config.{StatConfig}
use sentinel_cpp.Stat.Bucket.{exception}
use sentinel_cpp.Stat.Node.{add_request, StatisticNode, new_node, reset_node}

-- Constants::kMaxTagSize
abbrev pub max_tag_size : ℕ
max_tag_size = 1000

-- A ClusterNode is a StatisticNode.
pub record ClusterNode : Type 0 where
  pub node : StatisticNode
  pub tag_node_map : List (String × StatisticNode)

pub record ResourceNodeStorage : Type 0 where
  pub node_map : List (String × ClusterNode)
  pub entry_node : ClusterNode

-- A `NodeSharedPtr` that is not null.
pub data NodeRef : Type 0 where
  entry_node_ref : NodeRef
  cluster_node_ref : String → NodeRef
  tag_node_ref : String → String → NodeRef

-- The configuration is that of the moment at which the node is made.
abbrev pub new_cluster_node : StatConfig → ClusterNode
new_cluster_node c = record { node = new_node c; tag_node_map = [] }

-- ClusterNode::TraceException; the count is the pattern of its value.
unfoldable pub trace_exception : ℕ → ℕ → ClusterNode → ClusterNode
trace_exception count now n =
    if lt_int64 0 count then record n { node = add_request exception count now n.node } else n

-- ResourceNodeStorage's constructor.
abbrev pub new_storage : StatConfig → ResourceNodeStorage
new_storage c = record { node_map = []; entry_node = new_cluster_node c }

-- ClusterNode::GetTagNode
unfoldable pub get_tag_node : ClusterNode → String → Option StatisticNode
get_tag_node n tag = lookup tag n.tag_node_map

-- ClusterNode::GetOrCreateTagNode: whether there is a node for the tag afterwards.
unfoldable pub get_or_create_tag_node : StatConfig → String → ClusterNode → Bool × ClusterNode
unfolding get_tag_node
get_or_create_tag_node c tag n = elim (get_tag_node n tag) [
  | some t ↦ (true, n)
  | none ↦
      if ltb max_tag_size (length n.tag_node_map)
      then (false, n)
      else (true, record n { tag_node_map = insert tag (new_node c) n.tag_node_map })
]

unfoldable pub get_cluster_node : String → ResourceNodeStorage → Option ClusterNode
get_cluster_node name s = lookup name s.node_map

-- ResourceNodeStorage::GetOrCreateClusterNode: past kMaxResourceSize it only warns.
unfoldable pub get_or_create_cluster_node :
    StatConfig → String → ResourceNodeStorage → ClusterNode × ResourceNodeStorage
unfolding get_cluster_node
get_or_create_cluster_node c name s = elim (get_cluster_node name s) [
  | some n ↦ (n, s)
  | none ↦ (new_cluster_node c, record s { node_map = insert name (new_cluster_node c) s.node_map })
]

-- ResourceNodeStorage::ResetClusterNodes: neither the tags' nodes nor the entry node are reset.
unfoldable pub reset_cluster_nodes : StatConfig → ResourceNodeStorage → ResourceNodeStorage
reset_cluster_nodes c s = record s {
  node_map = map (λ e. (e.0, record (e.1) { node = reset_node c e.1.node })) s.node_map;
}

-- What a pointer to a node reads.
unfoldable pub load_node : NodeRef → ResourceNodeStorage → Option StatisticNode
load_node entry_node_ref s = some s.entry_node.node
load_node (cluster_node_ref name) s = elim (lookup name s.node_map) [
  | none ↦ none
  | some n ↦ some n.node
]
load_node (tag_node_ref name tag) s = elim (lookup name s.node_map) [
  | none ↦ none
  | some n ↦ lookup tag n.tag_node_map
]

-- A call of a method that writes, through a pointer.
unfoldable pub modify_node :
    (StatisticNode → StatisticNode) → NodeRef → ResourceNodeStorage → ResourceNodeStorage
modify_node f entry_node_ref s = record s {
  entry_node = record (s.entry_node) { node = f s.entry_node.node };
}
modify_node f (cluster_node_ref name) s = elim (lookup name s.node_map) [
  | none ↦ s
  | some n ↦ record s { node_map = insert name (record n { node = f n.node }) s.node_map }
]
modify_node f (tag_node_ref name tag) s = elim (lookup name s.node_map) [
  | none ↦ s
  | some n ↦
      let n' : ClusterNode = elim (lookup tag n.tag_node_map) [
        | none ↦ n
        | some t ↦ record n { tag_node_map = insert tag (f t) n.tag_node_map }
      ] in
      record s { node_map = insert name n' s.node_map }
]

-- A call of a method that returns a value, through a pointer that may be null: `a` if it is.
abbrev pub call_node :
    {A : Type 0}
    → (StatisticNode → A × StatisticNode)
    → A
    → Option NodeRef
    → ResourceNodeStorage
    → A × ResourceNodeStorage
call_node f a none s = (a, s)
call_node f a (some ref) s = elim (load_node ref s) [
  | none ↦ (a, s)
  | some node ↦ ((f node).0, modify_node (λ n. (f n).1) ref s)
]
