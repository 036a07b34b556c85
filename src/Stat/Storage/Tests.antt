-- ===== src/Stat/Storage/Tests.antt =====
-- A storage with a node for one resource.
use sentinel_cpp.Prelude.{
  ◌+◌, ◌≤◌, ◌≡◌, ℕ, zero, suc, List, [], ◌∷◌, String, Bool, false, none, length,
}
use Prim.Native.String.{◌++◌ as append}
use sentinel_cpp.Stat.Config.{default_config}
use sentinel_cpp.Stat.Storage.{
  ClusterNode, ResourceNodeStorage, new_storage, new_cluster_node, max_tag_size, get_tag_node,
  get_or_create_tag_node, get_or_create_cluster_node,
}
use sentinel_cpp.Stat.Storage.Laws.{create_tags, tag_nodes_bounded}

abbrev shop : ClusterNode × ResourceNodeStorage
shop = get_or_create_cluster_node default_config "shop" (new_storage default_config)

abbrev with_web : Bool × ClusterNode
with_web = get_or_create_tag_node default_config "web" (new_cluster_node default_config)

-- A tag for each number of letters.
abbrev tags_up_to : ℕ → List String
tags_up_to zero = []
tags_up_to (suc n) = letters n ∷ tags_up_to n
  where
    letters : ℕ → String
    letters zero = ""
    letters (suc k) = append "a" (letters k)

-- Two tags more than there is room for.
tag_nodes_bounded_example :
    (length
        (create_tags default_config
          (tags_up_to 1003)
          (new_cluster_node default_config)).tag_node_map
      ≤ max_tag_size + 1)
    × ((get_or_create_tag_node default_config "web"
            (create_tags default_config (tags_up_to 1003) (new_cluster_node default_config))).0
          ≡ false
        → (length
              (create_tags default_config
                (tags_up_to 1003)
                (new_cluster_node default_config)).tag_node_map
            ≡ max_tag_size + 1)
          × (get_tag_node
                (create_tags default_config (tags_up_to 1003) (new_cluster_node default_config))
                "web"
              ≡ none))
tag_nodes_bounded_example = tag_nodes_bounded default_config (tags_up_to 1003) "web"
