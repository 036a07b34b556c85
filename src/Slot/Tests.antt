-- ===== src/Slot/Tests.antt =====
-- An inbound entry with a tag, and a chain of three slots.
use sentinel_cpp.Prelude.{ℕ, ◌+◌, ◌≡◌, ◌⊎◌, refl, arith, Bool, false, none, some, [], ◌∷◌, str_eq}
use sentinel_cpp.Stat.Config.{default_config}
use sentinel_cpp.Stat.Node.{new_node}
use sentinel_cpp.Stat.Storage.{
  NodeRef, ResourceNodeStorage, cluster_node_ref, tag_node_ref, new_storage,
  get_or_create_cluster_node, load_node,
}
use sentinel_cpp.Slot.Token.{TokenResult, ok_result, blocked_result}
use sentinel_cpp.Slot.Entry.{Entry, EntryContext, inbound}
use sentinel_cpp.Slot.Statistic.{ParamMetric, Outcome, statistic_entry, statistic_exit}
use sentinel_cpp.Slot.Statistic.Threads.{threads_of, blocked_leaves_threads, entry_exit_balance}
use sentinel_cpp.Slot.Builder.{Built, builder_entry, result_exit}
use sentinel_cpp.Slot.Builder.Nodes.{IsThere, builder_nodes}
use sentinel_cpp.Slot.Chain.{Slot, rule_checker_slot, stats_slot, run_slots}
use sentinel_cpp.Slot.Chain.Block.{only_stats, block_skips_checkers}

-- Metrics that count the threads of all resources together.
abbrev one_metric : ParamMetric ℕ
one_metric = record {
  add_pass = λ name count p. p;
  add_thread_count = λ name p. p + 1;
  decrease_thread_count = λ name p. p;
}

abbrev shop : NodeRef
shop = cluster_node_ref "shop"

abbrev storage : ResourceNodeStorage
storage = (get_or_create_cluster_node default_config "shop" (new_storage default_config)).1

abbrev visit : Entry
visit = record {
  resource = "shop";
  entry_type = inbound;
  create_time = 1000;
  exited = false;
  rt = 18_446_744_073_709_551_615;
  error = "";
  block_error = "";
  cur_node = some shop;
}

abbrev told : TokenResult → EntryContext
told r = record { tag = ""; tag_node = none; last_token_result = some r }

abbrev refused : Outcome ℕ
refused =
    statistic_entry one_metric visit (told (blocked_result "FlowException")) (some shop) 1 1000
      storage 0

blocked_leaves_threads_example :
    (refused.result ≡ blocked_result "FlowException")
    × (threads_of shop refused.storage ≡ threads_of shop storage)
    × ((now' : ℕ) (s' : ResourceNodeStorage) (p' : ℕ)
        → statistic_exit one_metric refused.entry
            (told (blocked_result "FlowException"))
            1
            now'
            s'
            p'
          ≡ (refused.entry, s', p'))
blocked_leaves_threads_example =
    blocked_leaves_threads one_metric visit (told (blocked_result "FlowException")) (some shop) 1
      1000 storage 0 (blocked_result "FlowException") "FlowException" shop refl refl refl refl

abbrev admitted : Outcome ℕ
admitted = statistic_entry one_metric visit (told ok_result) (some shop) 1 1000 storage 0

entry_exit_balance_example :
    threads_of shop
      (statistic_exit one_metric visit (told ok_result) 1 1020 admitted.storage admitted.params).1
    ≡ some 0
unfolding load_node get_or_create_cluster_node new_node
entry_exit_balance_example =
    entry_exit_balance one_metric visit (told ok_result) shop shop 1 1000 1 1020 0 storage
      admitted.storage 0 admitted.params ok_result refl refl refl refl empty_node (omega arith) refl
  where
    empty_node : threads_of shop storage ≡ some 0
    empty_node = refl

-- The state is the last result that a statistic slot was told.
abbrev checks : Slot TokenResult
checks = record { slot_type = rule_checker_slot; entry = λ s. (ok_result, s); exit = λ s. s }

abbrev counts : Slot TokenResult
counts = record { slot_type = stats_slot; entry = λ s. (s, s); exit = λ s. s }

block_skips_checkers_example :
    ((run_slots (λ t s. t) (checks ∷ counts ∷ []) (blocked_result "SystemException") ok_result).0
      ≡ blocked_result "SystemException")
    × (run_slots (λ t s. t) (checks ∷ counts ∷ []) (blocked_result "SystemException") ok_result
        ≡ run_slots
            (λ t s. t)
            (only_stats (checks ∷ counts ∷ []))
            (blocked_result "SystemException")
            ok_result)
block_skips_checkers_example =
    block_skips_checkers (λ t s. t) (checks ∷ counts ∷ []) (blocked_result "SystemException")
      ok_result ((λ t s e b. absurd (apart e)), ((λ t s e b. refl), tt)) refl
  where
    apart : rule_checker_slot ≡ stats_slot → ⊥
    apart e = cc

abbrev from_web : EntryContext
from_web = record { tag = "web"; tag_node = none; last_token_result = none }

abbrev built : Built
built = builder_entry default_config visit from_web (new_storage default_config)

builder_nodes_example :
    (built.node ≡ some shop)
    × (built.entry.cur_node ≡ some shop)
    × IsThere shop built.storage
    × (str_eq "web" "" ≡ false
        → (built.context.tag_node ≡ none)
          ⊎ ((built.context.tag_node ≡ some (tag_node_ref "shop" "web"))
              × IsThere (tag_node_ref "shop" "web") built.storage))
builder_nodes_example = builder_nodes default_config visit from_web (new_storage default_config)

-- The chain's exit counts itself.
abbrev counted_exit : Entry × ℕ → Entry × ℕ
counted_exit (e, n) = (e, n + 1)

abbrev once : Bool × Entry × ℕ
once = result_exit counted_exit (visit, 0)

exits_once : result_exit counted_exit (once.1, once.2) ≡ (false, once.1, once.2)
unfolding result_exit
exits_once = refl
