-- ===== src/Sph/Tests.antt =====
-- Calls of a shop that is open, and of one that takes no inbound call.
use sentinel_cpp.Prelude.{ℕ, ◌≡◌, refl, arith, true, none, some, [], ◌∷◌, Double, milli}
use sentinel_cpp.Stat.Config.{StatConfig}
use sentinel_cpp.Stat.Node.{new_node}
use sentinel_cpp.Stat.Storage.{
  NodeRef, cluster_node_ref, new_cluster_node, load_node, get_or_create_cluster_node,
}
use sentinel_cpp.Slot.Entry.{Entry, inbound, outbound}
use sentinel_cpp.Slot.Chain.{chain_entry}
use sentinel_cpp.Slot.Statistic.{statistic_entry}
use sentinel_cpp.System.{concurrency, system_slot_entry}
use sentinel_cpp.Flow.Manager.{get_rules_for_resource}
use sentinel_cpp.Flow.Checker.{flow_slot_entry}
use sentinel_cpp.Breaker.Manager.{checker_slot_entry, get_circuit_breakers}
use sentinel_cpp.Param.Slot.{param_slot_entry}
use sentinel_cpp.Log.Block.{log_slot_entry}
use sentinel_cpp.Param.Cache.{Cache}
use sentinel_cpp.Sph.{World, new_entry, sph_u_entry, entry_exit, global_slot_chain}
use sentinel_cpp.Sph.Threads.{threads_in}
use sentinel_cpp.Sph.Calls.{blocked_call_threads, call_balance}

instance abbrev thousandths : Double ℕ
thousandths = milli

-- A cache that holds nothing.
abbrev pub no_cache : Cache Unit
no_cache = record {
  new_cache = λ n. tt;
  find = λ v c. none;
  touch = λ v c. c;
  increase = λ v n c. c;
  clear = λ c. c;
  snapshot_pairs = λ c. [];
}

abbrev pub config : StatConfig
config = record { sample_count = 2; interval_ms = 1000 }

abbrev pub world : World Unit ℕ
world = record {
  entry = new_entry "shop" outbound 0;
  context = record { tag = ""; tag_node = none; last_token_result = none };
  node = none;
  count = 1;
  params = [];
  now = 5000;
  config = config;
  flow = record {
    manager = record { rule_map = []; traffic_controller_map = [] };
    storage = record {
      node_map =
          (
            "shop",
            record (new_cluster_node config) {
              node = record (new_node config) { cur_thread_num = 3 };
            },
          )
          ∷ [];
      entry_node = new_cluster_node config;
    };
    slept = 0;
  };
  system_rules = [];
  load = 0;
  usage = 0;
  param_rules = record { rule_map = []; hot_items = λ i. [] };
  metrics = [];
  breakers = record { rule_map = []; cb_map = []; heap = [] };
  block_log = record { has_logger = true; records = []; written = [] };
}

-- No inbound call may run.
abbrev closed_world : World Unit ℕ
closed_world = record world { system_rules = (concurrency, 0) ∷ [] }

abbrev shop : NodeRef
shop = cluster_node_ref "shop"

there : threads_in shop world ≡ some 3
unfolding load_node
there = refl

refused : (sph_u_entry no_cache true "shop" inbound closed_world).0.entry ≡ none
unfolding sph_u_entry chain_entry global_slot_chain log_slot_entry statistic_entry system_slot_entry
    get_or_create_cluster_node new_node
refused = refl

blocked_call_threads_example :
    threads_in shop (sph_u_entry no_cache true "shop" inbound closed_world).1 ≡ some 3
blocked_call_threads_example =
    blocked_call_threads no_cache "shop" inbound closed_world shop 3 refused there

abbrev visitor : Entry
visitor = record (new_entry "shop" outbound 5000) { cur_node = some shop }

admitted : (sph_u_entry no_cache true "shop" outbound world).0.entry ≡ some visitor
unfolding sph_u_entry chain_entry global_slot_chain log_slot_entry statistic_entry system_slot_entry
    flow_slot_entry get_rules_for_resource param_slot_entry checker_slot_entry get_circuit_breakers
admitted = refl

-- The exit is 40 ms later.
call_balance_example :
    threads_in shop
      (entry_exit no_cache
        (record ((sph_u_entry no_cache true "shop" outbound world).1) { now = 5040 })).1
    ≡ some 3
call_balance_example =
    call_balance no_cache "shop" outbound world
      (record ((sph_u_entry no_cache true "shop" outbound world).1) { now = 5040 }) shop 3 visitor
      admitted there (omega arith) refl refl refl
