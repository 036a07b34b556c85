-- ===== src/Lib.antt =====
-- sentinel-cpp guards the resources of a service: each call enters a resource, a chain of slots
-- decides whether it may pass, and statistics over sliding windows feed the decisions. This
-- library models that core. Paths are from the repository's root.
--
-- Statistics (Stat). Stat/Bucket is MetricBucket (sentinel-core/statistic/base/metric_bucket.*).
-- Stat/Leap is the ring of windows (leap_array.h, window_wrap.h), generic in what a window holds;
-- Stat/Sliding is SlidingWindowMetric over it (sliding_window_metric.*, bucket_leap_array.*),
-- Stat/Config the configuration and its listeners (stat_config*.), Stat/Node a StatisticNode
-- (sentinel-core/statistic/node/statistic_node.*), and Stat/Storage the nodes of resources, tags
-- and all inbound traffic (cluster_node.*, resource_node_storage.*). Pointers to nodes are names
-- in the storage.
--
-- Circuit breakers (Breaker; sentinel-core/circuitbreaker). Breaker/Rule, Breaker/Machine (the
-- base class with its state machine), Breaker/Error and Breaker/ResponseTime (the two kinds),
-- Breaker/CircuitBreaker (their common interface), Breaker/Manager (rule_manager.*, slot.*):
-- breakers lie in a heap, shared between lists.
--
-- Slots (Slot; sentinel-core/slot, sentinel-core/common). Slot/Token, Slot/Entry, Slot/Statistic
-- (statistic_slot.*), Slot/Builder (resource_node_builder_slot.*, entry_result.*, tracer.*) and
-- Slot/Chain (slot/base: the chain, generic in the state of its slots).
--
-- Flow control (Flow; sentinel-core/flow). Flow/Rule, Flow/Throttle and Flow/Shaping (the
-- checkers), Flow/Manager (flow_rule_manager.*) and Flow/Checker (flow_rule_checker.*,
-- flow_slot.*). System (sentinel-core/system) is the limits on all inbound traffic, and
-- System/Status the thread that reads /proc (system_status_listener.*). Property
-- (sentinel-core/property) is a value with listeners.
--
-- An operation is a function of the state it reads to its result and the state it leaves; `now` is
-- the clock, which stands still during one call of a method. Elsewhere than in
-- Breaker/Machine/Interleaving calls are not interleaved inside a method: a compare and exchange
-- fails only where the state is another. Loops are structural recursion; only the loop of
-- FindOffset over an index takes fuel, which is enough for a round for each byte of the index and
-- two more. Integers of w bits are patterns below 2 ^ w, and a signed one is read off its pattern.
-- Doubles are a parameter: a carrier with the operations that the code uses, which the tests take
-- to be thousandths. Unordered containers are lists in the order of insertion.
--
-- Hot parameters (Param; sentinel-core/param). Param/Rule and Param/Manager are the rules,
-- Param/Bucket and Param/Metric the counts of a resource's parameter values, Param/Checker and
-- Param/Slot the check. Param/Cache is the cache of counters (lru_cache.h, scalable_cache.h, code
-- of another project) as operations, with laws for values that it holds or has room for. The maps
-- of hot items that copies of a rule share are reached by pointers. Slot/Statistic calls the
-- metric by the operations that Param/Slot gives as metric_calls.
--
-- Text (Log). Log/Format is what the code takes from absl to print and read numbers and times, as
-- operations with laws; Log/Decimal, Log/Stream and Log/Text are what it takes from the standard
-- library, and Log/Disk is the file system (utils/file_utils.cc) as a store of texts. Log/Names is
-- the names of the metric files; Log/Item is the two text forms of a metric item (metric_item.*),
-- over lists of bytes, Log/Reader the reading of metric files (log/metric/metric_reader.*),
-- Log/Writer their writing with an index (metric_writer.*), Log/Task the thread that collects what
-- all nodes report (metric_log_task.*), Log/Searcher the search by the index (metric_searcher.*),
-- and Log/Block the log of blocked calls (log/block/block_log_task.*, slot/log_slot.*).
--
-- Whole calls (Sph). Sph is the chain of all the slots in the order of slot/global_slot_chain.cc
-- over one state, the World, and SphU::Entry and EntryResult::Exit over it (public/sph_u.h,
-- common/entry_result.cc). Breaker/Machine/Interleaving is the one place where threads interleave
-- inside a method: TryPass and the changes of state of a breaker, one shared access at a time.
--
-- Config (config/local_config.*) is the options of the process.
--
-- Transport (transport/command) is the commands for an operator. Transport holds a command's
-- request and response, Transport/Uri the way from an HTTP request to it (http_command_utils.*),
-- Transport/Handlers the five commands (handler/*), and Transport/Center their registration and
-- the reply (http_command_center.*, http_server_init_target.cc).
--
-- Not modelled: the HTTP server and its event loop, which call libevent; the registration of
-- targets at start; LogBase, which reads the environment; the text forms of rules; and the top
-- values of a hot parameter, which a sort of the standard library orders.
pub mod Prelude
pub mod Stat
pub mod Breaker
pub mod Slot
pub mod Flow
pub mod System
pub mod Property
pub mod Param
pub mod Log
pub mod Sph
pub mod Config
pub mod Transport
