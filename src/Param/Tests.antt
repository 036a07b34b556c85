-- ===== src/Param/Tests.antt =====
-- A shop with a limit of two threads for each customer, over a cache of limited size.
use sentinel_cpp.Prelude.{
  ◌+◌, ◌∙◌, sym, ap, ltb, lt_int64, Bool, true, ◌||◌, ◌&&◌, Option, ℕ, ◌≡◌, refl, arith,
  if◌then◌else◌, false, none, some, List, [], ◌∷◌, add_int, sext32, Double, milli, Bool-cases, inl,
  inr,
}
use sentinel_cpp.Param.Value.{AnyValue, int32_value, string_value, any_eq}
use sentinel_cpp.Param.Cache.{Cache, counter, holds, IsLimited}
use sentinel_cpp.Param.Rule.{
  ParamFlowRule, ParamFlowMetricType, ParamItemType, HotItems, find_item, is_valid_rule,
  fill_exception_flow_items, new_param_flow_rule, set_param_idx, set_cache_size, set_sample_count,
  set_interval_in_ms,
}
use sentinel_cpp.Param.Manager.{ParamFlowRuleManager, config_update, get_rule_of_resource}
use sentinel_cpp.Param.Manager.Load.{
  valid_rules_of, joined, or_else, first_threshold, items_for, update_loads_valid_params,
}
use sentinel_cpp.Param.Metric.{
  ParamMetric, find_cache, new_param_metric, initialize_for_rule, add_thread_count,
  decrease_thread_count, get_thread_count,
}
use sentinel_cpp.Param.Metric.Threads.{thread_counts_restored}
use sentinel_cpp.Param.Checker.{pass_check, threshold_for}
use sentinel_cpp.Param.Slot.{MetricMap}
use sentinel_cpp.Param.Slot.Rules.{passed_call_within}

instance abbrev thousandths : Double ℕ
thousandths = milli

pub record Counters : Type 0 where
  pub capacity : ℕ
  pub used : ℕ
  pub counts : AnyValue → Option ℕ

abbrev count_of : Option ℕ → ℕ
count_of none = 0
count_of (some n) = n

abbrev is_counted : Option ℕ → Bool
is_counted none = false
is_counted (some n) = true

-- What is stored, as an `int`.
abbrev int_of : Option ℕ → Option ℕ
int_of none = none
int_of (some n) = some (sext32 n)

abbrev is_held : AnyValue → Counters → Bool
is_held v c = is_counted (c.counts v)

abbrev added : AnyValue → ℕ → (AnyValue → Option ℕ) → AnyValue → Option ℕ
added w n f v = if any_eq w v then some (add_int (count_of (f v)) n) else f v

-- A new value for which there is no room drops all others.
abbrev increased : AnyValue → ℕ → Counters → Counters
increased w n c =
    if is_held w c
    then record c { counts = added w n c.counts }
    else if ltb c.used c.capacity
    then record c { used = c.used + 1; counts = added w n c.counts }
    else record c { used = 1; counts = added w n (λ v. none) }

abbrev counters : Cache Counters
counters = record {
  new_cache = λ n. record { capacity = n; used = 0; counts = λ v. none };
  find = λ v c. int_of (c.counts v);
  touch = λ v c. c;
  increase = increased;
  clear = λ c. record c { used = 0; counts = λ v. none };
  snapshot_pairs = λ c. [];
}

sext32-add_int : (a n : ℕ) → sext32 (add_int a n) ≡ add_int (sext32 a) n
sext32-add_int a n = ground arith

sext32_twice : (a : ℕ) → sext32 (sext32 a) ≡ sext32 a
sext32_twice a = ground arith

counter-counts :
    (v : AnyValue) (c : Counters) → counter counters v c ≡ sext32 (count_of (c.counts v))
counter-counts v c = by_count (c.counts v)
  where
    by_count : (o : Option ℕ) → elim (int_of o) [ none ↦ 0 | some n ↦ n ] ≡ sext32 (count_of o)
    by_count none = refl
    by_count (some n) = refl

holds-is_held : (v : AnyValue) (c : Counters) → holds counters v c ≡ is_held v c
holds-is_held v c = by_count (c.counts v)
  where
    by_count : (o : Option ℕ) → elim (int_of o) [ none ↦ false | some n ↦ true ] ≡ is_counted o
    by_count none = refl
    by_count (some n) = refl

abbrev room : AnyValue → Counters → Bool
room w c = any_eq w w && ltb c.used c.capacity

-- What `increase` leaves for a value that is held or has room.
counts-increased :
    (w v : AnyValue) (n : ℕ) (c : Counters)
    → (is_held w c || room w c) ≡ true
    → (increased w n c).counts v ≡ added w n c.counts v
counts-increased w v n c h = elim (Bool-cases (is_held w c)) [
  | inl e ↦ rw e refl
  | inr e ↦ elim (Bool-cases (ltb c.used c.capacity)) [
    | inl l ↦ rw (e, l) refl
    | inr l ↦ absurd (ground (arith, e, l, h))
  ]
]

counter-increased :
    (w v : AnyValue) (n : ℕ) (c : Counters)
    → (is_held w c || room w c) ≡ true
    → counter counters v (increased w n c)
      ≡ (if any_eq w v then add_int (counter counters v c) n else counter counters v c)
counter-increased w v n c h =
    counter-counts v (increased w n c)
    ∙ ap (λ o. sext32 (count_of o)) (counts-increased w v n c h)
    ∙ rw (counter-counts v c) (by_equality (any_eq w v))
  where
    by_equality :
        (b : Bool)
        → sext32 (count_of (if b then some (add_int (count_of (c.counts v)) n) else c.counts v)) ≡ (
            if b
            then add_int (sext32 (count_of (c.counts v))) n
            else sext32 (count_of (c.counts v)))
    by_equality true = sext32-add_int (count_of (c.counts v)) n
    by_equality false = refl

is_held-increased :
    (w : AnyValue) (n : ℕ) (c : Counters)
    → (is_held w c || room w c) ≡ true
    → is_held w (increased w n c) ≡ true
is_held-increased w n c h =
    ap is_counted (counts-increased w w n c h)
    ∙ (elim (Bool-cases (any_eq w w)) [ inl e ↦ rw e refl | inr e ↦ rw e (ground (arith, e, h)) ])

counters-IsLimited : IsLimited counters
counters-IsLimited = record {
  has_room = room;
  counter_touch = λ w v c. refl;
  counter_int = λ v c. rw (counter-counts v c) (sext32_twice (count_of (c.counts v)));
  counter_increase = λ w v n c h.
      counter-increased w v n c (ap (λ b. b || room w c) (sym (holds-is_held w c)) ∙ h);
  holds_increased = λ w n c h.
      holds-is_held w (increased w n c)
      ∙ is_held-increased w n c (ap (λ b. b || room w c) (sym (holds-is_held w c)) ∙ h);
}

abbrev shop_rule : ParamFlowRule ℕ
shop_rule = record (set_param_idx 0 (new_param_flow_rule "shop" 0)) {
  metric_type = ParamFlowMetricType.thread_count;
  threshold = 2000;
  specific_item_list =
      record {
        param_type = ParamItemType.string_type;
        param_value = string_value "vip";
        threshold = 9000;
      }
      ∷ [];
}

-- A rule with the size of caches that it is made with is valid, and its key has the size 0.
default_size : (is_valid_rule shop_rule ≡ true) × (shop_rule.metric_key.cache_size ≡ 0)
unfolding is_valid_rule
default_size = (refl, refl)

abbrev rule : ParamFlowRule ℕ
rule = set_cache_size 200 shop_rule

abbrev call : List AnyValue
call = string_value "ann" ∷ int32_value 7 ∷ []

-- One thread of the customer is in the shop.
abbrev visited : ParamMetric Counters
visited =
    add_thread_count counters call (initialize_for_rule counters rule.metric_key new_param_metric)

visited_once : (get_thread_count counters 0 (string_value "ann") visited).0 ≡ 1
unfolding add_thread_count get_thread_count initialize_for_rule
visited_once = refl

thread_counts_restored_example :
    (get_thread_count counters 0
      (string_value "ann")
      (decrease_thread_count counters call (add_thread_count counters call visited))).0
    ≡ (get_thread_count counters 0 (string_value "ann") visited).0
unfolding add_thread_count initialize_for_rule
thread_counts_restored_example =
    thread_counts_restored counters counters-IsLimited 0 (string_value "ann") call visited refl

-- No map has an item yet.
abbrev manager : ParamFlowRuleManager ℕ
manager = record { rule_map = []; hot_items = λ i. [] }

-- The second rule has no window, and the last shares its items with the first.
abbrev rules : List (ParamFlowRule ℕ)
rules = rule ∷ set_sample_count 0 rule ∷ set_interval_in_ms 500 rule ∷ []

update_loads_valid_params_example :
    (get_rule_of_resource "shop" (config_update rules manager)
      ≡ joined none (valid_rules_of "shop" rules))
    × (find_item (string_value "vip") ((config_update rules manager).hot_items 0)
        ≡ or_else
            (find_item (string_value "vip") (manager.hot_items 0))
            (first_threshold (string_value "vip") (items_for 0 rules)))
update_loads_valid_params_example =
    update_loads_valid_params "shop" (string_value "vip") 0 rules manager

-- What the pointers lead to after the update.
abbrev hot : HotItems ℕ
hot = (config_update rules manager).hot_items

abbrev checked : ParamMetric Counters
checked = (pass_check counters hot rule 1 call 5000 visited).1

-- The counters of the first parameter.
abbrev kept : Counters
kept = elim (find_cache 0 checked.thread_count_map) [ none ↦ counters.new_cache 0 | some c ↦ c ]

-- A second thread of the customer passes.
passed_call_within_example :
    lt_int64
      (threshold_for counters hot rule (string_value "ann"))
      (get_thread_count counters 0
        (string_value "ann")
        (add_thread_count counters call (pass_check counters hot rule 1 call 5000 visited).1)).0
    ≡ false
unfolding pass_check add_thread_count get_thread_count initialize_for_rule config_update
    is_valid_rule fill_exception_flow_items
passed_call_within_example =
    passed_call_within counters hot counters-IsLimited rule 1 call 5000 (string_value "ann") visited
      kept refl refl refl refl refl refl

abbrev metrics : MetricMap Counters
metrics = ("cafe", visited) ∷ []
