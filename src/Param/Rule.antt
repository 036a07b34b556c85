-- ===== src/Param/Rule.antt =====
-- sentinel-core/param: param_flow_rule_constants.h, param_flow_item.h and .cc, param_flow_rule.h and
-- .cc, statistic/param_leap_array_key.h, and IsValidRule of param_flow_rule_manager.cc. An `int32_t`
-- is the 64-bit pattern of its value.
use sentinel_cpp.Prelude.{
  ℕ, ◌-◌, ◌^◌, ◌==◌, if◌then◌else◌, Bool, true, false, not, ◌&&◌, Option, none, some, List, [], ◌∷◌,
  String, str_eq, lt_int64, is_nonpos_int64, Double,
}
use sentinel_cpp.Param.Value.{AnyValue, any_eq, has_value}

-- The last one is the number of the others.
pub data ParamFlowMetricType : Type 0 where
  thread_count qps num : ParamFlowMetricType

pub data ParamItemType : Type 0 where
  string_type int32_type int64_type num_type : ParamItemType

pub record ParamFlowItem (D : Type 0) : Type 0 where
  pub param_type : ParamItemType
  pub param_value : AnyValue
  pub threshold : D

-- ParamLeapArrayKey
pub record ParamLeapArrayKey : Type 0 where
  pub param_idx : ℕ
  pub interval_in_ms : ℕ
  pub sample_count : ℕ
  pub cache_size : ℕ

-- The rule's own numbers and those of its key are apart: a setter gives both a value, but the key's
-- `cache_size` starts at 0 and the rule's at 200. Copies of a rule have the same key, which is
-- taken not to change once there are copies, and the same map of hot items, to which
-- `parsed_hot_items` is the pointer.
pub record ParamFlowRule (D : Type 0) : Type 0 where
  pub resource : String
  pub param_idx : ℕ
  pub metric_type : ParamFlowMetricType
  pub threshold : D
  pub interval_in_ms : ℕ
  pub sample_count : ℕ
  pub cache_size : ℕ
  pub specific_item_list : List (ParamFlowItem D)
  pub cluster_mode : Bool
  pub metric_key : ParamLeapArrayKey
  pub parsed_hot_items : ℕ

-- What the pointers to maps of hot items lead to.
abbrev pub HotItems : Type 0 → Type 0
HotItems D = ℕ → List (AnyValue × D)

-- ParamLeapArrayKey's constructor, as `std::make_shared` calls it: `cache_size_` has no value of its
-- own, and is 0.
abbrev pub new_param_leap_array_key : ParamLeapArrayKey
new_param_leap_array_key = record {
  param_idx = 2 ^ 64 - 1;
  interval_in_ms = 1000;
  sample_count = 1;
  cache_size = 0;
}

-- ParamLeapArrayKeyPtrHashEq::equal, of keys that are not null.
abbrev pub key_eq : ParamLeapArrayKey → ParamLeapArrayKey → Bool
key_eq a b =
    a.interval_in_ms == b.interval_in_ms
    && a.sample_count == b.sample_count
    && a.param_idx == b.param_idx
    && a.cache_size == b.cache_size

abbrev same_metric : ParamFlowMetricType → ParamFlowMetricType → Bool
same_metric thread_count thread_count = true
same_metric qps qps = true
same_metric num num = true
same_metric _ _ = false

abbrev same_item_type : ParamItemType → ParamItemType → Bool
same_item_type string_type string_type = true
same_item_type int32_type int32_type = true
same_item_type int64_type int64_type = true
same_item_type num_type num_type = true
same_item_type _ _ = false

abbrev same_mode : Bool → Bool → Bool
same_mode true b = b
same_mode false b = not b

-- The metric type is below `kNum`.
valid_metric : ParamFlowMetricType → Bool
valid_metric num = false
valid_metric _ = true

module _ {D : Type 0} where
  -- `find` and `insert` of the map of hot items; `insert` keeps what a value has.
  abbrev pub find_item : AnyValue → List (AnyValue × D) → Option D
  find_item v [] = none
  find_item v ((w, t) ∷ items) = if any_eq w v then some t else find_item v items

  unfoldable pub insert_hot_item : AnyValue → D → List (AnyValue × D) → List (AnyValue × D)
  insert_hot_item v t items = elim (find_item v items) [ none ↦ (v, t) ∷ items | some u ↦ items ]

  -- The loop of `FillExceptionFlowItems`.
  unfoldable pub fill_items : List (ParamFlowItem D) → List (AnyValue × D) → List (AnyValue × D)
  unfolding insert_hot_item
  fill_items [] parsed = parsed
  fill_items (item ∷ items) parsed =
      fill_items items (insert_hot_item item.param_value item.threshold parsed)

  -- ParamFlowRule::FillExceptionFlowItems, which writes to the map that the rule points to.
  unfoldable pub fill_exception_flow_items : ParamFlowRule D → HotItems D → HotItems D
  unfolding fill_items
  fill_exception_flow_items rule hot i =
      if i == rule.parsed_hot_items then fill_items rule.specific_item_list (hot i) else hot i

module _ {D : Type 0} ⦃d : Double D⦄ where
  -- ParamFlowItem::operator==
  item_eq : ParamFlowItem D → ParamFlowItem D → Bool
  item_eq a b =
      same_item_type a.param_type b.param_type
      && any_eq a.param_value b.param_value
      && d.eq a.threshold b.threshold

  -- The comparison of the lists, sizes first.
  items_eq : List (ParamFlowItem D) → List (ParamFlowItem D) → Bool
  unfolding item_eq
  items_eq [] [] = true
  items_eq (a ∷ as') (b ∷ bs) = item_eq b a && items_eq as' bs
  items_eq _ _ = false

  -- ParamFlowRule::operator==
  unfoldable pub param_rule_eq : ParamFlowRule D → ParamFlowRule D → Bool
  unfolding items_eq
  param_rule_eq a b =
      str_eq a.resource b.resource
      && a.param_idx == b.param_idx
      && same_metric a.metric_type b.metric_type
      && d.eq a.threshold b.threshold
      && a.interval_in_ms == b.interval_in_ms
      && a.sample_count == b.sample_count
      && a.cache_size == b.cache_size
      && same_mode a.cluster_mode b.cluster_mode
      && items_eq a.specific_item_list b.specific_item_list

  -- The check of the items; a type above `kNum` does not occur.
  valid_items : List (ParamFlowItem D) → Bool
  valid_items [] = true
  valid_items (item ∷ items) =
      let rest = valid_items items in
      if d.lt item.threshold (d.of_int64 0)
      then false
      else if not (has_value item.param_value)
      then false
      else rest

  unfoldable pub is_valid_rule : ParamFlowRule D → Bool
  unfolding valid_items valid_metric
  is_valid_rule rule =
      if not (
        valid_metric rule.metric_type
        && d.le (d.of_int64 0) rule.threshold
        && not (lt_int64 rule.param_idx 0)
        && not (is_nonpos_int64 rule.cache_size)
        && not (is_nonpos_int64 rule.sample_count)
        && not (is_nonpos_int64 rule.interval_in_ms))
      then false
      else valid_items rule.specific_item_list

  -- ParamFlowRule's constructor; the pointer is to the new map, which is empty.
  abbrev pub new_param_flow_rule : String → ℕ → ParamFlowRule D
  new_param_flow_rule resource pointer = record {
    resource = resource;
    param_idx = 2 ^ 64 - 1;
    metric_type = qps;
    threshold = d.of_int64 0;
    interval_in_ms = 1000;
    sample_count = 1;
    cache_size = 200;
    specific_item_list = [];
    cluster_mode = false;
    metric_key = new_param_leap_array_key;
    parsed_hot_items = pointer;
  }

  -- The setters that write to the key too, of a rule that no other has the key of.
  abbrev pub set_param_idx : ℕ → ParamFlowRule D → ParamFlowRule D
  set_param_idx index rule = record rule {
    param_idx = index;
    metric_key = record (rule.metric_key) { param_idx = index };
  }

  abbrev pub set_cache_size : ℕ → ParamFlowRule D → ParamFlowRule D
  set_cache_size size rule = record rule {
    cache_size = size;
    metric_key = record (rule.metric_key) { cache_size = size };
  }

  abbrev pub set_sample_count : ℕ → ParamFlowRule D → ParamFlowRule D
  set_sample_count count rule = record rule {
    sample_count = count;
    metric_key = record (rule.metric_key) { sample_count = count };
  }

  abbrev pub set_interval_in_ms : ℕ → ParamFlowRule D → ParamFlowRule D
  set_interval_in_ms interval rule = record rule {
    interval_in_ms = interval;
    metric_key = record (rule.metric_key) { interval_in_ms = interval };
  }
