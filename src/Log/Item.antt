-- ===== src/Log/Item.antt =====
-- sentinel-core/statistic/base/metric_item.h and .cc: an item with the name of its resource, and its
-- two text forms.
pub mod RoundTrip
use sentinel_cpp.Prelude.{ℕ, ◌==◌, if◌then◌else◌, Option, none, some, List, [], ◌∷◌, ◌++◌, map}
use sentinel_cpp.Log.Format.{Text, Format}

pub record MetricItem : Type 0 where
  pub resource : Text
  pub timestamp : ℕ
  pub pass_qps : ℕ
  pub block_qps : ℕ
  pub complete_qps : ℕ
  pub exception_qps : ℕ
  pub rt : ℕ

-- `std::replace` of '|' by '_'.
unfoldable pub legal_name : Text → Text
legal_name resource = map (λ c. if c == b'|' then b'_' else c) resource

-- A text that a '|' follows, and another.
infixr 45 ◌bar◌
abbrev pub ◌bar◌ : Text → Text → Text
s bar t = s ++ b'|' ∷ t

module _ (f : Format) where
  unfoldable pub parse_or_default : Text → ℕ → ℕ
  parse_or_default s default_value = elim (f.simple_atoi s) [ none ↦ default_value | some x ↦ x ]

  -- What both forms end with.
  abbrev pub counts_text : MetricItem → Text
  counts_text item =
      f.print_int item.pass_qps
      bar f.print_int item.block_qps
      bar f.print_int item.complete_qps
      bar f.print_int item.exception_qps
      bar f.print_int item.rt

  unfoldable pub to_thin_string : MetricItem → Text
  unfolding legal_name
  to_thin_string item = f.print_int item.timestamp bar legal_name item.resource bar counts_text item

  unfoldable pub to_fat_string : MetricItem → Text
  unfolding legal_name
  to_fat_string item =
      f.print_int item.timestamp
      bar f.format_time item.timestamp
      bar legal_name item.resource
      bar counts_text item

  -- The fields from the parts of a text; further parts are ignored.
  unfoldable pub item_of_thin : List Text → Option MetricItem
  unfolding parse_or_default
  item_of_thin (time ∷ name ∷ passed ∷ blocked ∷ completed ∷ failed ∷ mean ∷ parts) = some record {
    timestamp = parse_or_default time 0;
    resource = name;
    pass_qps = parse_or_default passed 0;
    block_qps = parse_or_default blocked 0;
    complete_qps = parse_or_default completed 0;
    exception_qps = parse_or_default failed 0;
    rt = parse_or_default mean 0;
  }
  item_of_thin _ = none

  -- The second part is the time again.
  unfoldable pub item_of_fat : List Text → Option MetricItem
  unfolding item_of_thin
  item_of_fat (time ∷ date ∷ name ∷ parts) = item_of_thin (time ∷ name ∷ parts)
  item_of_fat _ = none

  unfoldable pub from_thin_string : Text → Option MetricItem
  unfolding item_of_thin
  from_thin_string s = item_of_thin (f.str_split b'|' s)

  unfoldable pub from_fat_string : Text → Option MetricItem
  unfolding item_of_fat
  from_fat_string s = item_of_fat (f.str_split b'|' s)
