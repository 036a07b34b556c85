-- ===== src/Log/Item/RoundTrip.antt =====
-- What is read back from the text of an item.
use sentinel_cpp.Prelude.{ℕ, ◌^◌, ◌<◌, ◌≡◌, refl, arith, some, [], ◌∷◌}
use sentinel_cpp.Log.Format.{Text, Format, IsPlain, IsFormat}
use sentinel_cpp.Log.Item.{
  MetricItem, legal_name, ◌bar◌, counts_text, parse_or_default, to_thin_string, to_fat_string,
  item_of_thin, item_of_fat, from_thin_string, from_fat_string,
}

-- The numbers of an item are those of an `int64_t`.
pub record IsInt64 (item : MetricItem) : Type 0 where
  pub timestamp_lt : item.timestamp < 2 ^ 64
  pub pass_lt : item.pass_qps < 2 ^ 64
  pub block_lt : item.block_qps < 2 ^ 64
  pub complete_lt : item.complete_qps < 2 ^ 64
  pub exception_lt : item.exception_qps < 2 ^ 64
  pub rt_lt : item.rt < 2 ^ 64

legal_name-IsPlain : (s : Text) → IsPlain b'|' (legal_name s)
unfolding legal_name
legal_name-IsPlain [] = tt
legal_name-IsPlain (c ∷ s) = (ground arith, legal_name-IsPlain s)

module _ {f : Format} (law : IsFormat f) where
  parse-print : (n : ℕ) → n < 2 ^ 64 → parse_or_default f (f.print_int n) 0 ≡ n
  unfolding parse_or_default
  parse-print n h = rw (law.atoi_print n h, parse_or_default) refl

  split-bar : (s t : Text) → IsPlain b'|' s → f.str_split b'|' (s bar t) ≡ s ∷ f.str_split b'|' t
  split-bar s t h = law.split_first b'|' s t h

  split-counts_text :
      (item : MetricItem)
      → IsInt64 item
      → f.str_split b'|' (counts_text f item)
        ≡ f.print_int item.pass_qps
          ∷ f.print_int item.block_qps
          ∷ f.print_int item.complete_qps
          ∷ f.print_int item.exception_qps
          ∷ f.print_int item.rt
          ∷ []
  split-counts_text item h =
      rw
        (
          split-bar (f.print_int item.pass_qps) _ (law.print_plain item.pass_qps h.pass_lt),
          split-bar (f.print_int item.block_qps) _ (law.print_plain item.block_qps h.block_lt),
          split-bar (f.print_int item.complete_qps) _
              (law.print_plain item.complete_qps h.complete_lt),
          split-bar (f.print_int item.exception_qps) _
              (law.print_plain item.exception_qps h.exception_lt),
          law.split_last b'|' (f.print_int item.rt) (law.print_plain item.rt h.rt_lt),
        )
        refl

  item_of_thin-parts :
      (item : MetricItem)
      → IsInt64 item
      → item_of_thin f (
          f.print_int item.timestamp
          ∷ legal_name item.resource
          ∷ f.str_split b'|' (counts_text f item))
        ≡ some (record item { resource = legal_name item.resource })
  unfolding item_of_thin
  item_of_thin-parts item h =
      rw
        (
          split-counts_text item h,
          parse-print item.timestamp h.timestamp_lt,
          parse-print item.pass_qps h.pass_lt,
          parse-print item.block_qps h.block_lt,
          parse-print item.complete_qps h.complete_lt,
          parse-print item.exception_qps h.exception_lt,
          parse-print item.rt h.rt_lt,
        )
        refl

  -- With numbers that are read back as they were printed, and a time without a '|': what is read from
  -- the thin or from the fat text of an item of `int64_t` numbers is that item, each '|' in the name
  -- of its resource being a '_'.
  pub item_roundtrip :
      (item : MetricItem)
      → IsInt64 item
      → (from_thin_string f (to_thin_string f item)
          ≡ some (record item { resource = legal_name item.resource }))
        × (from_fat_string f (to_fat_string f item)
            ≡ some (record item { resource = legal_name item.resource }))
  unfolding to_thin_string to_fat_string from_thin_string from_fat_string item_of_fat
  item_roundtrip item h =
      let time = law.print_plain item.timestamp h.timestamp_lt in
      let name = legal_name-IsPlain item.resource in
      (
        rw
            (
              split-bar (f.print_int item.timestamp) _ time,
              split-bar (legal_name item.resource) _ name,
            )
            (item_of_thin-parts item h),
        rw
            (
              split-bar (f.print_int item.timestamp) _ time,
              split-bar (f.format_time item.timestamp) _ (law.time_plain item.timestamp),
              split-bar (legal_name item.resource) _ name,
            )
            (item_of_thin-parts item h),
      )
