-- ===== src/Log/Reader/Sorted.antt =====
-- The reading of lines that are items, in the order of their seconds.
use mathlib.Core.List.{append_assoc, append-nil}
use sentinel_cpp.Prelude.{
  ℕ, ◌<◌, ◌≡◌, refl, ap, sym, ◌∙◌, arith, if◌then◌else◌, leb, Bool, true, false, not, ◌&&◌, ◌||◌,
  some, List, [], ◌∷◌, ◌++◌, map, length, length-append, lt_int64, Bool-cases, inl, inr, All,
}
use sentinel_cpp.Log.Format.{Text, Format, IsFormat}
use sentinel_cpp.Log.Text.{text_eq}
use sentinel_cpp.Log.Item.{MetricItem, legal_name, to_fat_string}
use sentinel_cpp.Log.Item.RoundTrip.{IsInt64, item_roundtrip}
use sentinel_cpp.Log.Reader.{max_lines_return, second_of, read_lines_by_end_time}

-- An item as it is read back.
abbrev pub read_back : MetricItem → MetricItem
read_back item = record item { resource = legal_name item.resource }

-- Whether an item is of the seconds from b to e, and of the resource, if one is named.
abbrev pub is_wanted : ℕ → ℕ → Text → MetricItem → Bool
is_wanted b e identity item =
    not (lt_int64 (second_of item) b)
    && not (lt_int64 e (second_of item))
    && (text_eq identity [] || text_eq (legal_name item.resource) identity)

-- The items that are wanted, as they are read back.
abbrev pub wanted : ℕ → ℕ → Text → List MetricItem → List MetricItem
wanted b e identity [] = []
wanted b e identity (item ∷ items) =
    let rest = wanted b e identity items in
    if is_wanted b e identity item then read_back item ∷ rest else rest

-- No item is before the one in front of it, nor before the second.
abbrev pub SortedFrom : ℕ → List MetricItem → Type 0
SortedFrom second [] = Unit {0}
SortedFrom second (item ∷ items) =
    (lt_int64 (second_of item) second ≡ false) × SortedFrom (second_of item) items

lt_int64_le : (a b c : ℕ) → lt_int64 a b ≡ true → lt_int64 c b ≡ false → lt_int64 a c ≡ true
lt_int64_le a b c h k = ground (arith, h, k)

pub le_int64_trans :
    (a b c : ℕ) → lt_int64 b a ≡ false → lt_int64 c b ≡ false → lt_int64 c a ≡ false
le_int64_trans a b c h k = ground (arith, h, k)

-- Behind the end nothing is wanted.
wanted-past :
    (b e second : ℕ) (identity : Text) (items : List MetricItem)
    → SortedFrom second items
    → lt_int64 e second ≡ true
    → wanted b e identity items ≡ []
wanted-past b e second identity [] s h = refl
wanted-past b e second identity (item ∷ items) s h =
    let past = lt_int64_le e second (second_of item) h s.0 in
    let rest = wanted-past b e (second_of item) identity items s.1 past in
    elim (Bool-cases (lt_int64 (second_of item) b)) [
      | inl q ↦ rw q rest
      | inr q ↦ rw (q, past) rest
    ]

room : (n : ℕ) → n < max_lines_return → leb max_lines_return n ≡ false
room n h = ground (arith, h)

module _ {f : Format} (law : IsFormat f) (b e : ℕ) (identity : Text) where
  -- The loop over such lines adds the items that are wanted, where they are fewer than the limit.
  pub read_sorted :
      (items vec : List MetricItem) (second : ℕ)
      → All IsInt64 items
      → SortedFrom second items
      → lt_int64 second b ≡ false
      → length (vec ++ wanted b e identity items) < max_lines_return
      → (more : Bool) × (read_lines_by_end_time f b e identity (map (to_fat_string f) items) vec
          ≡ some (more, vec ++ wanted b e identity items))
  unfolding read_lines_by_end_time
  read_sorted [] vec second int s k limit = (true, ap (λ v. some (true, v)) (sym (append-nil vec)))
  read_sorted (item ∷ items) vec second int s k limit =
      let read = (item_roundtrip law item int.0).1 in
      let not_before = le_int64_trans b second (second_of item) k s.0 in
      elim (Bool-cases (lt_int64 e (second_of item))) [
        | inl past ↦ (
          false,
          rw (read, read_lines_by_end_time, not_before, past)
              (ap (λ v. some (false, v))
                (sym (
                  ap (λ w. vec ++ w) (wanted-past b e (second_of item) identity items s.1 past)
                  ∙ append-nil vec))),
        )
        | inr in_time ↦
            elim (Bool-cases (text_eq identity [] || text_eq (legal_name item.resource) identity)) [
              | inl named ↦
                  let joined = append_assoc vec (read_back item ∷ []) (wanted b e identity items) in
                  let limit' : length (vec ++ read_back item ∷ wanted b e identity items)
                      < max_lines_return =
                    rw (not_before, in_time, named) at limit in
                  let short = room (length (vec ++ read_back item ∷ [])) (
                    omega (
                      arith,
                      limit',
                      length-append vec (read_back item ∷ []),
                      length-append vec (read_back item ∷ wanted b e identity items),
                    )) in
                  rw (read, read_lines_by_end_time, not_before, in_time, named, short)
                    (rw (← joined) (
                      read_sorted items (vec ++ read_back item ∷ []) (second_of item) int.1 s.1
                        not_before (rw joined limit')))
              | inr other ↦
                  let limit' : length (vec ++ wanted b e identity items) < max_lines_return =
                    rw (not_before, in_time, other) at limit in
                  let short =
                    room (length vec)
                      (omega (arith, limit', length-append vec (wanted b e identity items))) in
                  rw (read, read_lines_by_end_time, not_before, in_time, other, short)
                    (read_sorted items vec (second_of item) int.1 s.1 not_before limit')
            ]
      ]
