-- ===== src/Log/Searcher/Written.antt =====
-- What a search finds in a file of writes with its index.
use sentinel_cpp.Prelude.{
  ℕ, ◌-◌, ◌^◌, ◌<◌, ◌≡◌, refl, ap, sym, ◌∙◌, arith, if◌then◌else◌, ◌==◌, leb, Bool, true, false,
  Option, none, some, List, [], ◌∷◌, map, length, lt_int64, div_int64, Bool-cases, Option-cases,
  inl, inr, All,
}
use sentinel_cpp.Log.Format.{Text, Format, IsFormat}
use sentinel_cpp.Log.Item.{MetricItem, to_fat_string}
use sentinel_cpp.Log.Item.RoundTrip.{IsInt64}
use sentinel_cpp.Log.Stream.{drop, lines_of_text}
use sentinel_cpp.Log.Disk.{Disk, read_file}
use sentinel_cpp.Log.Names.{form_index_file_name, list_metric_files}
use sentinel_cpp.Log.Reader.{
  max_lines_return, read_lines_by_end_time, read_metrics_by_end_time, read_files_by_end_time,
  read_metrics_in_one_file_by_end_time,
}
use sentinel_cpp.Log.Reader.Sorted.{wanted, read_sorted}
use sentinel_cpp.Log.Writer.{Host}
use sentinel_cpp.Log.Writer.Batches.{
  Batch, second_at, first_entry, first_from-first_entry, or_minus, start_of, batches_text,
}
use sentinel_cpp.Log.Writer.Content.{
  items_of, from, All-from, start_of-some, start_of-none, IsLine, lines-batches_text, Stamped,
  Stamped-from, Stamped-SortedFrom, wanted-from,
}
use sentinel_cpp.Log.Writer.Volume.{Holds}
use sentinel_cpp.Log.Searcher.{
  Position, MetricSearcher, new_metric_searcher, valid_position, start_of_search, find_offset,
  first_offset, find_in_index, disk_lines, search, find_by_time_and_resource,
}
use sentinel_cpp.Log.Searcher.Index.{index_text, AreSmall, find_in_index-entries}

first_entry_lt :
    (b o : ℕ) (entries : List (ℕ × ℕ))
    → AreSmall entries
    → first_entry b entries ≡ some o
    → o < 2 ^ 63
first_entry_lt b o [] k h = absurd (ground (arith, h))
first_entry_lt b o ((s, p) ∷ entries) k h = elim (Bool-cases (lt_int64 s b)) [
  | inl e ↦ first_entry_lt b o entries k.1 (rw e at h)
  | inr e ↦ ground (arith, h, e, k.0.1)
]

-- A new searcher starts at the first file.
start_of_new :
    (unset begin_time_ms : ℕ) (disk : Disk) (dir base : Text) (names : List Text)
    → start_of_search unset begin_time_ms disk (new_metric_searcher dir base).last_pos names
      ≡ (names, 0)
unfolding start_of_search valid_position new_metric_searcher
start_of_new unset t disk dir base names =
    elim (Bool-cases (lt_int64 (div_int64 t 1000) (2 ^ 64 - 1))) [
      | inl e ↦ rw e refl
      | inr e ↦ rw e refl
    ]

first_offset-cons :
    (unset t offset : ℕ) (name : Text) (disk : Disk) (pos pos' : Position)
    → find_offset unset t name (form_index_file_name name) 0 disk pos ≡ some (offset, pos')
    → first_offset unset t (name ∷ []) 0 disk pos
      ≡ some (if offset == 2 ^ 64 - 1 then none else some (name ∷ [], offset), pos')
unfolding first_offset
first_offset-cons unset t offset name disk pos pos' h = elim (Bool-cases (offset == 2 ^ 64 - 1)) [
  | inl e ↦ rw (h, first_offset, e) refl
  | inr e ↦ rw (h, first_offset, e) refl
]

find_offset-eq :
    (unset t offset p : ℕ) (name idx content : Text) (disk : Disk) (pos : Position)
    → read_file idx disk ≡ some content
    → find_in_index unset (second_at t) pos.offset_in_index 0 content ≡ some (offset, p)
    → (pos' : Position) × (find_offset unset t name idx 0 disk pos ≡ some (offset, pos'))
unfolding find_offset
find_offset-eq unset t offset p name idx content disk pos h k = rw (h, find_offset, k) (_, refl)

read-one :
    (f : Format) (lines : Text → ℕ → Option (List Text)) (t u o : ℕ) (identity name : Text)
    (ls : List Text) (more : Bool) (items : List MetricItem)
    → lines name o ≡ some ls
    → read_lines_by_end_time f (second_at t) (second_at u) identity ls [] ≡ some (more, items)
    → read_metrics_by_end_time f lines t u identity (name ∷ []) o ≡ some items
unfolding read_metrics_by_end_time read_files_by_end_time read_metrics_in_one_file_by_end_time
read-one f lines t u o identity name ls true items h k =
    rw (h, read_metrics_by_end_time, read_metrics_in_one_file_by_end_time, k) refl
read-one f lines t u o identity name ls false items h k =
    rw (h, read_metrics_by_end_time, read_metrics_in_one_file_by_end_time, k) refl

-- An end of a search, for the offset that it has.
search-found :
    (unset t : ℕ) (names : List Text) (read : List Text → ℕ → Option (List MetricItem))
    (disk : Disk) (s : MetricSearcher) (files : List Text) (o : ℕ) (pos : Position)
    (items : List MetricItem)
    → start_of_search unset t disk s.last_pos names ≡ (names, 0)
    → first_offset unset t names 0 disk s.last_pos ≡ some (some (files, o), pos)
    → read files o ≡ some items
    → search unset t names read disk s ≡ some (items, record s { last_pos = pos })
unfolding search
search-found unset t names read disk s files o pos items h k r = rw (h, search, k, r) refl

search-nothing :
    (unset t : ℕ) (names : List Text) (read : List Text → ℕ → Option (List MetricItem))
    (disk : Disk) (s : MetricSearcher) (pos : Position)
    → start_of_search unset t disk s.last_pos names ≡ (names, 0)
    → first_offset unset t names 0 disk s.last_pos ≡ some (none, pos)
    → search unset t names read disk s ≡ some ([], record s { last_pos = pos })
unfolding search
search-nothing unset t names read disk s pos h k = rw (h, search, k) refl

module _ (f : Format) (host : Host) (size total : ℕ) (base name : Text) (calls : List Batch)
    (entries : List (ℕ × ℕ)) (last : ℕ) (first : Bool) (disk : Disk)
    (h : Holds f host size total base name calls entries last first disk) where
  -- The offset that the search finds is that of the first write that is not before the second.
  offset-Holds :
      (unset t : ℕ) (pos : Position)
      → (pos' : Position) × (first_offset unset t (name ∷ []) 0 disk pos
          ≡ some (
            if or_minus (start_of f (second_at t) 0 calls) == 2 ^ 64 - 1
                then none
                else some (name ∷ [], or_minus (start_of f (second_at t) 0 calls)),
            pos',
          ))
  offset-Holds unset t pos =
      let b = second_at t in
      let (p, q) = find_in_index-entries unset b pos.offset_in_index entries h.small in
      let value = first_from-first_entry b entries ∙ ap or_minus (h.finds b) in
      let (pos', e) =
        find_offset-eq unset t _ p name (form_index_file_name name) (index_text entries) disk pos
          h.index q in
      (pos', first_offset-cons unset t _ name disk pos pos' (e ∙ ap (λ o. some (o, pos')) value))

  -- What the reader finds from there on.
  lines-Holds :
      (b o : ℕ)
      → All (IsLine f) (items_of calls)
      → start_of f b 0 calls ≡ some o
      → (o < 2 ^ 63)
        × (disk_lines disk name o ≡ some (map (to_fat_string f) (items_of (from b calls))))
  unfolding disk_lines
  lines-Holds b o lines e =
      let (k, q, d) = start_of-some f b 0 o calls e in
      let small = first_entry_lt b o entries h.small (h.finds b ∙ e) in
      let same : o ≡ k = omega (arith, q) in
      let below : leb (2 ^ 63) o ≡ false = ground (arith, small) in
      (
        small,
        rw (h.content, disk_lines, below)
            (ap some (
              ap (λ n. lines_of_text (drop n (batches_text f calls))) same
              ∙ ap lines_of_text d
              ∙ lines-batches_text f (from b calls) (All-from (IsLine f) b calls lines))),
      )

  module _ (law : IsFormat f) (unset t u : ℕ) (identity dir base' : Text) (start : ℕ)
      (ordered : Stamped start calls) (numbers : All IsInt64 (items_of calls))
      (lines : All (IsLine f) (items_of calls))
      (limit : length (wanted (second_at t) (second_at u) identity (items_of calls))
        < max_lines_return) where
    abbrev answer : List MetricItem
    answer = wanted (second_at t) (second_at u) identity (items_of calls)

    abbrev searcher : MetricSearcher
    searcher = new_metric_searcher dir base'

    abbrev read : List Text → ℕ → Option (List MetricItem)
    read files offset = read_metrics_by_end_time f (disk_lines disk) t u identity files offset

    read-Holds :
        (o : ℕ) → start_of f (second_at t) 0 calls ≡ some o → read (name ∷ []) o ≡ some answer
    read-Holds o e =
        let b = second_at t in
        let tail = items_of (from b calls) in
        let same = wanted-from b (second_at u) identity start calls ordered in
        let (more, q) =
          read_sorted law b (second_at u) identity tail [] b (All-from IsInt64 b calls numbers)
            (Stamped-SortedFrom b (from b calls) (Stamped-from b start calls ordered))
            (ground arith) (rw (← same) limit) in
        read-one f (disk_lines disk) t u o identity name _ more _ (lines-Holds b o lines e).1 q
        ∙ ap some (sym same)

    search-Holds :
        (s' : MetricSearcher) × (search unset t (name ∷ []) read disk searcher ≡ some (answer, s'))
    search-Holds =
        let b = second_at t in
        let (pos', e) = offset-Holds unset t searcher.last_pos in
        let begun = start_of_new unset t disk dir base' (name ∷ []) in
        elim (Option-cases (start_of f b 0 calls)) [
          | inl q ↦
              let none_wanted : answer ≡ [] =
                wanted-from b (second_at u) identity start calls ordered
                ∙ ap (λ c. wanted b (second_at u) identity (items_of c))
                    (start_of-none f b 0 calls q) in
              (
                _,
                search-nothing unset t (name ∷ []) read disk searcher pos' begun (rw q at e)
                    ∙ ap (λ items. some (items, record searcher { last_pos = pos' }))
                        (sym none_wanted),
              )
          | inr (o, q) ↦
              let apart : (o == 2 ^ 64 - 1) ≡ false = ground (arith, (lines-Holds b o lines q).0) in
              (
                _,
                search-found unset t (name ∷ []) read disk searcher (name ∷ []) o pos' answer begun
                    (rw (q, apart) at e) (read-Holds o q),
              )
        ]

    -- The search over the files of the directory, where the file is the only one.
    pub find-Holds :
        list_metric_files f dir base' disk ≡ name ∷ []
        → (s' : MetricSearcher) × (find_by_time_and_resource f unset disk t u identity searcher
            ≡ some (answer, s'))
    unfolding find_by_time_and_resource new_metric_searcher
    find-Holds only = rw only search-Holds
