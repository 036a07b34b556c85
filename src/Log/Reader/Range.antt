-- ===== src/Log/Reader/Range.antt =====
-- What a reading by times returns.
use mathlib.Core.Path.{subst}
use sentinel_cpp.Prelude.{
  ℕ, ◌≤◌, ◌<◌, ◌≡◌, refl, arith, leb, if◌then◌else◌, Bool, true, false, ◌||◌, Option, none, some,
  List, [], ◌∷◌, ◌++◌, length, length-append, All, lt_int64, div_int64, Bool-cases, Option-cases,
  inl, inr,
}
use sentinel_cpp.Log.Format.{Text, Format}
use sentinel_cpp.Log.Text.{text_eq}
use sentinel_cpp.Log.Item.{MetricItem, from_fat_string}
use sentinel_cpp.Log.Reader.{
  max_lines_return, second_of, read_lines_by_end_time, read_metrics_in_one_file_by_end_time,
  read_files_by_end_time, read_metrics_by_end_time,
}

-- An item of a second between the two, and of the resource, if one is named.
abbrev pub IsWanted : ℕ → ℕ → Text → MetricItem → Type 0
IsWanted begin_second end_second identity item =
    (lt_int64 (second_of item) begin_second ≡ false)
    × (lt_int64 end_second (second_of item) ≡ false)
    × ((text_eq identity [] || text_eq item.resource identity) ≡ true)

-- A line that is an item.
abbrev pub IsReadable : Format → Text → Type 0
IsReadable f line = (item : MetricItem) × (from_fat_string f line ≡ some item)

All-snoc :
    {A : Type 0} (P : A → Type 0) (xs : List A) (x : A) → All P xs → P x → All P (xs ++ x ∷ [])
All-snoc P [] x h p = (p, tt)
All-snoc P (y ∷ xs) x h p = (h.0, All-snoc P xs x h.1 p)

-- Items that are wanted, and no more than the limit; fewer while the reading goes on.
abbrev Within : ℕ → ℕ → Text → Bool → List MetricItem → Type 0
Within b e identity more vec =
    All (IsWanted b e identity) vec
    × (length vec ≤ max_lines_return)
    × (more ≡ true → length vec < max_lines_return)

module _ (f : Format) (b e : ℕ) (identity : Text) where
  -- What a reading with a result leaves.
  abbrev Reads : Option (Bool × List MetricItem) → Type 0
  Reads o =
      (more : Bool) × (vec : List MetricItem) × (o ≡ some (more, vec))
      × Within b e identity more vec

  -- The end of the loop's body, for the items with the new one.
  limit-Within :
      (vec : List MetricItem) (o : Option (Bool × List MetricItem))
      → All (IsWanted b e identity) vec
      → length vec ≤ max_lines_return
      → (Within b e identity true vec → Reads o)
      → Reads (if leb max_lines_return (length vec) then some (false, vec) else o)
  limit-Within vec o h k ih = elim (Bool-cases (leb max_lines_return (length vec))) [
    | inl q ↦ rw q (false, vec, refl, (h, k, λ x. absurd cc))
    | inr q ↦ rw q (ih (h, k, λ x. ground (arith, q)))
  ]

  -- The body of the loop, for the item that is read.
  item-Within :
      (item : MetricItem) (vec : List MetricItem)
      (rest : List MetricItem → Option (Bool × List MetricItem))
      → Within b e identity true vec
      → ((vec' : List MetricItem) → Within b e identity true vec' → Reads (rest vec'))
      → Reads (
          let vec' =
            if text_eq identity [] || text_eq item.resource identity
            then vec ++ item ∷ []
            else vec in
          if lt_int64 (second_of item) b
          then some (false, vec)
          else if lt_int64 e (second_of item)
          then some (false, vec)
          else if leb max_lines_return (length vec')
          then some (false, vec')
          else rest vec')
  item-Within item vec rest w ih = elim (Bool-cases (lt_int64 (second_of item) b)) [
    | inl p ↦ rw p (false, vec, refl, (w.0, w.1, λ x. absurd cc))
    | inr p ↦ elim (Bool-cases (lt_int64 e (second_of item))) [
      | inl q ↦ rw (p, q) (false, vec, refl, (w.0, w.1, λ x. absurd cc))
      | inr q ↦ elim (Bool-cases (text_eq identity [] || text_eq item.resource identity)) [
        | inl m ↦
            rw (p, q, m)
              (limit-Within (vec ++ item ∷ []) (rest (vec ++ item ∷ []))
                (All-snoc (IsWanted b e identity) vec item w.0 (p, q, m))
                (omega (arith, length-append vec (item ∷ []), w.2 refl)) (ih (vec ++ item ∷ [])))
        | inr m ↦ rw (p, q, m) (limit-Within vec (rest vec) w.0 w.1 (ih vec))
      ]
    ]
  ]

  lines-Within :
      (ls : List Text) (vec : List MetricItem)
      → All (IsReadable f) ls
      → Within b e identity true vec
      → Reads (read_lines_by_end_time f b e identity ls vec)
  unfolding read_lines_by_end_time
  lines-Within [] vec h w = (true, vec, refl, w)
  lines-Within (line ∷ ls) vec h w =
      rw (h.0.1, read_lines_by_end_time)
        (item-Within h.0.0 vec (read_lines_by_end_time f b e identity ls) w
          (λ vec' w'. lines-Within ls vec' h.1 w'))

-- The lines that are read; none of a file that cannot be opened.
abbrev pub lines_read : Option (List Text) → List Text
lines_read none = []
lines_read (some ls) = ls

module _ (f : Format) (lines : Text → ℕ → Option (List Text)) (begin_time end_time : ℕ)
    (identity : Text) where
  abbrev begin_second : ℕ
  begin_second = div_int64 begin_time 1000

  abbrev end_second : ℕ
  end_second = div_int64 end_time 1000

  file-Within :
      (name : Text) (offset : ℕ) (vec : List MetricItem)
      → All (IsReadable f) (lines_read (lines name offset))
      → Within begin_second end_second identity true vec
      → Reads f begin_second end_second identity (
          read_metrics_in_one_file_by_end_time f lines begin_time end_time identity name offset vec)
  unfolding read_metrics_in_one_file_by_end_time
  file-Within name offset vec h w = elim (Option-cases (lines name offset)) [
    | inl q ↦
        rw (q, read_metrics_in_one_file_by_end_time) (false, vec, refl, (w.0, w.1, λ x. absurd cc))
    | inr (ls, q) ↦
        rw (q, read_metrics_in_one_file_by_end_time)
          (lines-Within f begin_second end_second identity ls vec
            (subst (λ o. All (IsReadable f) (lines_read o)) q h) w)
  ]

  -- The items, that each is wanted, and that there are no more than the limit.
  abbrev pub Answers : Option (List MetricItem) → Type 0
  Answers o =
      (items : List MetricItem) × (o ≡ some items)
      × All (IsWanted begin_second end_second identity) items
      × (length items ≤ max_lines_return)

  -- What is done with a file's items.
  next-Answers :
      (more : Bool) (vec : List MetricItem) (rest : Option (List MetricItem))
      → Within begin_second end_second identity more vec
      → (Within begin_second end_second identity true vec → Answers rest)
      → Answers (if more then rest else some vec)
  next-Answers true vec rest w ih = ih w
  next-Answers false vec rest w ih = (vec, refl, w.0, w.1)

  files-Answers :
      (names : List Text) (vec : List MetricItem)
      → All (λ name. All (IsReadable f) (lines_read (lines name 0))) names
      → Within begin_second end_second identity true vec
      → Answers (read_files_by_end_time f lines begin_time end_time identity names vec)
  unfolding read_files_by_end_time
  files-Answers [] vec h w = (vec, refl, w.0, w.1)
  files-Answers (name ∷ names) vec h w =
      let (more, vec', q, w') = file-Within name 0 vec h.0 w in
      rw (q, read_files_by_end_time)
        (next-Answers more vec'
          (read_files_by_end_time f lines begin_time end_time identity names vec') w'
          (files-Answers names vec' h.1))

  -- Let every line of the first file from the offset on, and every line of the files after it, be
  -- that of an item. Then the reading returns, each item that it returns is of a second between the
  -- two times and of the resource, if one is named, and there are at most kMaxLinesReturn of them.
  pub read_in_range :
      (name : Text) (names : List Text) (offset : ℕ)
      → All (IsReadable f) (lines_read (lines name offset))
      → All (λ file. All (IsReadable f) (lines_read (lines file 0))) names
      → Answers
          (read_metrics_by_end_time f lines begin_time end_time identity (name ∷ names) offset)
  unfolding read_metrics_by_end_time
  read_in_range name names offset first others =
      let (more, vec, q, w) =
        file-Within name offset [] first (tt, omega arith, λ x. omega arith) in
      rw (q, read_metrics_by_end_time)
        (next-Answers more vec
          (read_files_by_end_time f lines begin_time end_time identity names vec) w
          (files-Answers names vec others))
