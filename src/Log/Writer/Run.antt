-- ===== src/Log/Writer/Run.antt =====
-- Calls of Write while the file that is open stays open.
use mathlib.Core.Path.{subst}
use mathlib.Core.List.{append-nil, append_assoc}
use sentinel_cpp.Prelude.{
  ℕ, ◌+◌, ◌^◌, ◌<◌, ◌≡◌, refl, ap, sym, ◌∙◌, arith, ◌==◌, ==_iff, Bool, true, false, List, [], ◌∷◌,
  ◌++◌, length, length-append, lt_int64, Bool-cases, inl, inr, some, All,
}
use sentinel_cpp.Log.Format.{Text, Format}
use sentinel_cpp.Log.Item.{MetricItem}
use sentinel_cpp.Log.Disk.{Disk, write_file}
use sentinel_cpp.Log.Disk.Laws.{read-write_other}
use sentinel_cpp.Log.Names.{form_index_file_name}
use sentinel_cpp.Log.Searcher.Index.{index_text}
use sentinel_cpp.Log.Writer.{
  Host, index_line, MetricWriter, tellp, lines_text, write_index, stamp, write, write_open,
  write_all, ensure_open, do_write, is_new_day, write_same, write_later, turn_day,
}
use sentinel_cpp.Log.Writer.Batches.{Batch, second_at, accepted, batches_text}
use sentinel_cpp.Log.Writer.Volume.{
  day_of, opened, Holds, do_write-eq, write_index-eq, with_entry-Holds, without_entry-Holds,
  name-ne-index,
}

lt_int64-lt : (a b : ℕ) → a < b → b < 2 ^ 63 → lt_int64 a b ≡ true
lt_int64-lt a b h k = ground (arith, h, k)

second_at_lt : (time : ℕ) → time < 2 ^ 63 → second_at time < 2 ^ 63
second_at_lt time h = ground (arith, h)

-- The writes are on one day, at times that are not negative.
abbrev pub OnDay : Host → ℕ → List Batch → Type 0
OnDay host day calls = All (λ c. (c.0 < 2 ^ 63) × (day_of host (second_at c.0) ≡ day)) calls

abbrev with_second : ℕ → MetricWriter → MetricWriter
with_second second w = record w { last_second = second }

module _ (f : Format) (host : Host) (size total : ℕ) (base name : Text)
    (size_lt : size < 2 ^ 63) where
  -- What one call leaves.
  abbrev Leaves : List Batch → ℕ → MetricWriter → Type 0
  Leaves calls last w =
      (entries : List (ℕ × ℕ)) × (first : Bool) × (disk : Disk) × (w
        ≡ opened f host size total base name last first disk)
      × Holds f host size total base name calls entries last first disk

  module _ (time : ℕ) (nodes : List MetricItem) (calls : List Batch) (entries : List (ℕ × ℕ))
      (disk : Disk) (time_lt : time < 2 ^ 63)
      (fits : length (batches_text f calls ++ lines_text f nodes) < size) where
    offset_lt : length (batches_text f calls) < 2 ^ 63
    offset_lt = omega (arith, length-append (batches_text f calls) (lines_text f nodes))

    -- With an index entry.
    entry-Holds :
        (last : ℕ) (first first' : Bool)
        → Holds f host size total base name calls entries last first disk
        → (entries' : List (ℕ × ℕ)) × (disk' : Disk) × (do_write f host time nodes (
              write_index
                (second_at time)
                (tellp (some name) disk)
                (opened f host size total base name last first' disk))
            ≡ opened f host size total base name last first' disk')
          × Holds f host size total base name
              (calls ++ (time, nodes) ∷ [])
              entries'
              (second_at time)
              first'
              disk'
    entry-Holds last first first' h =
        let text = batches_text f calls in
        let line = index_text entries ++ index_line (second_at time) (length text) in
        let indexed =
          write_index-eq f host size total base name (second_at time) last first' disk text
            (index_text entries) h.content h.index in
        let kept =
          read-write_other (form_index_file_name name) name line disk
            (name-ne-index f host size total base name)
          ∙ h.content in
        let done =
          do_write-eq f host size total base name time last nodes first'
            (write_file (form_index_file_name name) line disk) text kept
            (lt_int64-lt _ size fits size_lt) in
        (
          _,
          _,
          rw indexed done,
          with_entry-Holds f host size total base name time nodes calls entries disk last first
              first' h (second_at_lt time time_lt) offset_lt,
        )

    -- Without one, in the second of the last write.
    same-Leaves :
        Holds f host size total base name calls entries (second_at time) false disk
        → Leaves (calls ++ (time, nodes) ∷ []) (second_at time) (
            do_write f host time nodes
              (opened f host size total base name (second_at time) false disk))
    same-Leaves h = (
      entries,
      false,
      _,
      do_write-eq f host size total base name time (second_at time) nodes false disk
          (batches_text f calls) h.content (lt_int64-lt _ size fits size_lt),
      without_entry-Holds f host size total base name time nodes calls entries disk false h refl,
    )

    -- In the second of the last write.
    write_same-Leaves :
        (first : Bool)
        → Holds f host size total base name calls entries (second_at time) first disk
        → Leaves (calls ++ (time, nodes) ∷ []) (second_at time) (
            write_same f host time nodes
              (opened f host size total base name (second_at time) first disk))
    unfolding write_same
    write_same-Leaves false h = same-Leaves h
    write_same-Leaves true h =
        let (entries', disk', e, k) = entry-Holds (second_at time) true false h in
        (entries', false, disk', e, k)

    turn_day-eq :
        (last : ℕ) (first : Bool) (disk' : Disk)
        → is_new_day f host last (second_at time) ≡ false
        → turn_day f host time (opened f host size total base name last first disk')
          ≡ opened f host size total base name last first disk'
    unfolding turn_day
    turn_day-eq last first disk' h = rw h refl

    -- In a later second of that day.
    write_later-Leaves :
        (last : ℕ) (first : Bool)
        → Holds f host size total base name calls entries last first disk
        → is_new_day f host last (second_at time) ≡ false
        → Leaves
            (calls ++ (time, nodes) ∷ [])
            (second_at time)
            (write_later f host time nodes (opened f host size total base name last first disk))
    unfolding write_later
    write_later-Leaves last first h day =
        let (entries', disk', e, k) = entry-Holds last first first h in
        let indexed =
          write_index-eq f host size total base name (second_at time) last first disk
            (batches_text f calls) (index_text entries) h.content h.index in
        (
          entries',
          first,
          disk',
          ap (with_second (second_at time)) (
              ap (do_write f host time nodes) (
                ap (turn_day f host time) indexed
                ∙ turn_day-eq last first
                    (write_file (form_index_file_name name)
                      (index_text entries
                        ++ index_line (second_at time) (length (batches_text f calls)))
                      disk)
                    day
                ∙ sym indexed)
              ∙ e),
          k,
        )

    -- A call that is not dropped, on the day of the last one.
    write_open-Leaves :
        (last : ℕ) (first : Bool)
        → Holds f host size total base name calls entries last first disk
        → lt_int64 (second_at time) last ≡ false
        → is_new_day f host last (second_at time) ≡ false
        → Leaves
            (calls ++ (time, nodes) ∷ [])
            (second_at time)
            (write_open f host time nodes (opened f host size total base name last first disk))
    unfolding write_open
    write_open-Leaves last first h late day = elim (Bool-cases (second_at time == last)) [
      | inl e ↦
          rw (late, e)
            (subst
              (λ l.
                Leaves (calls ++ (time, nodes) ∷ []) (second_at time)
                  (write_same f host time nodes (opened f host size total base name l first disk)))
              ((==_iff _ last).0 e)
              (write_same-Leaves first (
                subst (λ l. Holds f host size total base name calls entries l first disk)
                  (sym ((==_iff _ last).0 e)) h)))
      | inr e ↦ rw (late, e) (write_later-Leaves last first h day)
    ]

  same_day :
      (day last second : ℕ)
      → day_of host last ≡ day
      → day_of host second ≡ day
      → is_new_day f host last second ≡ false
  unfolding is_new_day
  same_day day last second h k = rw (h, k) (ground arith)

  pub write-eq :
      (time last : ℕ) (nodes : List MetricItem) (first : Bool) (disk : Disk)
      → write f host time nodes (opened f host size total base name last first disk)
        ≡ write_open f host time
            (stamp time nodes)
            (opened f host size total base name last first disk)
  unfolding write ensure_open
  write-eq time last nodes first disk = refl

  write_open_late :
      (time last : ℕ) (nodes : List MetricItem) (first : Bool) (disk : Disk)
      → lt_int64 (second_at time) last ≡ true
      → write_open f host time nodes (opened f host size total base name last first disk)
        ≡ opened f host size total base name last first disk
  unfolding write_open
  write_open_late time last nodes first disk h = rw h refl

  -- The text of the writes up to a call is no longer than that of all.
  fits-prefix :
      (calls rest : List Batch) (time : ℕ) (nodes : List MetricItem)
      → length (batches_text f (calls ++ (time, nodes) ∷ rest)) < size
      → length (batches_text f calls ++ lines_text f nodes) < size
  fits-prefix calls rest time nodes h = omega (
    arith,
    h,
    length-append (batches_text f calls) (lines_text f nodes),
    length-batches_text calls ((time, nodes) ∷ rest),
    length-append (lines_text f nodes) (batches_text f rest),
  )
    where
      length-batches_text :
          (xs ys : List Batch)
          → length (batches_text f (xs ++ ys))
            ≡ length (batches_text f xs) + length (batches_text f ys)
      length-batches_text [] ys = omega arith
      length-batches_text ((t, ns) ∷ xs) ys = omega (
        arith,
        length-append (lines_text f ns) (batches_text f (xs ++ ys)),
        length-append (lines_text f ns) (batches_text f xs),
        length-batches_text xs ys,
      )

  -- Any calls while the file does not grow to the limit and the day stays: the file holds those that
  -- are not dropped.
  pub write_all-Holds :
      (batches calls : List Batch) (entries : List (ℕ × ℕ)) (last day : ℕ) (first : Bool)
      (disk : Disk)
      → Holds f host size total base name calls entries last first disk
      → OnDay host day batches
      → day_of host last ≡ day
      → length (batches_text f (calls ++ accepted last batches)) < size
      → (last' : ℕ) × Leaves
          (calls ++ accepted last batches)
          last'
          (write_all f host batches (opened f host size total base name last first disk))
  unfolding write_all
  write_all-Holds [] calls entries last day first disk h on today fits = (
    last,
    (
      entries,
      first,
      disk,
      refl,
      subst (λ c. Holds f host size total base name c entries last first disk)
          (sym (append-nil calls)) h,
    ),
  )
  write_all-Holds ((time, nodes) ∷ batches) calls entries last day first disk h on today fits =
      elim (Bool-cases (lt_int64 (second_at time) last)) [
        | inl e ↦
            rw
              (
                e,
                write-eq time last nodes first disk,
                write_open_late time last (stamp time nodes) first disk e,
              )
              (write_all-Holds batches calls entries last day first disk h on.1 today
                (rw e at fits))
        | inr e ↦
            let rest = accepted (second_at time) batches in
            let fits' : length (batches_text f (calls ++ (time, stamp time nodes) ∷ rest)) < size =
              rw e at fits in
            let joined = append_assoc calls ((time, stamp time nodes) ∷ []) rest in
            let (entries', first', disk', q, k) =
              write_open-Leaves time (stamp time nodes) calls entries disk on.0.0
                (fits-prefix calls rest time (stamp time nodes) fits') last first h e
                (same_day day last (second_at time) today on.0.1) in
            rw (e, write-eq time last nodes first disk, q)
              (subst
                (λ c.
                  (last' : ℕ) × Leaves c last' (
                    write_all f host batches
                      (opened f host size total base name (second_at time) first' disk')))
                joined
                (write_all-Holds batches (calls ++ (time, stamp time nodes) ∷ []) entries'
                  (second_at time) day first' disk' k on.1 on.0.1
                  (subst (λ c. length (batches_text f c) < size) (sym joined) fits')))
      ]
