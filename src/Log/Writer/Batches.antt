-- ===== src/Log/Writer/Batches.antt =====
-- The writes that a metric file holds, and where each stands in it.
use mathlib.Core.List.{append_assoc, append-nil}
use sentinel_cpp.Prelude.{
  ℕ, ◌+◌, ◌-◌, ◌^◌, ◌≡◌, refl, ap, sym, ◌∙◌, arith, if◌then◌else◌, Option, none, some, List, [],
  ◌∷◌, ◌++◌, length, length-append, lt_int64, div_int64, Bool-cases, inl, inr,
}
use sentinel_cpp.Log.Format.{Text, Format}
use sentinel_cpp.Log.Item.{MetricItem}
use sentinel_cpp.Log.Writer.{lines_text, stamp}
use sentinel_cpp.Log.Searcher.Index.{first_from}

-- Calls of Write: the time, and the items.
abbrev pub Batch : Type 0
Batch = ℕ × List MetricItem

abbrev pub second_at : ℕ → ℕ
second_at time = div_int64 time 1000

-- The calls that are not dropped, each with its time in its items: those of the last second or a
-- later one.
abbrev pub accepted : ℕ → List Batch → List Batch
accepted last [] = []
accepted last ((time, nodes) ∷ calls) =
    if lt_int64 (second_at time) last
    then accepted last calls
    else (time, stamp time nodes) ∷ accepted (second_at time) calls

abbrev pub first_entry : ℕ → List (ℕ × ℕ) → Option ℕ
first_entry b [] = none
first_entry b ((s, o) ∷ entries) = if lt_int64 s b then first_entry b entries else some o

abbrev pub or_minus : Option ℕ → ℕ
or_minus none = 2 ^ 64 - 1
or_minus (some o) = o

pub first_from-first_entry :
    (b : ℕ) (entries : List (ℕ × ℕ)) → first_from b entries ≡ or_minus (first_entry b entries)
first_from-first_entry b [] = refl
first_from-first_entry b ((s, o) ∷ entries) = elim (Bool-cases (lt_int64 s b)) [
  | inl e ↦ rw e (first_from-first_entry b entries)
  | inr e ↦ rw e refl
]

-- The first of two that is there.
abbrev pub first_of : Option ℕ → Option ℕ → Option ℕ
first_of none o = o
first_of (some a) o = some a

pub first_entry-append :
    (b s o : ℕ) (entries : List (ℕ × ℕ))
    → first_entry b (entries ++ (s, o) ∷ [])
      ≡ first_of (first_entry b entries) (if lt_int64 s b then none else some o)
first_entry-append b s o [] = refl
first_entry-append b s o ((t, p) ∷ entries) = elim (Bool-cases (lt_int64 t b)) [
  | inl e ↦ rw e (first_entry-append b s o entries)
  | inr e ↦ rw e refl
]

module _ (f : Format) where
  -- The text of the writes.
  abbrev pub batches_text : List Batch → Text
  batches_text [] = []
  batches_text ((time, nodes) ∷ calls) = lines_text f nodes ++ batches_text calls

  -- The place of the first write that is not before a second.
  abbrev pub start_of : ℕ → ℕ → List Batch → Option ℕ
  start_of b o [] = none
  start_of b o ((time, nodes) ∷ calls) =
      if lt_int64 (second_at time) b
      then start_of b (o + length (lines_text f nodes)) calls
      else some o

  pub batches_text-append :
      (calls : List Batch) (time : ℕ) (nodes : List MetricItem)
      → batches_text (calls ++ (time, nodes) ∷ []) ≡ batches_text calls ++ lines_text f nodes
  batches_text-append [] time nodes = append-nil (lines_text f nodes)
  batches_text-append ((t, ns) ∷ calls) time nodes =
      ap (λ r. lines_text f ns ++ r) (batches_text-append calls time nodes)
      ∙ sym (append_assoc (lines_text f ns) (batches_text calls) (lines_text f nodes))

  pub start_of-append :
      (b o : ℕ) (calls : List Batch) (time : ℕ) (nodes : List MetricItem)
      → start_of b o (calls ++ (time, nodes) ∷ [])
        ≡ first_of
            (start_of b o calls)
            (if lt_int64 (second_at time) b then none else some (o + length (batches_text calls)))
  start_of-append b o [] time nodes = ground arith
  start_of-append b o ((t, ns) ∷ calls) time nodes = elim (Bool-cases (lt_int64 (second_at t) b)) [
    | inl e ↦
        rw (e, length-append (lines_text f ns) (batches_text calls))
          (start_of-append b (o + length (lines_text f ns)) calls time nodes
            ∙ ap
                (λ k.
                  first_of (start_of b (o + length (lines_text f ns)) calls)
                    (if lt_int64 (second_at time) b then none else some k))
                (omega arith))
    | inr e ↦ rw e refl
  ]
