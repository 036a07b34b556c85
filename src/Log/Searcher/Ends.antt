-- ===== src/Log/Searcher/Ends.antt =====
-- The loop of MetricSearcher::FindOffset ends.
use sentinel_cpp.Prelude.{
  ℕ, zero, suc, ◌-◌, ◌==◌, ◌^◌, ◌<◌, [], ◌∷◌, none, List, Option-cases, ◌≡◌, refl, arith, true,
  Option, some, length, lt_int64, div_int64, Bool-cases, inl, inr,
}
use sentinel_cpp.Log.Format.{Text}
use sentinel_cpp.Log.Stream.{Istream, is_good, extract, open_at, drop}
use sentinel_cpp.Log.Stream.Length.{extract-shorter}
use sentinel_cpp.Log.Disk.{Disk, read_file}
use sentinel_cpp.Log.Names.{form_index_file_name}
use sentinel_cpp.Log.Searcher.{Position, find_loop, find_in_index, find_offset, first_offset}

-- Fuel for a round at each byte that is left, and for two more.
abbrev Enough : ℕ → Istream → Type 0
Enough fuel st = (0 < fuel) × (is_good st ≡ true → suc (length st.rest) < fuel)

-- The stream after one round.
abbrev next : ℕ → ℕ → Istream → Istream
next second tmp st = (extract tmp (extract second st).1).1

Enough-next :
    (fuel second tmp : ℕ) (st : Istream)
    → is_good st ≡ true
    → Enough (suc fuel) st
    → Enough fuel (next second tmp st)
Enough-next fuel second tmp st g (k, h) = (
  omega (arith, h g),
  λ good.
      let (one, lt) = extract-shorter tmp (extract second st).1 good in
      let (two, lt') = extract-shorter second st one in omega (arith, lt, lt', h g),
)

find_loop-ends :
    (fuel begin_second second tmp in_index : ℕ) (st : Istream)
    → Enough fuel st
    → (r : ℕ × ℕ) × (find_loop fuel begin_second second tmp in_index st ≡ some r)
unfolding find_loop
find_loop-ends zero b second tmp in_index st h = absurd (omega (arith, h.0))
find_loop-ends (suc fuel) b second tmp in_index st h = elim (Bool-cases (is_good st)) [
  | inr e ↦ rw e (_, refl)
  | inl e ↦ elim (Bool-cases (lt_int64 (extract second st).0 b)) [
    | inr q ↦ rw (e, q) (_, refl)
    | inl q ↦
        rw (e, q)
          (find_loop-ends fuel b _ _ _ (next second tmp st) (Enough-next fuel second tmp st e h))
  ]
]

length-drop : (n : ℕ) (s : Text) → length (drop n s) < suc (length s)
length-drop zero s = omega arith
length-drop (suc n) [] = omega arith
length-drop (suc n) (c ∷ s) = omega (arith, length-drop n s)

pub find_in_index_ends :
    (unset begin_second in_index offset : ℕ) (content : Text)
    → (r : ℕ × ℕ) × (find_in_index unset begin_second in_index offset content ≡ some r)
find_in_index_ends unset b in_index offset content =
    find_loop-ends (suc (suc (length content))) b unset (2 ^ 64 - 1) in_index
      (open_at content offset) (omega arith, λ g. omega (arith, length-drop offset content))

find_offset_ends :
    (unset begin_time_ms : ℕ) (name idx : Text) (offset_in_index : ℕ) (disk : Disk) (pos : Position)
    → (r : ℕ × Position) × (find_offset unset begin_time_ms name idx offset_in_index disk pos
        ≡ some r)
unfolding find_offset
find_offset_ends unset begin_time_ms name idx offset_in_index disk pos =
    elim (Option-cases (read_file idx disk)) [
      | inl e ↦ rw (e, find_offset) (_, refl)
      | inr (content, e) ↦
          let (r, q) =
            find_in_index_ends unset (div_int64 begin_time_ms 1000) pos.offset_in_index
              offset_in_index content in
          rw (e, find_offset, q) (_, refl)
    ]

-- The loops of a search end, whatever the files and their indexes hold, and wherever in the first
-- index the search starts: a round for each byte of an index, and two more, are enough.
pub first_offset_ends :
    (unset begin_time_ms : ℕ) (names : List Text) (offset_in_index : ℕ) (disk : Disk)
    (pos : Position)
    → (r : Option (List Text × ℕ) × Position) × (first_offset unset begin_time_ms names
          offset_in_index disk pos
        ≡ some r)
unfolding first_offset
first_offset_ends unset t [] offset disk pos = ((none, pos), refl)
first_offset_ends unset t (name ∷ names) offset disk pos =
    let ((found, pos'), q) =
      find_offset_ends unset t name (form_index_file_name name) offset disk pos in
    elim (Bool-cases (found == 2 ^ 64 - 1)) [
      | inl e ↦ rw (q, first_offset, e) (first_offset_ends unset t names 0 disk pos')
      | inr e ↦ rw (q, first_offset, e) (_, refl)
    ]
