-- ===== src/Log/Writer/Content.antt =====
-- The items in a file of writes, from the first one on that is not before a second.
use sentinel_cpp.Prelude.{
  ℕ, suc, ◌+◌, ◌-◌, ◌^◌, ◌<◌, ◌≡◌, refl, ap, ◌∙◌, arith, if◌then◌else◌, ◌==◌, true, false, none,
  some, List, [], ◌∷◌, ◌++◌, map, length, lt_int64, Bool-cases, inl, inr, All,
}
use mathlib.Core.List.{append_assoc}
use sentinel_cpp.Log.Format.{Text, Format, IsPlain}
use sentinel_cpp.Log.Item.{MetricItem, to_fat_string}
use sentinel_cpp.Log.Stream.{drop, lines_of_text}
use sentinel_cpp.Log.Reader.{second_of}
use sentinel_cpp.Log.Reader.Sorted.{wanted, SortedFrom, le_int64_trans}
use sentinel_cpp.Log.Writer.{lines_text, stamp, stamped}
use sentinel_cpp.Log.Writer.Batches.{Batch, second_at, accepted, batches_text, start_of}

abbrev pub items_of : List Batch → List MetricItem
items_of [] = []
items_of ((time, nodes) ∷ calls) = nodes ++ items_of calls

abbrev pub from : ℕ → List Batch → List Batch
from b [] = []
from b ((time, nodes) ∷ calls) =
    if lt_int64 (second_at time) b then from b calls else (time, nodes) ∷ calls

drop-length_add : (s t : Text) (k : ℕ) → drop (length s + k) (s ++ t) ≡ drop k t
drop-length_add [] t k = let e : 0 + k ≡ k = omega arith in rw e refl
drop-length_add (c ∷ s) t k =
    let e : suc (length s) + k ≡ suc (length s + k) = omega arith in rw e (drop-length_add s t k)

All-behind : {A : Type 0} (P : A → Type 0) (xs ys : List A) → All P (xs ++ ys) → All P ys
All-behind P [] ys h = h
All-behind P (x ∷ xs) ys h = All-behind P xs ys h.1

pub All-from :
    (P : MetricItem → Type 0) (b : ℕ) (calls : List Batch)
    → All P (items_of calls)
    → All P (items_of (from b calls))
All-from P b [] h = tt
All-from P b ((t, ns) ∷ calls) h = elim (Bool-cases (lt_int64 (second_at t) b)) [
  | inl e ↦ rw e (All-from P b calls (All-behind P ns (items_of calls) h))
  | inr e ↦ rw e h
]

-- A text with no line break, and one behind it, is a line.
pub lines-line :
    (s rest : Text) → IsPlain b'\n' s → lines_of_text (s ++ b'\n' ∷ rest) ≡ s ∷ lines_of_text rest
unfolding lines_of_text
lines-line [] rest h = refl
lines-line (c ∷ s) rest h = rw (h.0, lines-line s rest h.1) refl

module _ (f : Format) where
  pub start_of-some :
      (b o p : ℕ) (calls : List Batch)
      → start_of f b o calls ≡ some p
      → (k : ℕ) × (p ≡ o + k) × (drop k (batches_text f calls) ≡ batches_text f (from b calls))
  start_of-some b o p [] h = absurd (ground (arith, h))
  start_of-some b o p ((t, ns) ∷ calls) h = elim (Bool-cases (lt_int64 (second_at t) b)) [
    | inl e ↦
        let (k, q, d) = start_of-some b (o + length (lines_text f ns)) p calls (rw e at h) in
        (
          length (lines_text f ns) + k,
          omega (arith, q),
          rw e (drop-length_add (lines_text f ns) (batches_text f calls) k ∙ d),
        )
    | inr e ↦ (0, ground (arith, h, e), rw e refl)
  ]

  pub start_of-none :
      (b o : ℕ) (calls : List Batch) → start_of f b o calls ≡ none → from b calls ≡ []
  start_of-none b o [] h = refl
  start_of-none b o ((t, ns) ∷ calls) h = elim (Bool-cases (lt_int64 (second_at t) b)) [
    | inl e ↦ rw e (start_of-none b (o + length (lines_text f ns)) calls (rw e at h))
    | inr e ↦ absurd (ground (arith, h, e))
  ]

  abbrev pub IsLine : MetricItem → Type 0
  IsLine item = IsPlain b'\n' (to_fat_string f item)

  lines-lines_text :
      (nodes : List MetricItem) (rest : Text) (items : List MetricItem)
      → All IsLine (nodes ++ items)
      → lines_of_text rest ≡ map (to_fat_string f) items
      → lines_of_text (lines_text f nodes ++ rest) ≡ map (to_fat_string f) (nodes ++ items)
  lines-lines_text [] rest items h e = e
  lines-lines_text (node ∷ nodes) rest items h e =
      ap lines_of_text (append_assoc (to_fat_string f node) (b'\n' ∷ lines_text f nodes) rest)
      ∙ lines-line (to_fat_string f node) (lines_text f nodes ++ rest) h.0
      ∙ ap (◌∷◌ (to_fat_string f node)) (lines-lines_text nodes rest items h.1 e)

  pub lines-batches_text :
      (calls : List Batch)
      → All IsLine (items_of calls)
      → lines_of_text (batches_text f calls) ≡ map (to_fat_string f) (items_of calls)
  unfolding lines_of_text
  lines-batches_text [] h = refl
  lines-batches_text ((t, ns) ∷ calls) h =
      lines-lines_text ns (batches_text f calls) (items_of calls) h
        (lines-batches_text calls (All-behind IsLine ns (items_of calls) h))

-- The writes are in the order of their seconds, from a second on, and their items have their times.
abbrev pub Stamped : ℕ → List Batch → Type 0
Stamped last [] = Unit {0}
Stamped last ((time, nodes) ∷ calls) =
    (lt_int64 (second_at time) last ≡ false)
    × All (λ (node : MetricItem). node.timestamp ≡ time) nodes
    × Stamped (second_at time) calls

stamp-times :
    (time : ℕ) (nodes : List MetricItem)
    → time < 2 ^ 63
    → All (λ (node : MetricItem). node.timestamp ≡ time) (stamp time nodes)
unfolding stamp
stamp-times time nodes h =
    let set : (time == 2 ^ 64 - 1) ≡ false = ground (arith, h) in rw set (go nodes)
  where
    go :
        (ns : List MetricItem)
        → All (λ (node : MetricItem). node.timestamp ≡ time) (map (stamped time) ns)
    go [] = tt
    go (n ∷ ns) = (refl, go ns)

pub accepted-Stamped :
    (last : ℕ) (calls : List Batch)
    → All (λ c. c.0 < 2 ^ 63) calls
    → Stamped last (accepted last calls)
accepted-Stamped last [] h = tt
accepted-Stamped last ((t, ns) ∷ calls) h = elim (Bool-cases (lt_int64 (second_at t) last)) [
  | inl e ↦ rw e (accepted-Stamped last calls h.1)
  | inr e ↦ rw e (e, stamp-times t ns h.0, accepted-Stamped (second_at t) calls h.1)
]

pub Stamped-from : (b last : ℕ) (calls : List Batch) → Stamped last calls → Stamped b (from b calls)
Stamped-from b last [] h = tt
Stamped-from b last ((t, ns) ∷ calls) h = elim (Bool-cases (lt_int64 (second_at t) b)) [
  | inl e ↦ rw e (Stamped-from b (second_at t) calls h.2)
  | inr e ↦ rw e (e, h.1, h.2)
]

SortedFrom-le :
    (a b : ℕ) (items : List MetricItem)
    → lt_int64 b a ≡ false
    → SortedFrom b items
    → SortedFrom a items
SortedFrom-le a b [] h s = tt
SortedFrom-le a b (item ∷ items) h s = (le_int64_trans a b (second_of item) h s.0, s.1)

nodes-SortedFrom :
    (a t : ℕ) (ns items : List MetricItem)
    → lt_int64 (second_at t) a ≡ false
    → All (λ (n : MetricItem). n.timestamp ≡ t) ns
    → SortedFrom (second_at t) items
    → SortedFrom a (ns ++ items)
nodes-SortedFrom a t [] items h k s = SortedFrom-le a (second_at t) items h s
nodes-SortedFrom a t (n ∷ ns) items h k s =
    let same : second_of n ≡ second_at t = ap second_at k.0 in
    (rw same h, nodes-SortedFrom (second_of n) t ns items (rw same (ground arith)) k.1 s)

pub Stamped-SortedFrom :
    (a : ℕ) (calls : List Batch) → Stamped a calls → SortedFrom a (items_of calls)
Stamped-SortedFrom a [] h = tt
Stamped-SortedFrom a ((t, ns) ∷ calls) h =
    nodes-SortedFrom a t ns (items_of calls) h.0 h.1 (Stamped-SortedFrom (second_at t) calls h.2)

module _ (b e : ℕ) (identity : Text) where
  nodes-wanted :
      (t : ℕ) (ns items : List MetricItem)
      → lt_int64 (second_at t) b ≡ true
      → All (λ (n : MetricItem). n.timestamp ≡ t) ns
      → wanted b e identity (ns ++ items) ≡ wanted b e identity items
  nodes-wanted t [] items h k = refl
  nodes-wanted t (n ∷ ns) items h k =
      let early : lt_int64 (second_of n) b ≡ true = rw k.0 h in
      rw early (nodes-wanted t ns items h k.1)

  -- What is wanted of the writes is among those that are not before the first second.
  pub wanted-from :
      (last : ℕ) (calls : List Batch)
      → Stamped last calls
      → wanted b e identity (items_of calls) ≡ wanted b e identity (items_of (from b calls))
  wanted-from last [] h = refl
  wanted-from last ((t, ns) ∷ calls) h = elim (Bool-cases (lt_int64 (second_at t) b)) [
    | inl q ↦ rw q (nodes-wanted t ns (items_of calls) q h.1 ∙ wanted-from (second_at t) calls h.2)
    | inr q ↦ rw q refl
  ]
