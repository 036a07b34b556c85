-- ===== src/Log/Searcher/Index.antt =====
-- What the searcher finds in an index that the writer wrote.
use sentinel_cpp.Prelude.{
  ℕ, zero, suc, ◌-◌, ◌^◌, ◌<◌, ◌≡◌, refl, sym, ap, ◌∙◌, arith, if◌then◌else◌, true, false, some,
  List, [], ◌∷◌, ◌++◌, length, lt_int64, Bool-cases, inl, inr, ◌⊎◌, All,
}
use mathlib.Core.List.{append_assoc}
use sentinel_cpp.Log.Format.{Text}
use sentinel_cpp.Log.Decimal.{print}
use sentinel_cpp.Log.Stream.{Istream, extract, tellg, is_digit}
use sentinel_cpp.Log.Stream.Laws.{good, extract-print, extract-space}
use sentinel_cpp.Log.Writer.{index_line}
use sentinel_cpp.Log.Searcher.{find_loop, find_in_index}
use sentinel_cpp.Log.Searcher.Ends.{find_in_index_ends}

-- The text of the entries, each a second and an offset.
unfoldable pub index_text : List (ℕ × ℕ) → Text
index_text [] = []
index_text ((s, o) ∷ entries) = print s ++ b' ' ∷ (print o ++ b'\n' ∷ index_text entries)

pub index_text-append :
    (entries : List (ℕ × ℕ)) (s o : ℕ)
    → index_text entries ++ index_line s o ≡ index_text (entries ++ (s, o) ∷ [])
unfolding index_text
index_text-append [] s o = refl
index_text-append ((t, p) ∷ entries) s o =
    append_assoc (print t) _ _
    ∙ ap (λ r. print t ++ b' ' ∷ r)
        (append_assoc (print p) _ _
          ∙ ap (λ r. print p ++ b'\n' ∷ r) (index_text-append entries s o))

-- The offset of the first entry that is not before a second, -1 without one.
abbrev pub first_from : ℕ → List (ℕ × ℕ) → ℕ
first_from b [] = 2 ^ 64 - 1
first_from b ((s, o) ∷ entries) = if lt_int64 s b then first_from b entries else o

-- Numbers of an `int64_t` that are not negative.
abbrev pub AreSmall : List (ℕ × ℕ) → Type 0
AreSmall entries = All (λ e. (e.0 < 2 ^ 63) × (e.1 < 2 ^ 63)) entries

extract-line :
    (old n size d : ℕ) (rest : Text)
    → n < 2 ^ 63
    → is_digit d ≡ false
    → extract old (good size (b'\n' ∷ (print n ++ d ∷ rest))) ≡ (n, good size (d ∷ rest))
extract-line old n size d rest h e =
    extract-space old b'\n' size (print n ++ d ∷ rest) refl ∙ extract-print old n size d rest h e

-- One round, with an entry left.
round-entry :
    (fuel b second tmp in_index size s o : ℕ) (rest : Text)
    → s < 2 ^ 63
    → o < 2 ^ 63
    → find_loop
        (suc fuel)
        b
        second
        tmp
        in_index
        (good size (b'\n' ∷ (print s ++ b' ' ∷ (print o ++ b'\n' ∷ rest))))
      ≡ (if lt_int64 s b
          then find_loop fuel b s o (tellg (good size (b'\n' ∷ rest))) (good size (b'\n' ∷ rest))
          else some (o, in_index))
unfolding find_loop
round-entry fuel b second tmp in_index size s o rest hs ho =
    rw
      (
        extract-line second s size b' ' (print o ++ b'\n' ∷ rest) hs refl,
        extract-space tmp b' ' size (print o ++ b'\n' ∷ rest) refl,
        extract-print tmp o size b'\n' rest ho refl,
      )
      refl

out_of_fuel :
    (b second tmp in_index : ℕ) (st : Istream) (r : ℕ × ℕ)
    → ¬ (find_loop zero b second tmp in_index st ≡ some r)
unfolding find_loop
out_of_fuel b second tmp in_index st r h = ground (arith, h)

some-pair : {A B : Type 0} {a : A} {b : B} {r : A × B} → some (a, b) ≡ some r → a ≡ r.0
some-pair h = ground (arith, h)

-- The rounds at the end of the index.
at_end :
    (fuel b second tmp in_index size : ℕ) (r : ℕ × ℕ)
    → (lt_int64 second b ≡ true) ⊎ (tmp ≡ 2 ^ 64 - 1)
    → find_loop (suc fuel) b second tmp in_index (good size (b'\n' ∷ [])) ≡ some r
    → r.0 ≡ 2 ^ 64 - 1
unfolding find_loop extract
at_end zero b second tmp in_index size r o h = ground (arith, h)
at_end (suc fuel) b second tmp in_index size r o h = ground (arith, h)

-- The entries from the second one on stand behind a line break.
find_loop-entries :
    (fuel : ℕ) (entries : List (ℕ × ℕ)) (b second tmp in_index size : ℕ) (r : ℕ × ℕ)
    → AreSmall entries
    → (lt_int64 second b ≡ true) ⊎ (tmp ≡ 2 ^ 64 - 1)
    → find_loop fuel b second tmp in_index (good size (b'\n' ∷ index_text entries)) ≡ some r
    → r.0 ≡ first_from b entries
unfolding index_text
find_loop-entries zero entries b second tmp in_index size r k o h =
    absurd (out_of_fuel b second tmp in_index _ r h)
find_loop-entries (suc fuel) [] b second tmp in_index size r k o h =
    at_end fuel b second tmp in_index size r o h
find_loop-entries (suc fuel) ((s, p) ∷ entries) b second tmp in_index size r k o h =
    let e = round-entry fuel b second tmp in_index size s p (index_text entries) k.0.0 k.0.1 in
    elim (Bool-cases (lt_int64 s b)) [
      | inl q ↦
          rw q (find_loop-entries fuel entries b s p _ size r k.1 (inl q) (sym (rw q at e) ∙ h))
      | inr q ↦ rw q (sym (some-pair (sym (rw q at e) ∙ h)))
    ]

-- The search of an index that holds these entries gives the first of them that is not before the
-- second.
pub find_in_index-entries :
    (unset b in_index : ℕ) (entries : List (ℕ × ℕ))
    → AreSmall entries
    → (p : ℕ) × (find_in_index unset b in_index 0 (index_text entries)
        ≡ some (first_from b entries, p))
unfolding find_loop
find_in_index-entries unset b in_index entries k =
    let content = index_text entries in
    let ((o, p), q) = find_in_index_ends unset b in_index 0 content in
    let size = length content in
    let moved : find_in_index unset b in_index 0 content
        ≡ find_loop (suc (suc size)) b unset (2 ^ 64 - 1) in_index (good size (b'\n' ∷ content)) =
      sym (rw (extract-space unset b'\n' size content refl) refl) in
    let found =
      find_loop-entries (suc (suc size)) entries b unset (2 ^ 64 - 1) in_index size (o, p) k
        (inr refl) (sym moved ∙ q) in
    (p, q ∙ ap (λ x. some (x, p)) found)
