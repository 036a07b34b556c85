-- ===== src/Log/Names/Listing.antt =====
-- How the list of the metric files changes with the files.
use mathlib.Core.List.{append_assoc}
use sentinel_cpp.Prelude.{
  ◌+◌, ◌≤◌, ◌≡◌, refl, ap, ◌∙◌, arith, if◌then◌else◌, Bool, true, not, some, List, [], ◌∷◌, ◌++◌,
  length, Bool-cases, Option-cases, inl, inr,
}
use sentinel_cpp.Log.Format.{Text, Format}
use sentinel_cpp.Log.Text.{text_eq, after, ends_with, sort, insert_sorted}
use sentinel_cpp.Log.Disk.{Disk, is_entry, list_files, remove_file, write_file}
use sentinel_cpp.Log.Disk.Laws.{text_eq_self}
use sentinel_cpp.Log.Names.{form_index_file_name, metric_index_file_suffix, pick}

abbrev pub keep_if : (Text → Bool) → List Text → List Text
keep_if t [] = []
keep_if t (x ∷ xs) = let rest = keep_if t xs in if t x then x ∷ rest else rest

after-append : (dir p name : Text) → after dir p ≡ some name → p ≡ dir ++ name
unfolding after
after-append [] p name h = ground (arith, h)
after-append (c ∷ dir) [] name h = absurd (ground (arith, h))
after-append (c ∷ dir) (d ∷ p) name h = ground (arith, h, after-append dir p name)

append-after : (dir name : Text) → after dir (dir ++ name) ≡ some name
unfolding after
append-after [] name = refl
append-after (c ∷ dir) name = ground (arith, append-after dir name)

pub ends_with_suffix : (s suffix : Text) → ends_with (s ++ suffix) suffix ≡ true
unfolding ends_with
ends_with_suffix [] [] = refl
ends_with_suffix [] (c ∷ suffix) = rw (text_eq_self (c ∷ suffix)) refl
ends_with_suffix (c ∷ s) suffix = ground (arith, ends_with_suffix s suffix)

insert_sorted-kept :
    (before : Text → Text → Bool) (t : Text → Bool) (x : Text) (ys : List Text)
    → length (keep_if t (insert_sorted before x ys)) ≡ length (keep_if t (x ∷ ys))
unfolding insert_sorted
insert_sorted-kept before t x [] = refl
insert_sorted-kept before t x (y ∷ ys) = ground (arith, insert_sorted-kept before t x ys)

-- Sorting changes no number of names.
pub sort-kept :
    (before : Text → Text → Bool) (t : Text → Bool) (xs : List Text)
    → length (keep_if t (sort before xs)) ≡ length (keep_if t xs)
unfolding sort
sort-kept before t [] = refl
sort-kept before t (x ∷ xs) =
    insert_sorted-kept before t x (sort before xs) ∙ ground (arith, sort-kept before t xs)

keep_all : (xs : List Text) → keep_if (λ x. true) xs ≡ xs
keep_all [] = refl
keep_all (x ∷ xs) = ap (◌∷◌ x) (keep_all xs)

module _ (f : Format) (test : Text → Bool) (dir : Text) where
  abbrev pub listed : Disk → List Text
  listed disk = pick f test dir (list_files dir disk)

  -- A removed file is no longer in the list, and all else is.
  pub listed-remove_file :
      (path : Text) (disk : Disk)
      → listed (remove_file path disk) ≡ keep_if (λ p. not (text_eq p path)) (listed disk)
  unfolding remove_file list_files pick
  listed-remove_file path [] = refl
  listed-remove_file path ((p, content) ∷ files) = elim (Option-cases (after dir p)) [
    | inl e ↦ ground (arith, e, listed-remove_file path files)
    | inr (name, e) ↦ ground (
      arith,
      e,
      Bool-cases (is_entry name),
      after-append dir p name e,
      listed-remove_file path files,
    )
  ]

  length-listed :
      (p content text : Text) (files : Disk)
      → length (listed ((p, content) ∷ files))
        ≡ length (listed ((p, text) ∷ [])) + length (listed files)
  unfolding list_files pick
  length-listed p content text files = elim (Option-cases (after dir p)) [
    | inl a ↦ ground (arith, a)
    | inr (name, a) ↦ ground (arith, a, Bool-cases (is_entry name))
  ]

  -- A file that is written is at most one more.
  pub listed-write_file-le :
      (path text : Text) (disk : Disk)
      → length (listed (write_file path text disk))
        ≤ length (listed disk) + length (listed ((path, text) ∷ []))
  unfolding write_file
  listed-write_file-le path text [] = omega arith
  listed-write_file-le path text ((p, content) ∷ files) = elim (Bool-cases (text_eq p path)) [
    | inl e ↦
        rw e (omega (arith, length-listed p text text files, length-listed p content text files))
    | inr e ↦ rw e (
        omega (
          arith,
          length-listed p content text (write_file path text files),
          length-listed p content text files,
          listed-write_file-le path text files,
        ))
  ]

  pub listed_one_le : (path text : Text) → length (listed ((path, text) ∷ [])) ≤ 1
  unfolding list_files pick
  listed_one_le path text = ground arith

  -- An index is never in the list.
  pub listed_index :
      (name text : Text) → listed ((form_index_file_name (dir ++ name), text) ∷ []) ≡ []
  unfolding list_files pick form_index_file_name
  listed_index name text =
      let index = name ++ metric_index_file_suffix in
      elim (Bool-cases (is_entry index)) [
        | inl e ↦
            rw
              (
                list_files,
                append_assoc dir name metric_index_file_suffix,
                append-after dir index,
                e,
                ends_with_suffix name metric_index_file_suffix,
              )
              (ground arith)
        | inr e ↦
            rw
              (
                list_files,
                append_assoc dir name metric_index_file_suffix,
                append-after dir index,
                e,
              )
              refl
      ]
