-- ===== src/Log/Writer/Limit.antt =====
-- Which metric files the writer leaves, and how many.
use mathlib.Core.Path.{subst}
use sentinel_cpp.Prelude.{
  ℕ, zero, suc, ◌+◌, ◌-◌, ◌≤◌, ◌≡◌, refl, sym, ap, ◌∙◌, arith, leb, Bool, true, false, not, ◌&&◌,
  ◌||◌, if◌then◌else◌, Option, none, List, [], ◌∷◌, ◌++◌, length, Bool-cases, inl, inr,
}
use sentinel_cpp.Log.Format.{Text, Format}
use sentinel_cpp.Log.Text.{text_eq, ends_with, sort}
use sentinel_cpp.Log.Disk.{Disk, read_file, write_file, remove_file}
use sentinel_cpp.Log.Disk.Laws.{text_eq_self, text_eq-eq, read-remove}
use sentinel_cpp.Log.Names.{
  form_index_file_name, metric_index_file_suffix, list_metric_files, file_name_matches,
  metric_file_name_comparator,
}
use sentinel_cpp.Log.Names.Listing.{
  ends_with_suffix, keep_if, sort-kept, listed, listed-remove_file, listed-write_file-le,
  listed_one_le, listed_index,
}
use sentinel_cpp.Log.Writer.{
  Host, MetricWriter, remove_first, remove_more_files, close_and_new_file, do_close,
}

keep_all : (xs : List Text) → keep_if (λ x. true) xs ≡ xs
keep_all [] = refl
keep_all (x ∷ xs) = ap (◌∷◌ x) (keep_all xs)

length-sort : (before : Text → Text → Bool) (xs : List Text) → length (sort before xs) ≡ length xs
length-sort before xs =
    ap length (sym (keep_all (sort before xs)))
    ∙ sort-kept before (λ x. true) xs
    ∙ ap length (keep_all xs)

-- Whether the loop removes a path.
removed : ℕ → List Text → Text → Bool
removed zero names p = false
removed (suc n) [] p = false
removed (suc n) (name ∷ names) p =
    text_eq p name || text_eq p (form_index_file_name name) || removed n names p

keep_if_twice :
    (a b c : Text → Bool) (xs : List Text)
    → ((x : Text) → c x ≡ (b x && a x))
    → keep_if a (keep_if b xs) ≡ keep_if c xs
keep_if_twice a b c [] h = refl
keep_if_twice a b c (x ∷ xs) h = ground (arith, h x, keep_if_twice a b c xs h)

keep_if-le :
    (a b : Text → Bool) (xs : List Text)
    → ((x : Text) → a x ≡ true → b x ≡ true)
    → length (keep_if a xs) ≤ length (keep_if b xs)
keep_if-le a b [] h = omega arith
keep_if-le a b (x ∷ xs) h = ground (arith, h x, keep_if-le a b xs h)

length-keep_if : (a : Text → Bool) (xs : List Text) → length (keep_if a xs) ≤ length xs
length-keep_if a [] = omega arith
length-keep_if a (x ∷ xs) = ground (arith, length-keep_if a xs)

-- The names that the loop leaves of its own list.
left_over :
    (n : ℕ) (names : List Text)
    → length (keep_if (λ p. not (removed n names p)) names) ≤ length names - n
unfolding removed
left_over zero names = omega (arith, length-keep_if (λ p. true) names)
left_over (suc n) [] = omega arith
left_over (suc n) (name ∷ names) = ground (
  arith,
  text_eq_self name,
  keep_if-le (λ p. not (removed (suc n) (name ∷ names) p)) (λ p. not (removed n names p)) names
      (λ p h. ground (arith, h)),
  left_over n names,
)

-- Whether a path is one of the first in a list.
abbrev pub among_first : ℕ → List Text → Text → Bool
among_first zero names p = false
among_first (suc n) [] p = false
among_first (suc n) (name ∷ names) p = text_eq p name || among_first n names p

not_index :
    (p name : Text)
    → ends_with p metric_index_file_suffix ≡ false
    → text_eq p (form_index_file_name name) ≡ false
unfolding form_index_file_name
not_index p name h = elim (Bool-cases (text_eq p (form_index_file_name name))) [
  | inr e ↦ e
  | inl e ↦
      let same = text_eq-eq p (form_index_file_name name) e in
      absurd (
        ground (
          arith,
          subst (λ x. ends_with x metric_index_file_suffix ≡ false) same h,
          ends_with_suffix name metric_index_file_suffix,
        ))
]

module _ (f : Format) (host : Host) where
  listed-remove_first :
      (test : Text → Bool) (dir : Text) (n : ℕ) (names : List Text) (disk : Disk)
      → listed f test dir (remove_first f host n names disk)
        ≡ keep_if (λ p. not (removed n names p)) (listed f test dir disk)
  unfolding remove_first removed
  listed-remove_first test dir zero names disk = sym (keep_all (listed f test dir disk))
  listed-remove_first test dir (suc n) [] disk = sym (keep_all (listed f test dir disk))
  listed-remove_first test dir (suc n) (name ∷ names) disk =
      let index = form_index_file_name name in
      listed-remove_first test dir n names (remove_file index (remove_file name disk))
      ∙ ap (keep_if (λ p. not (removed n names p))) (
          listed-remove_file f test dir index (remove_file name disk)
          ∙ ap (keep_if (λ p. not (text_eq p index))) (listed-remove_file f test dir name disk))
      ∙ ap (keep_if (λ p. not (removed n names p))) (
          keep_if_twice (λ p. not (text_eq p index)) (λ p. not (text_eq p name))
            (λ p. not (text_eq p name) && not (text_eq p index)) (listed f test dir disk)
            (λ p. refl))
      ∙ keep_if_twice (λ p. not (removed n names p))
          (λ p. not (text_eq p name) && not (text_eq p index))
          (λ p. not (removed (suc n) (name ∷ names) p)) (listed f test dir disk) (λ p. ground arith)

  abbrev named : MetricWriter → Text → Bool
  named w name = file_name_matches name w.base_file_name

  listing :
      (w : MetricWriter) (disk : Disk)
      → list_metric_files f host.base_dir w.base_file_name disk
        ≡ sort (metric_file_name_comparator f) (listed f (named w) host.base_dir disk)
  unfolding list_metric_files
  listing w disk = refl

  -- After RemoveMoreFiles no more files are listed than the limit says.
  remove_more_files-le :
      (w : MetricWriter)
      → length (listed f (named w) host.base_dir (remove_more_files f host w).disk)
        ≤ w.total_file_count
  unfolding remove_more_files
  remove_more_files-le w =
      let before = listed f (named w) host.base_dir w.disk in
      let names = sort (metric_file_name_comparator f) before in
      let size = length-sort (metric_file_name_comparator f) before in
      elim (Bool-cases (leb (length names) w.total_file_count)) [
        | inl e ↦ rw (remove_more_files, listing w w.disk, e) (ground (arith, e, size))
        | inr e ↦
            rw (remove_more_files, listing w w.disk, e)
              (let k = length names - w.total_file_count in
                let t = λ (p : Text). not (removed k names p) in
                omega (
                  arith,
                  ap length (listed-remove_first (named w) host.base_dir k names w.disk),
                  sort-kept (metric_file_name_comparator f) t before,
                  left_over k names,
                ))
      ]

  -- The loop removes the first files of its list, and of the others no more than indexes.
  read-remove_first :
      (p : Text) (n : ℕ) (names : List Text) (disk : Disk)
      → ends_with p metric_index_file_suffix ≡ false
      → read_file p (remove_first f host n names disk)
        ≡ (if among_first n names p then none else read_file p disk)
  unfolding remove_first
  read-remove_first p zero names disk h = refl
  read-remove_first p (suc n) [] disk h = refl
  read-remove_first p (suc n) (name ∷ names) disk h =
      let index = form_index_file_name name in
      read-remove_first p n names (remove_file index (remove_file name disk)) h
      ∙ ap (λ (o : Option Text). if among_first n names p then none else o)
          (read-remove p index (remove_file name disk)
            ∙ rw (not_index p name h) (read-remove p name disk))
      ∙ by_test (among_first n names p) (text_eq p name) (read_file p disk)
    where
      by_test :
          (a b : Bool) (o : Option Text)
          → (if a then none else if b then none else o) ≡ (if b || a then none else o)
      by_test true true o = refl
      by_test true false o = refl
      by_test false true o = refl
      by_test false false o = refl

  read-remove_more_files :
      (w : MetricWriter) (p : Text)
      → ends_with p metric_index_file_suffix ≡ false
      → let names = list_metric_files f host.base_dir w.base_file_name w.disk in
        read_file p (remove_more_files f host w).disk ≡ (
          if among_first (length names - w.total_file_count) names p
          then none
          else read_file p w.disk)
  unfolding remove_more_files
  read-remove_more_files w p h =
      let names = list_metric_files f host.base_dir w.base_file_name w.disk in
      elim (Bool-cases (leb (length names) w.total_file_count)) [
        | inl e ↦
            let none_over : length names - w.total_file_count ≡ 0 = ground (arith, e) in
            rw (remove_more_files, e, none_over) refl
        | inr e ↦
            rw (remove_more_files, e)
              (read-remove_first p (length names - w.total_file_count) names w.disk h)
      ]

  -- Of the files that are not indexes RemoveMoreFiles removes those by which the metric files are more
  -- than the limit, the first ones in the order of ListMetricFiles, and no other; it leaves at most
  -- as many metric files as the limit says. CloseAndNewFile leaves at most one more, where the new
  -- file is in the writer's directory. The files are counted as ListMetricFiles lists them.
  pub files_limited :
      (w : MetricWriter) (name p : Text)
      → ends_with p metric_index_file_suffix ≡ false
      → (read_file p (remove_more_files f host w).disk ≡ (
          if among_first
            (length (list_metric_files f host.base_dir w.base_file_name w.disk)
              - w.total_file_count)
            (list_metric_files f host.base_dir w.base_file_name w.disk)
            p
          then none
          else read_file p w.disk))
        × (length
              (list_metric_files f host.base_dir w.base_file_name (remove_more_files f host w).disk)
            ≤ w.total_file_count)
        × (length (
              list_metric_files f host.base_dir w.base_file_name
                (close_and_new_file f host (host.base_dir ++ name) w).disk)
            ≤ w.total_file_count + 1)
  unfolding close_and_new_file do_close
  files_limited w name p h =
      let dir = host.base_dir in
      let cut = (remove_more_files f host w).disk in
      let path = dir ++ name in
      let count = λ (disk : Disk).
        length-sort (metric_file_name_comparator f) (listed f (named w) dir disk) in
      let left = remove_more_files-le w in
      (
        read-remove_more_files w p h,
        rw (listing w cut) (omega (arith, count cut, left)),
        (let written = write_file path [] cut in
            let indexed = write_file (form_index_file_name path) [] written in
            rw (listing w indexed) (
              omega (
                arith,
                count indexed,
                listed-write_file-le f (named w) dir (form_index_file_name path) [] written,
                ap length (listed_index f (named w) dir name []),
                listed-write_file-le f (named w) dir path [] cut,
                listed_one_le f (named w) dir path [],
                left,
              ))),
      )
