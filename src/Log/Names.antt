-- ===== src/Log/Names.antt =====
-- The names of the metric files, in sentinel-core/log/metric/metric_writer.h and metric_writer.cc.
-- `format_date` is the date of a Unix time in milliseconds, "%Y-%m-%d".
pub mod Listing
use sentinel_cpp.Prelude.{
  ℕ, zero, suc, ◌==◌, ltb, leb, if◌then◌else◌, Bool, true, false, not, ◌&&◌, Option, none, some,
  List, [], ◌∷◌, ◌++◌, map, length, sext32, add_int,
}
use sentinel_cpp.Log.Format.{Text, Format}
use sentinel_cpp.Log.Decimal.{print}
use sentinel_cpp.Log.Text.{starts_with, ends_with, has, less, sort, after}
use sentinel_cpp.Log.Stream.{is_digit}
use sentinel_cpp.Log.Disk.{Disk, list_files}

-- kMetricFile, "metrics.log"
abbrev pub metric_file : Text
metric_file = b'm' ∷ b'e' ∷ b't' ∷ b'r' ∷ b'i' ∷ b'c' ∷ b's' ∷ b'.' ∷ b'l' ∷ b'o' ∷ b'g' ∷ []

-- kMetricIndexFileSuffix, ".idx"
abbrev pub metric_index_file_suffix : Text
metric_index_file_suffix = b'.' ∷ b'i' ∷ b'd' ∷ b'x' ∷ []

-- ".lck"
abbrev pub lock_file_suffix : Text
lock_file_suffix = b'.' ∷ b'l' ∷ b'c' ∷ b'k' ∷ []

-- "pid"
abbrev pub pid_text : Text
pid_text = b'p' ∷ b'i' ∷ b'd' ∷ []

-- FormMetricFileName; whether the pid is used is LogBase's.
unfoldable pub form_metric_file_name : Bool → Text → ℕ → Text
form_metric_file_name use_pid app_name pid =
    let file_name = map (λ c. if c == b'.' then b'-' else c) app_name ++ b'-' ∷ metric_file in
    if use_pid then file_name ++ b'.' ∷ pid_text ++ print pid else file_name

unfoldable pub form_index_file_name : Text → Text
form_index_file_name metric_file_name = metric_file_name ++ metric_index_file_suffix

-- The steps of a regular expression over what is left of a text.
eat : ℕ → Option Text → Option Text
eat c none = none
eat c (some []) = none
eat c (some (x ∷ s)) = if x == c then some s else none

eat_digits : ℕ → Option Text → Option Text
eat_digits zero o = o
eat_digits (suc n) none = none
eat_digits (suc n) (some []) = none
eat_digits (suc n) (some (x ∷ s)) = eat_digits n (if is_digit x then some s else none)

all_digits : Text → Bool
all_digits [] = true
all_digits (c ∷ s) = let rest = all_digits s in is_digit c && rest

-- "(\\.[0-9]*)?"
ends_date : Option Text → Bool
unfolding all_digits
ends_date none = false
ends_date (some []) = true
ends_date (some (c ∷ s)) = c == b'.' && all_digits s

-- "\\.[0-9]{4}-[0-9]{2}-[0-9]{2}(\\.[0-9]*)?"
matches_date : Text → Bool
unfolding eat eat_digits ends_date
matches_date part =
    ends_date
      (eat_digits 2 (eat b'-' (eat_digits 2 (eat b'-' (eat_digits 4 (eat b'.' (some part)))))))

-- "[0-9]{1,10}"
matches_number : Text → Bool
unfolding all_digits
matches_number s = ltb 0 (length s) && leb (length s) 10 && all_digits s

unfoldable pub file_name_matches : Text → Text → Bool
unfolding matches_date after
file_name_matches file_name base_file_name = elim (after base_file_name file_name) [
  | none ↦ false
  | some part ↦ matches_date part
]

-- The part of a name at an index; the names that are compared have it.
part_at : ℕ → List Text → Text
part_at i [] = []
part_at zero (x ∷ xs) = x
part_at (suc i) (x ∷ xs) = part_at i xs

last_part : Text → List Text → Text
last_part x [] = x
last_part x (y ∷ ys) = last_part y ys

-- The order of the dates, then of the lengths, then of the names.
by_date : Text → Text → Text → Text → Bool
by_date date1 date2 name1 name2 =
    if less date1 date2
    then true
    else if less date2 date1
    then false
    else if length name1 == length name2
    then less name1 name2
    else ltb (length name1) (length name2)

module _ (f : Format) where
  unfoldable pub metric_file_name_comparator : Text → Text → Bool
  unfolding part_at by_date
  metric_file_name_comparator name1 name2 =
      let l1 = f.str_split b'.' name1 in
      let l2 = f.str_split b'.' name2 in
      if starts_with (part_at 2 l1) pid_text
      then by_date (part_at 3 l1) (part_at 3 l2) name1 name2
      else by_date (part_at 2 l1) (part_at 2 l2) name1 name2

  -- The names that are no index and no lock, with the directory in front.
  pub pick : (Text → Bool) → Text → List Text → List Text
  unfolding ends_with
  pick test dir [] = []
  pick test dir (name ∷ names) =
      let rest = pick test dir names in
      if test name
        && not (ends_with name metric_index_file_suffix)
        && not (ends_with name lock_file_suffix)
      then (dir ++ name) ∷ rest
      else rest

  unfoldable pub list_metric_files : Text → Text → Disk → List Text
  unfolding pick sort metric_file_name_comparator file_name_matches list_files
  list_metric_files base_dir base_file_name disk =
      sort metric_file_name_comparator
        (pick (λ name. file_name_matches name base_file_name) base_dir (list_files base_dir disk))

  -- The number at the end of a name, 0 without one.
  file_number : Text → ℕ
  unfolding last_part matches_number
  file_number name =
      let field = last_part [] (f.str_split b'.' name) in
      if matches_number field
      then elim (f.simple_atoi field) [ none ↦ 0 | some val ↦ sext32 val ]
      else 0

  unfoldable pub next_file_name_of_day : (ℕ → Text) → Text → Text → ℕ → Disk → Text
  unfolding pick sort has last_part file_number metric_file_name_comparator list_files
  next_file_name_of_day format_date base_dir base_file_name time disk =
      let model = base_file_name ++ b'.' ∷ format_date time in
      let files =
        sort metric_file_name_comparator
          (pick (λ name. has name model) base_dir (list_files base_dir disk)) in
      elim files [
        | [] ↦ base_dir ++ model
        | x ∷ xs ↦ base_dir ++ model ++ b'.' ∷ print (add_int (file_number (last_part x xs)) 1)
      ]
