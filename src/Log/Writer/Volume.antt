-- ===== src/Log/Writer/Volume.antt =====
-- The file that the writer has open, and its index, while no other file is begun.
use sentinel_cpp.Prelude.{
  ℕ, ◌+◌, ◌^◌, ◌<◌, ◌≡◌, refl, ap, sym, ◌∙◌, arith, if◌then◌else◌, Bool, true, false, Option, none,
  some, List, [], ◌∷◌, ◌++◌, length, length-append, lt_int64, Bool-cases, inl, inr, ◌⊎◌, All, sub64,
  div_int64,
}
use sentinel_cpp.Log.Format.{Text, Format}
use sentinel_cpp.Log.Item.{MetricItem}
use sentinel_cpp.Log.Text.{text_eq}
use sentinel_cpp.Log.Disk.{Disk, read_file, write_file}
use sentinel_cpp.Log.Disk.Laws.{read-write_self, read-write_other, text_eq_shorter, text_eq_longer}
use sentinel_cpp.Log.Names.{form_index_file_name}
use sentinel_cpp.Log.Writer.{
  Host, MetricWriter, content_of, put, tellp, lines_text, index_line, write_index, do_write,
  is_exceed_max_single_file_size,
}
use sentinel_cpp.Log.Writer.Batches.{
  Batch, second_at, first_entry, first_entry-append, first_of, batches_text, start_of,
  batches_text-append, start_of-append,
}
use sentinel_cpp.Log.Searcher.Index.{index_text, index_text-append, AreSmall}

-- The day of a second, as IsNewDay has it.
abbrev pub day_of : Host → ℕ → ℕ
day_of host second = div_int64 (sub64 second host.time_second_base) 86400

put-eq :
    (name text s : Text) (disk : Disk)
    → read_file name disk ≡ some s
    → put (some name) text disk ≡ write_file name (s ++ text) disk
unfolding put
put-eq name text s disk h = rw (h, content_of) refl

tellp-eq :
    (name s : Text) (disk : Disk) → read_file name disk ≡ some s → tellp (some name) disk ≡ length s
unfolding tellp
tellp-eq name s disk h = rw (h, content_of) refl

-- With something at the end, there is something.
first_of-some : (o : Option ℕ) (b : ℕ) → (a : ℕ) × (first_of o (some b) ≡ some a)
first_of-some none b = (b, refl)
first_of-some (some a) b = (a, refl)

first_of-none : (o : Option ℕ) → first_of o none ≡ o
first_of-none none = refl
first_of-none (some a) = refl

All-snoc :
    {A : Type 0} (P : A → Type 0) (xs : List A) (x : A) → All P xs → P x → All P (xs ++ x ∷ [])
All-snoc P [] x h p = (p, tt)
All-snoc P (y ∷ xs) x h p = (h.0, All-snoc P xs x h.1 p)

module _ (f : Format) (host : Host) (size total : ℕ) (base name : Text) where
  -- The writer with a file open.
  abbrev pub opened : ℕ → Bool → Disk → MetricWriter
  opened last first disk = record {
    single_file_size = size;
    total_file_count = total;
    base_file_name = base;
    metric_out = some name;
    metric_index_out = some (form_index_file_name name);
    last_second = last;
    first_write = first;
    disk = disk;
  }

  -- The file holds the writes, and the index an entry for each second of theirs.
  pub record Holds (calls : List Batch) (entries : List (ℕ × ℕ)) (last : ℕ) (first : Bool)
      (disk : Disk) : Type 0 where
    pub content : read_file name disk ≡ some (batches_text f calls)
    pub index : read_file (form_index_file_name name) disk ≡ some (index_text entries)
    pub covered :
        (first ≡ true)
        ⊎ ((b : ℕ) → lt_int64 last b ≡ false → (o : ℕ) × (first_entry b entries ≡ some o))
    pub finds : (b : ℕ) → first_entry b entries ≡ start_of f b 0 calls
    pub small : AreSmall entries

  index-ne-name : text_eq name (form_index_file_name name) ≡ false
  unfolding form_index_file_name
  index-ne-name = text_eq_shorter name _ (omega (arith, length-append name _))

  pub name-ne-index : text_eq (form_index_file_name name) name ≡ false
  unfolding form_index_file_name
  name-ne-index = text_eq_longer _ name (omega (arith, length-append name _))

  exceed-eq :
      (last : ℕ) (first : Bool) (disk : Disk) (s : Text)
      → read_file name disk ≡ some s
      → lt_int64 (length s) size ≡ true
      → is_exceed_max_single_file_size (opened last first disk) ≡ false
  unfolding is_exceed_max_single_file_size
  exceed-eq last first disk s h k = rw (tellp-eq name s disk h, k) refl

  -- Writing items, where the file does not grow to the limit.
  pub do_write-eq :
      (time last : ℕ) (nodes : List MetricItem) (first : Bool) (disk : Disk) (s : Text)
      → read_file name disk ≡ some s
      → lt_int64 (length (s ++ lines_text f nodes)) size ≡ true
      → do_write f host time nodes (opened last first disk)
        ≡ opened last first (write_file name (s ++ lines_text f nodes) disk)
  unfolding do_write
  do_write-eq time last nodes first disk s h k =
      rw (put-eq name (lines_text f nodes) s disk h)
        (rw (exceed-eq last first _ _ (read-write_self name (s ++ lines_text f nodes) disk) k) refl)

  -- Writing an index entry for the items that are to come.
  pub write_index-eq :
      (second last : ℕ) (first : Bool) (disk : Disk) (s t : Text)
      → read_file name disk ≡ some s
      → read_file (form_index_file_name name) disk ≡ some t
      → write_index second (tellp (some name) disk) (opened last first disk)
        ≡ opened last first
            (write_file (form_index_file_name name) (t ++ index_line second (length s)) disk)
  unfolding write_index
  write_index-eq second last first disk s t h k =
      rw (tellp-eq name s disk h)
        (rw (put-eq (form_index_file_name name) (index_line second (length s)) t disk k) refl)

  module _ (time : ℕ) (nodes : List MetricItem) (calls : List Batch) (entries : List (ℕ × ℕ))
      (disk : Disk) where
    -- What becomes of the disk with an entry, and without one.
    abbrev pub with_entry : Disk
    with_entry = write_file name (batches_text f calls ++ lines_text f nodes) (
        write_file (form_index_file_name name)
          (index_text entries ++ index_line (second_at time) (length (batches_text f calls))) disk)

    abbrev pub without_entry : Disk
    without_entry = write_file name (batches_text f calls ++ lines_text f nodes) disk

    abbrev pub calls' : List Batch
    calls' = calls ++ (time, nodes) ∷ []

    abbrev pub entries' : List (ℕ × ℕ)
    entries' = entries ++ (second_at time, length (batches_text f calls)) ∷ []

    pub with_entry-Holds :
        (last : ℕ) (first first' : Bool)
        → Holds calls entries last first disk
        → second_at time < 2 ^ 63
        → length (batches_text f calls) < 2 ^ 63
        → Holds calls' entries' (second_at time) first' with_entry
    with_entry-Holds last first first' h small_second small_offset = record {
      content = read-write_self name _ _ ∙ ap some (sym (batches_text-append f calls time nodes));
      index =
          read-write_other name (form_index_file_name name) _ _ index-ne-name
          ∙ read-write_self (form_index_file_name name) _ disk
          ∙ ap some (index_text-append entries (second_at time) _);
      covered =
          inr λ b k. rw (first_entry-append b (second_at time) _ entries, k) (first_of-some _ _);
      finds = λ b.
          first_entry-append b (second_at time) _ entries
          ∙ ap
              (λ o. first_of o (
                if lt_int64 (second_at time) b then none else some (length (batches_text f calls))))
              (h.finds b)
          ∙ sym (
              start_of-append f b 0 calls time nodes
              ∙ ap
                  (λ k.
                    first_of (start_of f b 0 calls)
                      (if lt_int64 (second_at time) b then none else some k))
                  (omega arith));
      small = All-snoc _ entries _ h.small (small_second, small_offset);
    }

    pub without_entry-Holds :
        (first : Bool)
        → Holds calls entries (second_at time) first disk
        → first ≡ false
        → Holds calls' entries (second_at time) first without_entry
    without_entry-Holds first h k = record {
      content = read-write_self name _ _ ∙ ap some (sym (batches_text-append f calls time nodes));
      index = read-write_other name (form_index_file_name name) _ _ index-ne-name ∙ h.index;
      covered = h.covered;
      finds = λ b. h.finds b ∙ sym (start_of-append f b 0 calls time nodes ∙ known h.covered b);
      small = h.small;
    }
      where
        known :
            (first ≡ true)
              ⊎ ((b : ℕ)
                  → lt_int64 (second_at time) b ≡ false
                  → (o : ℕ) × (first_entry b entries ≡ some o))
            → (b : ℕ)
            → first_of (start_of f b 0 calls) (
                if lt_int64 (second_at time) b
                then none
                else some (0 + length (batches_text f calls)))
              ≡ start_of f b 0 calls
        known (inl e) b = absurd (ground (arith, e, k))
        known (inr g) b = elim (Bool-cases (lt_int64 (second_at time) b)) [
          | inl e ↦ rw e (first_of-none (start_of f b 0 calls))
          | inr e ↦ let (o, q) = g b e in rw (e, sym (h.finds b), q) refl
        ]
