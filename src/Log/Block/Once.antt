-- ===== src/Log/Block/Once.antt =====
-- A round of the writer writes each kind of block once.
use mathlib.Core.Path.{subst}
use sentinel_cpp.Prelude.{
  ℕ, ◌+◌, ◌≡◌, refl, sym, ap, ◌∙◌, arith, if◌then◌else◌, Bool, true, false, ◌||◌, Option, none,
  some, List, [], ◌∷◌, ◌++◌, String, str_eq, eq_iff, lookup, insert, lookup-insert, lt_int64, sub64,
  All, Bool-cases, Option-cases, inl, inr,
}
use sentinel_cpp.Log.Block.{BlockLogRecord, BlockLogTask, key_of, log, lines_of, write_block_log}

-- A blocked call: the resource, the cause, and the time.
abbrev pub Call : Type 0
Call = String × String × ℕ

abbrev pub is_some : {A : Type 0} → Option A → Bool
is_some none = false
is_some (some a) = true

-- How many lines have the key.
abbrev pub count_lines : String → List (ℕ × String) → ℕ
count_lines key [] = 0
count_lines key ((t, k) ∷ ls) =
    let rest = count_lines key ls in if str_eq k key then rest + 1 else rest

-- Whether one of the calls has the key.
abbrev pub mentions : String → List Call → Bool
mentions key [] = false
mentions key ((resource, cause, now) ∷ calls) =
    let rest = mentions key calls in str_eq (key_of resource cause) key || rest

abbrev pub IsLate : Call → Type 0
IsLate (resource, cause, now) = lt_int64 0 now ≡ true

pub log_calls : List Call → BlockLogTask → BlockLogTask
log_calls [] t = t
log_calls ((resource, cause, now) ∷ calls) t = log_calls calls (log resource cause now t)

-- Records of different keys, none written yet, each of a late block.
abbrev IsFresh : List (String × BlockLogRecord) → Type 0
IsFresh [] = Unit
IsFresh ((key, r) ∷ records) =
    (lookup key records ≡ none)
    × (r.last_write ≡ 0)
    × (lt_int64 0 r.last_block ≡ true)
    × IsFresh records

insert-IsFresh :
    (key : String) (r : BlockLogRecord) (records : List (String × BlockLogRecord))
    → r.last_write ≡ 0
    → lt_int64 0 r.last_block ≡ true
    → IsFresh records
    → IsFresh (insert key r records)
insert-IsFresh key r [] z l h = (refl, z, l, tt)
insert-IsFresh key r ((k, q) ∷ records) z l h = elim (Bool-cases (str_eq k key)) [
  | inl e ↦ rw e (h.0, z, l, h.3)
  | inr e ↦ rw e (
    ground (arith, e, h.0, eq_iff k key, eq_iff key k, lookup-insert key k r records),
    h.1,
    h.2,
    insert-IsFresh key r records z l h.3,
  )
]

lookup-IsFresh :
    (key : String) (r : BlockLogRecord) (records : List (String × BlockLogRecord))
    → IsFresh records
    → lookup key records ≡ some r
    → r.last_write ≡ 0
lookup-IsFresh key r [] h e = absurd (ground (arith, e))
lookup-IsFresh key r ((k, q) ∷ records) h e = elim (Bool-cases (str_eq k key)) [
  | inl g ↦
      ap (λ (o : Option BlockLogRecord). elim o [ none ↦ 0 | some x ↦ x.last_write ])
        (sym (subst (λ b. (if b then some q else lookup key records) ≡ some r) g e))
      ∙ h.1
  | inr g ↦ lookup-IsFresh key r records h.3 (ground (arith, e, g))
]

is_late :
    (r : BlockLogRecord)
    → r.last_write ≡ 0
    → lt_int64 0 r.last_block ≡ true
    → lt_int64 0 (sub64 r.last_block r.last_write) ≡ true
is_late r z l = ground (arith, z, l)

count-lines_of :
    (key : String) (now : ℕ) (records : List (String × BlockLogRecord))
    → IsFresh records
    → count_lines key (lines_of now records) ≡ (if is_some (lookup key records) then 1 else 0)
unfolding lines_of
count-lines_of key now [] h = refl
count-lines_of key now ((k, r) ∷ records) h =
    let ih = count-lines_of key now records h.3 in
    elim (Bool-cases (str_eq k key)) [
      | inl e ↦
          let gone = ap (λ x. lookup x records) (sym ((eq_iff k key).0 e)) ∙ h.0 in
          let zero : count_lines key (lines_of now records) ≡ 0 =
            ih ∙ ap (λ (o : Option BlockLogRecord). if is_some o then 1 else 0) gone in
          rw (is_late r h.1 h.2, e) (ap (λ n. n + 1) zero)
      | inr e ↦ rw (is_late r h.1 h.2, e) ih
    ]

log-IsFresh :
    (resource cause : String) (now : ℕ) (t : BlockLogTask)
    → lt_int64 0 now ≡ true
    → IsFresh t.records
    → IsFresh (log resource cause now t).records
unfolding log
log-IsFresh resource cause now t l h = elim (Bool-cases t.has_logger) [
  | inr g ↦ rw (g, log) h
  | inl g ↦ elim (Option-cases (lookup (key_of resource cause) t.records)) [
    | inl e ↦ rw (g, e, log) (insert-IsFresh (key_of resource cause) _ t.records refl l h)
    | inr (r, e) ↦
        rw (g, e, log)
          (insert-IsFresh (key_of resource cause) _ t.records
            (lookup-IsFresh (key_of resource cause) r t.records h e) l h)
  ]
]

is_some-log :
    (key resource cause : String) (now : ℕ) (t : BlockLogTask)
    → t.has_logger ≡ true
    → is_some (lookup key (log resource cause now t).records)
      ≡ (str_eq (key_of resource cause) key || is_some (lookup key t.records))
unfolding log
is_some-log key resource cause now t g =
    elim (Option-cases (lookup (key_of resource cause) t.records)) [
      | inl e ↦
          rw
            (
              g,
              e,
              log,
              lookup-insert (key_of resource cause) key
                  (record { last_write = 0; last_block = now }) t.records,
            )
            (by_key (str_eq (key_of resource cause) key) _ (lookup key t.records))
      | inr (r, e) ↦
          rw
            (
              g,
              e,
              log,
              lookup-insert (key_of resource cause) key (record r { last_block = now }) t.records,
            )
            (by_key (str_eq (key_of resource cause) key) _ (lookup key t.records))
    ]
  where
    by_key :
        (b : Bool) (r : BlockLogRecord) (o : Option BlockLogRecord)
        → is_some (if b then some r else o) ≡ (b || is_some o)
    by_key true r o = refl
    by_key false r o = refl

log_calls-IsFresh :
    (calls : List Call) (t : BlockLogTask)
    → All IsLate calls
    → IsFresh t.records
    → IsFresh (log_calls calls t).records
unfolding log_calls
log_calls-IsFresh [] t l h = h
log_calls-IsFresh ((resource, cause, now) ∷ calls) t l h =
    log_calls-IsFresh calls (log resource cause now t) l.1 (log-IsFresh resource cause now t l.0 h)

log_calls-kept :
    (calls : List Call) (t : BlockLogTask)
    → ((log_calls calls t).has_logger ≡ t.has_logger) × ((log_calls calls t).written ≡ t.written)
unfolding log_calls log
log_calls-kept [] t = (refl, refl)
log_calls-kept ((resource, cause, now) ∷ calls) t =
    let (a, b) = log_calls-kept calls (log resource cause now t) in
    (
      a ∙ ground (arith, Option-cases (lookup (key_of resource cause) t.records)),
      b ∙ ground (arith, Option-cases (lookup (key_of resource cause) t.records)),
    )

is_some-log_calls :
    (key : String) (calls : List Call) (t : BlockLogTask)
    → t.has_logger ≡ true
    → is_some (lookup key (log_calls calls t).records)
      ≡ (mentions key calls || is_some (lookup key t.records))
unfolding log_calls
is_some-log_calls key [] t g = refl
is_some-log_calls key ((resource, cause, now) ∷ calls) t g =
    is_some-log_calls key calls (log resource cause now t)
      ((log_calls-kept ((resource, cause, now) ∷ []) t).0 ∙ g)
    ∙ ground (arith, is_some-log key resource cause now t g)

or-false : (b : Bool) → (b || false) ≡ b
or-false true = refl
or-false false = refl

count_lines-append :
    (key : String) (as' bs : List (ℕ × String))
    → count_lines key (as' ++ bs) ≡ count_lines key as' + count_lines key bs
count_lines-append key [] bs = omega arith
count_lines-append key ((t, k) ∷ as') bs = ground (arith, count_lines-append key as' bs)

-- For a task with a logger and no records, whatever it has written: after any blocked calls at times
-- after 1970 the next round of the writer adds, for each text of a resource and a cause with a bar
-- between them, exactly one line if one of the calls has that text and none otherwise, and leaves no
-- records.
pub block_logged_once :
    (calls : List Call) (now : ℕ) (key : String) (t : BlockLogTask)
    → t.has_logger ≡ true
    → t.records ≡ []
    → All IsLate calls
    → let t' = write_block_log now (log_calls calls t) in
      (count_lines key t'.written
        ≡ count_lines key t.written + (if mentions key calls then 1 else 0))
      × (t'.records ≡ [])
unfolding write_block_log
block_logged_once calls now key t g e l =
    let (g', w') = log_calls-kept calls t in
    let fresh = log_calls-IsFresh calls t l (subst IsFresh (sym e) tt) in
    let some_there = is_some-log_calls key calls t g in
    rw (g' ∙ g, w')
      (
        count_lines-append key t.written (lines_of now (log_calls calls t).records)
            ∙ ap (λ n. count_lines key t.written + n)
                (count-lines_of key now (log_calls calls t).records fresh
                  ∙ ap (λ b. if b then 1 else 0)
                      (some_there
                        ∙ ap (λ rs. mentions key calls || is_some (lookup key rs)) e
                        ∙ or-false (mentions key calls))),
        refl,
      )
