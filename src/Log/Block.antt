-- ===== src/Log/Block.antt =====
-- sentinel-core/log/block: block_log_task.h and .cc, the records of the blocked calls that a thread
-- writes out once a second, and slot/log_slot.cc. A line that is written is its time and its key.
pub mod Once
use sentinel_cpp.Prelude.{
  ℕ, if◌then◌else◌, Bool, not, none, some, List, [], ◌∷◌, ◌++◌, String, lookup, insert, sub64,
  lt_int64,
}
use Prim.Native.String.{◌++◌ as append}
use sentinel_cpp.Slot.Token.{TokenResult, ok_result, is_blocked}
use sentinel_cpp.Slot.Entry.{Entry, EntryContext}

pub record BlockLogRecord : Type 0 where
  pub last_write : ℕ
  pub last_block : ℕ

-- `has_logger` is that the pointer to the logger is not null, and `written` what it was given.
pub record BlockLogTask : Type 0 where
  pub has_logger : Bool
  pub records : List (String × BlockLogRecord)
  pub written : List (ℕ × String)

-- "%s|%s"
abbrev pub key_of : String → String → String
key_of resource cause = append resource (append "|" cause)

-- BlockLogTask::Log
unfoldable pub log : String → String → ℕ → BlockLogTask → BlockLogTask
log resource cause now t =
    if not t.has_logger then t else elim (lookup (key_of resource cause) t.records) [
      | some r ↦ record t {
        records = insert (key_of resource cause) (record r { last_block = now }) t.records;
      }
      | none ↦ record t {
        records =
            insert (key_of resource cause) (record { last_write = 0; last_block = now }) t.records;
      }
    ]

-- The lines of one round of `LoopWriteBlockLog`.
unfoldable pub lines_of : ℕ → List (String × BlockLogRecord) → List (ℕ × String)
lines_of now [] = []
lines_of now ((key, r) ∷ records) =
    let rest = lines_of now records in
    if lt_int64 0 (sub64 r.last_block r.last_write) then (now, key) ∷ rest else rest

-- One round of `LoopWriteBlockLog`, which clears the map.
unfoldable pub write_block_log : ℕ → BlockLogTask → BlockLogTask
unfolding lines_of
write_block_log now t =
    if not t.has_logger
    then t
    else record t { records = []; written = t.written ++ lines_of now t.records }

-- LogSlot::Entry, of an entry that has a context.
unfoldable pub log_slot_entry : Entry → EntryContext → ℕ → BlockLogTask → TokenResult × BlockLogTask
unfolding log
log_slot_entry e context now t = elim context.last_token_result [
  | none ↦ (ok_result, t)
  | some prev_result ↦ (
    prev_result,
    if is_blocked prev_result
        then log e.resource
            (elim prev_result.blocked_reason [ none ↦ "unknown" | some reason ↦ reason ]) now t
        else t,
  )
]
