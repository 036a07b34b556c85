-- ===== src/Slot/Entry.antt =====
-- sentinel-core/common/entry.h, entry_context.h, entry_type.h, string_resource_wrapper.h: an entry
-- into a resource and its context. An entry holds its context by a pointer, which other entries may
-- hold too: the context is kept apart from the entry. Parameters of the call are not part of it.
use sentinel_cpp.Prelude.{ℕ, Bool, not, Option, String, str_eq}
use sentinel_cpp.Stat.Storage.{NodeRef}
use sentinel_cpp.Slot.Token.{TokenResult}

pub data EntryType : Type 0 where
  inbound outbound : EntryType

pub record EntryContext : Type 0 where
  pub tag : String
  pub tag_node : Option NodeRef
  pub last_token_result : Option TokenResult

-- `rt` is the pattern of an `int64_t`.
pub record Entry : Type 0 where
  pub resource : String
  pub entry_type : EntryType
  pub create_time : ℕ
  pub exited : Bool
  pub rt : ℕ
  pub error : String
  pub block_error : String
  pub cur_node : Option NodeRef

abbrev pub has_error : Entry → Bool
has_error e = not (str_eq e.error "")

abbrev pub has_block_error : Entry → Bool
has_block_error e = not (str_eq e.block_error "")
