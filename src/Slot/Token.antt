-- ===== src/Slot/Token.antt =====
-- sentinel-core/slot/base/token_result.h and token_result.cc: what a slot answers.
use sentinel_cpp.Prelude.{ℕ, Bool, true, false, Option, none, some, String}

pub data TokenStatus : Type 0 where
  ok blocked should_wait : TokenStatus

pub record TokenResult : Type 0 where
  pub status : TokenStatus
  pub blocked_reason : Option String
  pub wait_ms : Option ℕ

-- TokenResult::Ok, Blocked, ShouldWait
abbrev pub ok_result : TokenResult
ok_result = record { status = ok; blocked_reason = none; wait_ms = none }

abbrev pub blocked_result : String → TokenResult
blocked_result reason = record { status = blocked; blocked_reason = some reason; wait_ms = none }

abbrev pub should_wait_result : ℕ → TokenResult
should_wait_result ms = record { status = should_wait; blocked_reason = none; wait_ms = some ms }

abbrev pub is_blocked : TokenResult → Bool
is_blocked r = elim r.status [ blocked ↦ true | _ ↦ false ]

abbrev pub is_ok : TokenResult → Bool
is_ok r = elim r.status [ ok ↦ true | _ ↦ false ]
