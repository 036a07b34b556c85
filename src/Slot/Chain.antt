-- ===== src/Slot/Chain.antt =====
-- sentinel-core/slot/base: default_slot_chain_impl.h and .cc, rule_checker_slot.h, stats_slot.h.
-- A slot is its kind and what its `Entry` and `Exit` do to the state `S` of the whole, the context of
-- the entry included; `set_last` is the context's `set_last_token_result`.
pub mod Block
use sentinel_cpp.Prelude.{if◌then◌else◌, Bool, true, false, List, [], ◌∷◌, ◌++◌}
use sentinel_cpp.Slot.Token.{TokenResult, is_ok, ok_result}

-- The source names a third type, for preparing slots, which no slot of it has.
pub data SlotType : Type 0 where
  rule_checker_slot stats_slot : SlotType

pub record Slot (S : Type 0) : Type 0 where
  pub slot_type : SlotType
  pub entry : S → TokenResult × S
  pub exit : S → S

module _ {S : Type 0} (set_last : TokenResult → S → S) where
  -- RuleCheckerSlot::IsContinue, StatsSlot::IsContinue: the answer, and the context afterwards.
  unfoldable pub is_continue : SlotType → TokenResult → S → Bool × S
  is_continue rule_checker_slot token s = (is_ok token, s)
  is_continue stats_slot token s = (true, set_last token s)

  -- The loop of `DefaultSlotChainImpl::Entry`.
  unfoldable pub run_slots : List (Slot S) → TokenResult → S → TokenResult × S
  unfolding is_continue
  run_slots [] token s = (token, s)
  run_slots (slot ∷ slots) token s =
      let (continue, s') = is_continue slot.slot_type token s in
      let (token', s'') = if continue then slot.entry s' else (token, s') in
      run_slots slots token' s''

  unfoldable pub chain_entry : List (Slot S) → S → TokenResult × S
  unfolding run_slots
  chain_entry slots s = run_slots slots ok_result s

module _ {S : Type 0} where
  unfoldable pub chain_exit : List (Slot S) → S → S
  chain_exit [] s = s
  chain_exit (slot ∷ slots) s = chain_exit slots (slot.exit s)

  -- The assertion that a statistic slot is not the first is left out.
  unfoldable pub add_first : Slot S → List (Slot S) → List (Slot S)
  add_first slot slots = slot ∷ slots

  unfoldable pub add_last : Slot S → List (Slot S) → List (Slot S)
  add_last slot slots = slots ++ slot ∷ []
