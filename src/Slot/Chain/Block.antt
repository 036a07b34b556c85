-- ===== src/Slot/Chain/Block.antt =====
-- What a chain does once a slot has blocked the request.
use sentinel_cpp.Prelude.{◌≡◌, ◌⊎◌, inl, inr, refl, ap, ◌∙◌, arith, List, [], ◌∷◌, All}
use sentinel_cpp.Slot.Token.{TokenResult, blocked}
use sentinel_cpp.Slot.Chain.{Slot, SlotType, rule_checker_slot, stats_slot, run_slots, is_continue}

-- A statistic slot that is told of a blocked result answers that result.
abbrev pub PassesOn : {S : Type 0} → (TokenResult → S → S) → Slot S → Type 0
PassesOn set_last slot =
    (token : TokenResult) (s : _)
    → slot.slot_type ≡ stats_slot
    → token.status ≡ blocked
    → (slot.entry (set_last token s)).0 ≡ token

-- The slots that are not rule checkers.
abbrev pub only_stats : {S : Type 0} → List (Slot S) → List (Slot S)
only_stats [] = []
only_stats (slot ∷ slots) = elim slot.slot_type [
  | stats_slot ↦ slot ∷ only_stats slots
  | rule_checker_slot ↦ only_stats slots
]

SlotType-cases : (k : SlotType) → (k ≡ rule_checker_slot) ⊎ (k ≡ stats_slot)
SlotType-cases rule_checker_slot = inl refl
SlotType-cases stats_slot = inr refl

-- In a chain whose statistic slots pass a blocked result on, a blocked request stays blocked with
-- that result, and the rule checkers that follow are not run.
pub block_skips_checkers :
    {S : Type 0} (set_last : TokenResult → S → S) (slots : List (Slot S)) (token : TokenResult)
    (s : S)
    → All (PassesOn set_last) slots
    → token.status ≡ blocked
    → ((run_slots set_last slots token s).0 ≡ token)
      × (run_slots set_last slots token s ≡ run_slots set_last (only_stats slots) token s)
unfolding run_slots is_continue
block_skips_checkers set_last [] token s h b = (refl, refl)
block_skips_checkers set_last (slot ∷ slots) token s h b = elim (SlotType-cases slot.slot_type) [
  | inl e ↦ ground (arith, e, b, block_skips_checkers set_last slots token s h.1 b)
  | inr e ↦
      let answer = slot.entry (set_last token s) in
      let same = h.0 token s e b in
      let rest =
        block_skips_checkers set_last slots answer.0 answer.1 h.1 (ap (λ t. t.status) same ∙ b) in
      ground (arith, e, b, same, rest)
]
