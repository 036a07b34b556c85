-- ===== src/Sph/Threads.antt =====
-- The thread numbers over a whole call.
use mathlib.Core.Path.{subst}
use sentinel_cpp.Prelude.{
  ℕ, ◌≡◌, refl, sym, ap, ◌∙◌, arith, if◌then◌else◌, Bool, true, false, Option, some, List, [], ◌∷◌,
  ◌++◌, All, Double, Option-cases, inl, inr,
}
use sentinel_cpp.Stat.Storage.{NodeRef, load_node}
use sentinel_cpp.Slot.Token.{TokenResult, is_ok}
use sentinel_cpp.Slot.Builder.Threads.{builder_keeps}
use sentinel_cpp.Slot.Statistic.{statistic_entry}
use sentinel_cpp.Slot.Statistic.Threads.{threads_of}
use sentinel_cpp.Slot.Chain.{Slot, rule_checker_slot, run_slots, is_continue}
use sentinel_cpp.System.Threads.{system_slot_threads}
use sentinel_cpp.Flow.Checker.Threads.{flow_slot_threads}
use sentinel_cpp.Param.Cache.{Cache}
use sentinel_cpp.Param.Slot.{metric_calls}
use sentinel_cpp.Log.Block.{log_slot_entry}
use sentinel_cpp.Sph.{
  World, storage_of, set_last, builder_slot, log_slot, system_slot, flow_slot, param_flow_slot,
  checker_slot, statistic_slot, complete_stat_slot,
}
use sentinel_cpp.Sph.Named.{
  named, named-system_slot, named-flow_slot, named-param_slot, named-checker_slot,
}

module _ {C D : Type 0} where
  -- The thread number of a node.
  abbrev pub threads_in : NodeRef → World C D → Option ℕ
  threads_in r w = threads_of r (storage_of w)

  -- What the rule checkers leave as it is.
  abbrev pub IsSame : NodeRef → World C D → World C D → Type 0
  IsSame r v w =
      (threads_in r w ≡ threads_in r v)
      × (w.entry ≡ v.entry)
      × (w.context ≡ v.context)
      × (w.node ≡ v.node)

  -- A rule checker that leaves that as it is, and names the reason of a block.
  abbrev pub Checks : NodeRef → Slot (World C D) → Type 0
  Checks r slot =
      (slot.slot_type ≡ rule_checker_slot)
      × ((w : World C D) → IsSame r w (slot.entry w).1 × (named (slot.entry w).0 ≡ true))

  IsSame-trans : (r : NodeRef) (u v w : World C D) → IsSame r u v → IsSame r v w → IsSame r u w
  IsSame-trans r u v w (a, b, c, e) (a', b', c', e') = (a' ∙ a, b' ∙ b, c' ∙ c, e' ∙ e)

  -- A rule checker in a chain, by the test of the result before it.
  run_checker :
      (slot : Slot (World C D)) (slots : List (Slot (World C D))) (token : TokenResult)
      (w : World C D) (b : Bool)
      → slot.slot_type ≡ rule_checker_slot
      → is_ok token ≡ b
      → run_slots set_last (slot ∷ slots) token w
        ≡ (let x = if b then slot.entry w else (token, w) in run_slots set_last slots x.0 x.1)
  unfolding run_slots is_continue
  run_checker slot slots token w b e q =
      ap
        (λ k.
          let c = is_continue set_last k token w in
          let x = if c.0 then slot.entry c.1 else (token, c.1) in run_slots set_last slots x.0 x.1)
        e
      ∙ ap (λ c. let x = if c then slot.entry w else (token, w) in run_slots set_last slots x.0 x.1)
          q

  pub checkers_leave :
      (r : NodeRef) (slots : List (Slot (World C D))) (token : TokenResult) (w : World C D)
      → All (Checks r) slots
      → named token ≡ true
      → IsSame r w (run_slots set_last slots token w).1
        × (named (run_slots set_last slots token w).0 ≡ true)
  unfolding run_slots is_continue
  checkers_leave r [] token w h n = ((refl, refl, refl, refl), n)
  checkers_leave r (slot ∷ slots) token w h n =
      by_token (is_ok token) refl (λ t v n'. checkers_leave r slots t v h.1 n')
    where
      Left : TokenResult × World C D → Type 0
      Left x = IsSame r w x.1 × (named x.0 ≡ true)

      by_token :
          (b : Bool)
          → is_ok token ≡ b
          → ((t : TokenResult) (v : World C D)
              → named t ≡ true
              → IsSame r v (run_slots set_last slots t v).1
                × (named (run_slots set_last slots t v).0 ≡ true))
          → Left (run_slots set_last (slot ∷ slots) token w)
      by_token true e ih =
          let (same, n') = h.0.1 w in
          let (rest, n'') = ih (slot.entry w).0 (slot.entry w).1 n' in
          subst Left (sym (run_checker slot slots token w true h.0.0 e)) (
            IsSame-trans r w (slot.entry w).1
                (run_slots set_last slots (slot.entry w).0 (slot.entry w).1).1 same rest,
            n'',
          )
      by_token false e ih =
          subst Left (sym (run_checker slot slots token w false h.0.0 e)) (ih token w n)

  pub run_slots-append :
      (xs ys : List (Slot (World C D))) (token : TokenResult) (w : World C D)
      → run_slots set_last (xs ++ ys) token w
        ≡ run_slots set_last ys (run_slots set_last xs token w).0 (run_slots set_last xs token w).1
  unfolding run_slots
  run_slots-append [] ys token w = refl
  run_slots-append (x ∷ xs) ys token w = run_slots-append xs ys _ _

module _ {C D : Type 0} (ops : Cache C) ⦃d : Double D⦄ where
  -- The four rule checkers of the chain, and the slots after them.
  unfoldable pub checkers : List (Slot (World C D))
  checkers = system_slot ops ∷ flow_slot ops ∷ param_flow_slot ops ∷ checker_slot ops ∷ []

  unfoldable pub counters : List (Slot (World C D))
  counters = statistic_slot ops ∷ complete_stat_slot ops ∷ log_slot ∷ []

  -- After the counters, from the answer of the rule checkers on: the answer and the nodes are those of
  -- the statistic slot, and neither the entry nor the context's tag node changes after it.
  pub counters_end :
      (token : TokenResult) (w : World C D)
      → let o =
          statistic_entry
            (metric_calls ops w.params w.now)
            w.entry
            (set_last token w).context
            w.node
            w.count
            w.now
            (storage_of w)
            w.metrics in
        let (t, v) = run_slots set_last counters token w in
        (t ≡ o.result)
        × (storage_of v ≡ o.storage)
        × (v.entry ≡ o.entry)
        × (v.context.tag_node ≡ w.context.tag_node)
  unfolding run_slots is_continue counters statistic_slot complete_stat_slot log_slot log_slot_entry
  counters_end token w = (refl, refl, refl, refl)

pub checkers-Checks :
    {C D : Type 0} (ops : Cache C) (d : Double D) (r : NodeRef)
    → All (Checks r) (checkers ops ⦃d = d⦄)
unfolding checkers system_slot flow_slot param_flow_slot checker_slot
checkers-Checks ops d r = (
  (
    refl,
    λ w. (
      (
        system_slot_threads ⦃d = d⦄ w.load w.usage w.now w.entry w.count w.system_rules r
            (storage_of w),
        refl,
        refl,
        refl,
      ),
      named-system_slot ⦃d = d⦄ w.load w.usage w.now w.entry w.count w.system_rules (storage_of w),
    ),
  ),
  (
    (
      refl,
      λ w. (
        (
          flow_slot_threads ⦃d = d⦄ w.entry w.context w.node w.count w.now r
              (record (w.flow) { slept = 0 }),
          refl,
          refl,
          refl,
        ),
        named-flow_slot ⦃d = d⦄ w.entry w.context w.node w.count w.now
            (record (w.flow) { slept = 0 }),
      ),
    ),
    (
      (
        refl,
        λ w. (
          (refl, refl, refl, refl),
          named-param_slot ⦃d = d⦄ ops w.entry w.param_rules w.count w.params w.now w.metrics,
        ),
      ),
      (
        (
          refl,
          λ w. ((refl, refl, refl, refl), named-checker_slot ⦃d = d⦄ w.entry w.now w.breakers),
        ),
        tt,
      ),
    ),
  ),
)

-- A node that is there keeps its thread number in the builder's entry.
pub builder_threads :
    {C D : Type 0} (r : NodeRef) (w : World C D) (n : ℕ)
    → threads_in r w ≡ some n
    → threads_in r (builder_slot.entry w).1 ≡ some n
unfolding builder_slot
builder_threads r w n h = elim (Option-cases (load_node r (storage_of w))) [
  | inl e ↦ absurd (ground (arith, e, h))
  | inr (x, e) ↦ ground (arith, e, h, builder_keeps w.config w.entry w.context r (storage_of w) x e)
]
