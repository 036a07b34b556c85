-- ===== src/Sph/Calls.antt =====
-- What a whole call, and its exit, leave of the thread numbers.
use sentinel_cpp.Prelude.{
  ℕ, ◌^◌, ◌<◌, ◌≡◌, refl, sym, ap, ◌∙◌, arith, true, false, none, some, String, Double, Bool-cases,
  inl, inr,
}
use sentinel_cpp.Stat.Storage.{NodeRef, cluster_node_ref}
use sentinel_cpp.Slot.Token.{TokenResult, is_blocked}
use sentinel_cpp.Slot.Entry.{Entry, EntryContext, EntryType, has_block_error}
use sentinel_cpp.Slot.Statistic.{statistic_entry, statistic_exit}
use sentinel_cpp.Slot.Statistic.Threads.{threads_of, entry_exit_balance}
use sentinel_cpp.Param.Cache.{Cache}
use sentinel_cpp.Param.Slot.{metric_calls}
use sentinel_cpp.Sph.{World, storage_of, set_last, answer, sph_u_entry, entry_exit}
use sentinel_cpp.Sph.Threads.{threads_in}
use sentinel_cpp.Sph.Balance.{
  checked, ended, counted, sph_u_entry-answer, checked-IsSame, begun_threads, ended-counted,
  passed_counted, checked-ended, blocked_threads, exit_statistics, exit_storage, begun_entry,
}

module _ {C D : Type 0} (ops : Cache C) ⦃d : Double D⦄ where
  -- A call has an entry exactly where it is not blocked.
  answer_blocked :
      (a : TokenResult × World C D) → (answer ops a).0.entry ≡ none → is_blocked a.0 ≡ true
  unfolding answer
  answer_blocked a h = elim (Bool-cases (is_blocked a.0)) [
    | inl e ↦ e
    | inr e ↦ absurd (ground (arith, e, h))
  ]

  answer_passed :
      (a : TokenResult × World C D) (e : Entry)
      → (answer ops a).0.entry ≡ some e
      → (is_blocked a.0 ≡ false) × ((answer ops a).1 ≡ a.1)
  unfolding answer
  answer_passed a e h = elim (Bool-cases (is_blocked a.0)) [
    | inl q ↦ absurd (ground (arith, q, h))
    | inr q ↦ (q, rw q refl)
  ]

  -- A call of SphU::Entry that is blocked, the exit in it included, leaves the thread number of every
  -- node that was there as it was, whichever of the rules blocked it.
  pub blocked_call_threads :
      (resource : String) (t : EntryType) (w : World C D) (r : NodeRef) (n : ℕ)
      → (sph_u_entry ops true resource t w).0.entry ≡ none
      → threads_in r w ≡ some n
      → threads_in r (sph_u_entry ops true resource t w).1 ≡ some n
  blocked_call_threads resource t w r n b h =
      let same = sph_u_entry-answer ops resource t w in
      ap (λ x. threads_in r x.1) same
      ∙ blocked_threads ops resource t w r n h
          (answer_blocked (ended ops resource t w) (sym (ap (λ x. x.0.entry) same) ∙ b))

  passed_threads :
      (resource : String) (t : EntryType) (w v : World C D) (r : NodeRef) (n : ℕ)
      → is_blocked (ended ops resource t w).0 ≡ false
      → threads_in r w ≡ some n
      → n < 2 ^ 32
      → v.entry ≡ (ended ops resource t w).1.entry
      → v.context ≡ (ended ops resource t w).1.context
      → threads_in r v ≡ threads_in r (ended ops resource t w).1
      → threads_in r (entry_exit ops v).1 ≡ some n
  unfolding counted
  passed_threads resource t w v r n b h k ve vc vt =
      let own = cluster_node_ref resource in
      let token = (checked ops resource t w).0 in
      let c = (checked ops resource t w).1 in
      let context = (set_last token c).context in
      let metric = metric_calls ops c.params c.now in
      let same = (checked-IsSame ops resource t w r).0 in
      let start = begun_entry ops resource t w in
      let done = ended-counted ops resource t w in
      let passed = checked-ended ops resource t w ∙ b in
      let left = (passed_counted ops resource t w passed).0 in
      ap (threads_of r) (
        exit_statistics ops resource t w v
          (ap (λ (x : Entry). x.exited) (ve ∙ done.2 ∙ left ∙ same.1) ∙ start.0)
        ∙ ap
            (λ x.
              (statistic_exit (metric_calls ops v.params v.now) x v.context v.count v.now
                (storage_of v) v.metrics).1)
            (ve ∙ done.2 ∙ left)
        ∙ exit_storage (metric_calls ops v.params v.now) metric c.entry v.context context v.count
            v.now (storage_of v) v.metrics (ap (λ (x : EntryContext). x.tag_node) vc ∙ done.3))
      ∙ entry_exit_balance metric c.entry context own r c.count c.now v.count v.now n (storage_of c)
          (storage_of v) c.metrics v.metrics token refl passed (ap has_block_error same.1 ∙ start.1)
          (ap (λ (x : Entry). x.cur_node) same.1 ∙ start.2) (begun_threads ops resource t w r n h) k
          (vt
            ∙ ap (threads_of r) done.1
            ∙ ap
                (λ o.
                  threads_of r
                    (statistic_entry metric c.entry context o c.count c.now (storage_of c)
                      c.metrics).storage)
                (same.3 ∙ start.3))

  -- For a call of SphU::Entry that passes, and any node that was there with fewer than 2 ^ 32 threads:
  -- if the call's exit finds its entry and its context as they were left, and the node with as many
  -- threads as the call left it with, the exit leaves it with as many as were there before the call.
  pub call_balance :
      (resource : String) (t : EntryType) (w v : World C D) (r : NodeRef) (n : ℕ) (e : Entry)
      → let u = sph_u_entry ops true resource t w in
        u.0.entry ≡ some e
        → threads_in r w ≡ some n
        → n < 2 ^ 32
        → v.entry ≡ u.1.entry
        → v.context ≡ u.1.context
        → threads_in r v ≡ threads_in r u.1
        → threads_in r (entry_exit ops v).1 ≡ some n
  call_balance resource t w v r n e p h k ve vc vt =
      let same = sph_u_entry-answer ops resource t w in
      let (b, left) =
        answer_passed (ended ops resource t w) e (sym (ap (λ x. x.0.entry) same) ∙ p) in
      let world = ap (λ x. x.1) same ∙ left in
      passed_threads resource t w v r n b h k (ve ∙ ap (λ x. x.entry) world)
        (vc ∙ ap (λ x. x.context) world) (vt ∙ ap (threads_in r) world)
