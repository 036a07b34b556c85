-- ===== src/Slot/Statistic/Threads.antt =====
-- The thread numbers of the nodes that an entry counts towards.
use mathlib.Core.Path.{subst}
use sentinel_cpp.Prelude.{
  ℕ, ◌^◌, ◌<◌, ◌≡◌, refl, ap, ◌∙◌, arith, if◌then◌else◌, Bool, true, false, Option, none, some,
  String, str_eq, inc32, dec32, sext32, sub64,
}
use sentinel_cpp.Stat.Bucket.{pass, block, exception}
use sentinel_cpp.Stat.Node.{
  StatisticNode, add_request, add_rt_and_complete, increase_thread_num, decrease_thread_num,
}
use sentinel_cpp.Stat.Storage.{ResourceNodeStorage, NodeRef, modify_node, load_node}
use sentinel_cpp.Slot.Token.{TokenResult, blocked, is_blocked}
use sentinel_cpp.Slot.Entry.{Entry, EntryContext, has_block_error}
use sentinel_cpp.Slot.Statistic.{
  ParamMetric, record_pass_for, record_complete_for, record_block_for, inbound_node, on_pass,
  statistic_entry, statistic_exit, on_block,
}
use sentinel_cpp.Slot.Statistic.Pointers.{same_ref, map_node, load_node-modify_node}

-- The thread number of the node that a pointer leads to.
abbrev pub threads_of : NodeRef → ResourceNodeStorage → Option ℕ
threads_of r s = elim (load_node r s) [ none ↦ none | some n ↦ some n.cur_thread_num ]

abbrev pub map_count : (ℕ → ℕ) → Option ℕ → Option ℕ
map_count f none = none
map_count f (some n) = some (f n)

-- Whether a pointer that may be null leads to the node of `r`.
abbrev pub leads_to : Option NodeRef → NodeRef → Bool
leads_to none r = false
leads_to (some q) r = same_ref q r

pub threads-modify_node :
    (f : StatisticNode → StatisticNode) (g : ℕ → ℕ)
    → ((n : StatisticNode) → (f n).cur_thread_num ≡ g n.cur_thread_num)
    → (q r : NodeRef) (s : ResourceNodeStorage)
    → threads_of r (modify_node f q s)
      ≡ (if same_ref q r then map_count g (threads_of r s) else threads_of r s)
threads-modify_node f g h q r s =
    rw (load_node-modify_node f q r s, threads_of) (go (same_ref q r) (load_node r s))
  where
    go :
        (b : Bool) (o : Option StatisticNode)
        → (elim (if b then map_node f o else o) as (λ _. Option ℕ) [
          | none ↦ none
          | some n ↦ some n.cur_thread_num
        ])
          ≡ (if b
              then map_count g (elim o [ none ↦ none | some n ↦ some n.cur_thread_num ])
              else elim o [ none ↦ none | some n ↦ some n.cur_thread_num ])
    go false o = refl
    go true none = refl
    go true (some n) = ap some (h n)

threads-record_pass_for :
    (q : Option NodeRef) (count now : ℕ) (r : NodeRef) (s : ResourceNodeStorage)
    → threads_of r (record_pass_for q count now s)
      ≡ (if leads_to q r then map_count inc32 (threads_of r s) else threads_of r s)
unfolding record_pass_for add_request increase_thread_num
threads-record_pass_for none count now r s = refl
threads-record_pass_for (some q) count now r s = ground (
  arith,
  threads-modify_node (add_request pass count now) (λ n. n) (λ n. refl) q r
      (modify_node increase_thread_num q s),
  threads-modify_node increase_thread_num inc32 (λ n. refl) q r s,
)

threads-record_block_for :
    (q : Option NodeRef) (count now : ℕ) (r : NodeRef) (s : ResourceNodeStorage)
    → threads_of r (record_block_for q count now s) ≡ threads_of r s
unfolding record_block_for add_request
threads-record_block_for none count now r s = refl
threads-record_block_for (some q) count now r s =
    ground (arith, threads-modify_node (add_request block count now) (λ n. n) (λ n. refl) q r s)

threads-record_complete_for :
    (q : Option NodeRef) (response : ℕ) (err : String) (count now : ℕ) (r : NodeRef)
    (s : ResourceNodeStorage)
    → threads_of r (record_complete_for q response err count now s)
      ≡ (if leads_to q r then map_count dec32 (threads_of r s) else threads_of r s)
unfolding record_complete_for add_request add_rt_and_complete decrease_thread_num
threads-record_complete_for none response err count now r s = refl
threads-record_complete_for (some q) response err count now r s = ground (
  arith,
  threads-modify_node decrease_thread_num dec32 (λ n. refl) q r s',
  threads-modify_node decrease_thread_num dec32 (λ n. refl) q r
      (modify_node (add_request exception count now) q s'),
  threads-modify_node (add_request exception count now) (λ n. n) (λ n. refl) q r s',
  threads-modify_node (add_rt_and_complete (sext32 response) count now) (λ n. n) (λ n. refl) q r s,
)
  where
    s' : ResourceNodeStorage
    s' = modify_node (add_rt_and_complete (sext32 response) count now) q s

-- A step of the thread number for each of the nodes that lead to `r`.
abbrev bump : (ℕ → ℕ) → Option NodeRef → NodeRef → Option ℕ → Option ℕ
bump f q r o = if leads_to q r then map_count f o else o

bump_cancel :
    (a b c : Option NodeRef) (r : NodeRef) (n : ℕ)
    → n < 2 ^ 32
    → bump dec32 b r (
        bump dec32 c r (bump dec32 a r (bump inc32 c r (bump inc32 b r (bump inc32 a r (some n))))))
      ≡ some n
bump_cancel a b c r n h = ground arith

module _ {P : Type 0} (metric : ParamMetric P) where
  entry_threads :
      (e : Entry) (context : EntryContext) (node : Option NodeRef) (count now : ℕ)
      (s : ResourceNodeStorage) (p : P) (token : TokenResult) (r : NodeRef)
      → context.last_token_result ≡ some token
      → is_blocked token ≡ false
      → threads_of r (statistic_entry metric e context node count now s p).storage
        ≡ bump inc32 context.tag_node r
            (bump inc32 (inbound_node e) r (bump inc32 node r (threads_of r s)))
  unfolding statistic_entry on_pass
  entry_threads e context node count now s p token r l b =
      subst (λ x. threads_of r x ≡ wanted) stored
        (threads-record_pass_for context.tag_node count now r s''
          ∙ ap (bump inc32 context.tag_node r) (
              threads-record_pass_for (inbound_node e) count now r s'
              ∙ ap (bump inc32 (inbound_node e) r) (threads-record_pass_for node count now r s)))
    where
      s' : ResourceNodeStorage
      s' = record_pass_for node count now s

      s'' : ResourceNodeStorage
      s'' = record_pass_for (inbound_node e) count now s'

      wanted : Option ℕ
      wanted =
          bump inc32 context.tag_node r
            (bump inc32 (inbound_node e) r (bump inc32 node r (threads_of r s)))

      stored :
          record_pass_for context.tag_node count now s''
          ≡ (statistic_entry metric e context node count now s p).storage
      stored = ground (arith, l, b)

  exit_threads :
      (e : Entry) (context : EntryContext) (q r : NodeRef) (count now : ℕ) (s : ResourceNodeStorage)
      (p : P)
      → has_block_error e ≡ false
      → e.cur_node ≡ some q
      → threads_of r (statistic_exit metric e context count now s p).1
        ≡ bump dec32
            (inbound_node e)
            r
            (bump dec32 context.tag_node r (bump dec32 (some q) r (threads_of r s)))
  unfolding statistic_exit
  exit_threads e context q r count now s p z c =
      subst (λ x. threads_of r x ≡ wanted) stored
        (threads-record_complete_for (inbound_node e) rt e.error count now r s''
          ∙ ap (bump dec32 (inbound_node e) r) (
              threads-record_complete_for context.tag_node rt e.error count now r s'
              ∙ ap (bump dec32 context.tag_node r)
                  (threads-record_complete_for (some q) rt e.error count now r s)))
    where
      rt : ℕ
      rt = sub64 now e.create_time

      s' : ResourceNodeStorage
      s' = record_complete_for (some q) rt e.error count now s

      s'' : ResourceNodeStorage
      s'' = record_complete_for context.tag_node rt e.error count now s'

      wanted : Option ℕ
      wanted =
          bump dec32 (inbound_node e) r
            (bump dec32 context.tag_node r (bump dec32 (some q) r (threads_of r s)))

      stored :
          record_complete_for (inbound_node e) rt e.error count now s''
          ≡ (statistic_exit metric e context count now s p).1
      stored = ground (arith, z, c)

  -- An entry that was blocked, with a reason that is not empty, keeps that result and changes no
  -- thread number; its exit changes nothing at all.
  pub blocked_leaves_threads :
      (e : Entry) (context : EntryContext) (node : Option NodeRef) (count now : ℕ)
      (s : ResourceNodeStorage) (p : P) (token : TokenResult) (reason : String) (r : NodeRef)
      → context.last_token_result ≡ some token
      → token.status ≡ blocked
      → token.blocked_reason ≡ some reason
      → str_eq reason "" ≡ false
      → let o = statistic_entry metric e context node count now s p in
        (o.result ≡ token)
        × (threads_of r o.storage ≡ threads_of r s)
        × ((now' : ℕ) (s' : ResourceNodeStorage) (p' : P)
            → statistic_exit metric o.entry context count now' s' p' ≡ (o.entry, s', p'))
  unfolding statistic_entry statistic_exit on_block
  blocked_leaves_threads e context node count now s p token reason r l b m z = (
    ground (arith, l, b),
    ground (
      arith,
      l,
      b,
      threads-record_block_for (inbound_node e) count now r s'',
      threads-record_block_for context.tag_node count now r s',
      threads-record_block_for node count now r s,
    ),
    λ now' u p'. ground (arith, l, b, m, z),
  )
    where
      s' : ResourceNodeStorage
      s' = record_block_for node count now s

      s'' : ResourceNodeStorage
      s'' = record_block_for context.tag_node count now s'

  -- For an entry that was not blocked and has no block error, and any node with a thread number below
  -- 2 ^ 32: if the number that the entry leaves is still there at the exit, and the exit has the same
  -- context and the node that the entry had, the number after it is the one before the entry.
  pub entry_exit_balance :
      (e : Entry) (context : EntryContext) (q r : NodeRef) (count now count' now' n : ℕ)
      (s s' : ResourceNodeStorage) (p p' : P) (token : TokenResult)
      → context.last_token_result ≡ some token
      → is_blocked token ≡ false
      → has_block_error e ≡ false
      → e.cur_node ≡ some q
      → threads_of r s ≡ some n
      → n < 2 ^ 32
      → threads_of r s'
        ≡ threads_of r (statistic_entry metric e context (some q) count now s p).storage
      → threads_of r (statistic_exit metric e context count' now' s' p').1 ≡ some n
  entry_exit_balance e context q r count now count' now' n s s' p p' token l b z c t k h =
      exit_threads e context q r count' now' s' p' z c
      ∙ ap exits (h ∙ entry_threads e context (some q) count now s p token r l b ∙ ap enters t)
      ∙ bump_cancel (some q) (inbound_node e) context.tag_node r n k
    where
      exits : Option ℕ → Option ℕ
      exits o =
          bump dec32 (inbound_node e) r (bump dec32 context.tag_node r (bump dec32 (some q) r o))

      enters : Option ℕ → Option ℕ
      enters o =
          bump inc32 context.tag_node r (bump inc32 (inbound_node e) r (bump inc32 (some q) r o))
