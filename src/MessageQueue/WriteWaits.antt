-- ===== src/MessageQueue/WriteWaits.antt =====
-- A write to a full queue, and a read of an empty one: the process waits.
use mathlib.Core.List.{append_assoc, append-nil}
use disastros_msg_queues.Base.{
  ◌≡◌, ◌≢◌, ◌≤◌, ◌⊎◌, inl, inr, refl, sym, ◌∙◌, ap, subst, arith, Bool-cases, List, [], ◌∷◌, ◌++◌,
  length, has, ◌∈◌, ◌∉◌, has-append, Distinct, Distinct-append, mem-ne, Returns, returns, pos_part,
  Ptr, null, is_null-ne,
}
use disastros_msg_queues.PoolAllocator.Live.{HasBlock, HasBlock-Fresh, Fresh}
use disastros_msg_queues.Os.{Os, MessageQueue}
use disastros_msg_queues.Process.{arg}
use disastros_msg_queues.MessageQueue.{max_len_message, max_num_messages}
use disastros_msg_queues.MessageQueue.Write.{write}
use disastros_msg_queues.MessageQueue.Read.{read_from, read}
use disastros_msg_queues.MessageQueue.Invariant.{Inv, IsQueue, waiters}
use disastros_msg_queues.MessageQueue.Lookup.{by_id-mem}
use disastros_msg_queues.MessageQueue.Suspend.{suspend_writer-ok, suspend_reader-ok}
use disastros_msg_queues.MessageQueue.Waits.{Waits, new_in_line, suspended-Waits}
use disastros_msg_queues.MessageQueue.Writes.{named, write-short, write_to-full}

joins_end : (xs : List Ptr) (p w : Ptr) → w ∈ xs ++ p ∷ [] → (w ∈ xs) ⊎ (w ≡ p)
joins_end xs p w at = elim (Bool-cases (has w xs)) [
  | inl old ↦ inl old
  | inr new ↦ inr (ground (arith, has-append w xs (p ∷ [])))
]

Distinct-snoc : (xs : List Ptr) (p : Ptr) → Distinct xs → p ∉ xs → Distinct (xs ++ p ∷ [])
Distinct-snoc xs p d out =
    Distinct-append xs (p ∷ []) d (refl, tt) (λ x at. ground (arith, mem-ne x p xs at out))

-- The queue with one more writer that waits, or one more reader.
abbrev with_writer : MessageQueue → Ptr → MessageQueue
with_writer mq p = record mq { waiting_to_write = mq.waiting_to_write ++ p ∷ [] }

abbrev with_reader : MessageQueue → Ptr → MessageQueue
with_reader mq p = record mq { waiting_to_read = mq.waiting_to_read ++ p ∷ [] }

waiters-writer : (mq : MessageQueue) (p : Ptr) → waiters (with_writer mq p) ≡ waiters mq ++ p ∷ []
waiters-writer mq p = sym (append_assoc mq.waiting_to_read mq.waiting_to_write (p ∷ []))

waiters-reader :
    (mq : MessageQueue) (p : Ptr)
    → mq.waiting_to_write ≡ []
    → waiters (with_reader mq p) ≡ waiters mq ++ p ∷ []
waiters-reader mq p none =
    ap (λ ws. (mq.waiting_to_read ++ p ∷ []) ++ ws) none
    ∙ append-nil (mq.waiting_to_read ++ p ∷ [])
    ∙ ap (λ ws. ws ++ p ∷ [])
        (sym (append-nil mq.waiting_to_read) ∙ ap (λ ws. mq.waiting_to_read ++ ws) (sym none))

with_writer-IsQueue :
    (mq : MessageQueue) (p : Ptr)
    → IsQueue mq
    → length mq.messages ≡ max_num_messages
    → p ∉ waiters mq
    → IsQueue (with_writer mq p)
with_writer-IsQueue mq p v full out = record {
  counted = v.counted;
  bounded = v.bounded;
  distinct = v.distinct;
  readers = elim v.readers [ inl e ↦ inl e | inr e ↦ absurd (ground (arith, ap length e)) ];
  writers = inr full;
  in_line = subst Distinct (sym (waiters-writer mq p)) (Distinct-snoc (waiters mq) p v.in_line out);
}

with_reader-IsQueue :
    (mq : MessageQueue) (p : Ptr)
    → IsQueue mq
    → mq.messages ≡ []
    → mq.waiting_to_write ≡ []
    → p ∉ waiters mq
    → IsQueue (with_reader mq p)
with_reader-IsQueue mq p v empty none out = record {
  counted = v.counted;
  bounded = v.bounded;
  distinct = v.distinct;
  readers = inr empty;
  writers = inl none;
  in_line =
      subst Distinct (sym (waiters-reader mq p none)) (Distinct-snoc (waiters mq) p v.in_line out);
}

pub read-empty :
    (os : Os)
    → Inv os
    → named os ≢ null
    → (os.mqs (named os)).messages ≡ []
    → read os ≡ read_from os (named os) [] (pos_part (arg os 1)) (arg os 2)
unfolding read
read-empty os inv found empty = rw (is_null-ne os.running _ _ inv.scheduled.exists) (
    rw (is_null-ne (named os) _ _ found)
      (ap (λ ms. read_from os (named os) ms (pos_part (arg os 1)) (arg os 2)) empty))

module _ (os : Os) (inv : Inv os) (found : named os ≢ null) (block : HasBlock os.pcb_ptr_allocator)
    (next : Ptr) (rest : List Ptr) (head : os.ready_list ≡ next ∷ rest) where
  listed : named os ∈ os.mq_list
  listed = by_id-mem os os.mq_list (arg os 0) found

  fresh : Fresh os.pcb_ptr_allocator block.block block.rest
  fresh = HasBlock-Fresh os.pcb_ptr_allocator inv.pcb_ptr_pool block

  not_in_line : block.block ∉ waiters (os.mqs (named os))
  not_in_line = new_in_line os inv (named os) block.block block.rest next rest listed fresh head

  not_writer : block.block ∉ (os.mqs (named os)).waiting_to_write
  not_writer = ground (
    arith,
    not_in_line,
    has-append block.block (os.mqs (named os)).waiting_to_read (os.mqs (named os)).waiting_to_write,
  )

  not_reader : block.block ∉ (os.mqs (named os)).waiting_to_read
  not_reader = ground (
    arith,
    not_in_line,
    has-append block.block (os.mqs (named os)).waiting_to_read (os.mqs (named os)).waiting_to_write,
  )

  -- With a list item left and another process ready, the running process writes a message of at
  -- most 64 bytes to a queue of 256 messages: no access fails, the invariant holds again, the
  -- process is the last on the waiting list and in the line of the queue's writers, with status
  -- waiting, the first ready process runs, and no queue's contents change.
  pub write-Waits :
      pos_part (arg os 2) ≤ max_len_message
      → length (os.mqs (named os)).messages ≡ max_num_messages
      → Returns (Waits (λ mq. mq.waiting_to_write) os (named os) next rest) (write os)
  write-Waits short full =
      let q = named os in
      let v = inv.queues q listed in
      rw
        (write-short os inv.scheduled.exists short
          ∙ write_to-full os q (pos_part (arg os 1)) (arg os 2) found v full
          ∙ suspend_writer-ok os q block.block block.rest next rest inv.scheduled.exists
              inv.scheduled.not_waiting block.gets block.exists head not_writer)
        (returns (
          suspended-Waits os inv q block.block block.rest next rest listed fresh head
            (λ mq. mq.waiting_to_write) (with_writer (os.mqs q) block.block) refl refl not_writer
            (with_writer-IsQueue (os.mqs q) block.block v full not_in_line)
            (λ w at.
              joins_end (waiters (os.mqs q)) block.block w
                (subst (λ l. w ∈ l) (waiters-writer (os.mqs q) block.block) at))))

  -- With a list item left and another process ready, the running process reads from a queue that
  -- holds no message: no access fails, the invariant holds again, the process is the last on the
  -- waiting list and in the line of the queue's readers, with status waiting, the first ready
  -- process runs, and no queue's contents change.
  pub read-Waits :
      (os.mqs (named os)).messages ≡ []
      → Returns (Waits (λ mq. mq.waiting_to_read) os (named os) next rest) (read os)
  unfolding read_from
  read-Waits empty =
      let q = named os in
      let v = inv.queues q listed in
      let none : (os.mqs q).waiting_to_write ≡ [] = elim v.writers [
        | inl e ↦ e
        | inr full ↦ absurd (ground (arith, ap length empty))
      ] in
      rw
        (read-empty os inv found empty
          ∙ suspend_reader-ok os q block.block block.rest next rest inv.scheduled.exists
              inv.scheduled.not_waiting block.gets block.exists head found not_reader)
        (returns (
          suspended-Waits os inv q block.block block.rest next rest listed fresh head
            (λ mq. mq.waiting_to_read) (with_reader (os.mqs q) block.block) refl refl not_reader
            (with_reader-IsQueue (os.mqs q) block.block v empty none not_in_line)
            (λ w at.
              joins_end (waiters (os.mqs q)) block.block w
                (subst (λ l. w ∈ l) (waiters-reader (os.mqs q) block.block none) at))))
