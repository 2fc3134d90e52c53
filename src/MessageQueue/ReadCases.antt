-- ===== src/MessageQueue/ReadCases.antt =====
-- Everything that a read can do.
use disastros_msg_queues.Base.{
  ◌≡◌, ◌≢◌, inl, inr, refl, sym, ◌∙◌, subst, arith, Bool-cases, true, List, [], ◌∷◌, ◌∈◌, ◌∉◌,
  has-append, pos, pos_part, ltb_ℤ, ◌≤ℤ◌, Run, ok, fault, null_dereference, Returns, returns, Ptr,
  null, is_null, is_null-ne,
}
use disastros_msg_queues.PoolAllocator.{get_block}
use disastros_msg_queues.PoolAllocator.Live.{HasBlock, exhausted-size}
use disastros_msg_queues.Sequence.{detach_first}
use disastros_msg_queues.Os.{Os}
use disastros_msg_queues.Process.{arg, return_value}
use disastros_msg_queues.MessageQueue.Read.{read, read_from, suspend_reader, short_buffer}
use disastros_msg_queues.MessageQueue.Invariant.{Inv}
use disastros_msg_queues.MessageQueue.Lookup.{by_id-mem}
use disastros_msg_queues.MessageQueue.Wake.{insert_last-new}
use disastros_msg_queues.MessageQueue.Waits.{Waits}
use disastros_msg_queues.MessageQueue.WriteWaits.{read-empty, read-Waits}
use disastros_msg_queues.MessageQueue.Writes.{named}
use disastros_msg_queues.MessageQueue.WriteCases.{stored_at, readable_cases, can_wait, free-item}
use disastros_msg_queues.MessageQueue.Receive.{receive-unreadable}
use disastros_msg_queues.MessageQueue.Reads.{
  writers_wake, read-first, read_no_queue, read-short, Takes, read-Takes,
}

-- The queue that is named is there, and `m` is its first message.
pub record IsFirst (os : Os) (m : Ptr) (rest : List Ptr) : Type 0 where
  pub found : named os ≢ null
  pub first : stored_at os (named os) ≡ m ∷ rest

-- The queue that is named is there and holds no message.
pub record IsEmpty (os : Os) : Type 0 where
  pub found : named os ≢ null
  pub empty : stored_at os (named os) ≡ []

-- Each outcome of a read, with the states that have it.
pub data ReadCase (os : Os) : Run Os → Type 0 where
  missing : named os ≡ null → ReadCase os (fault null_dereference)
  refused_short :
      (m : Ptr) (rest : List Ptr)
      → IsFirst os m rest
      → ltb_ℤ (arg os 2) (os.messages m).length ≡ true
      → ReadCase os (ok (return_value os short_buffer))
  taken :
      {os' : Os} (m : Ptr) (rest : List Ptr)
      → IsFirst os m rest
      → (os.messages m).length ≤ℤ arg os 2
      → Takes os (named os) os'
      → ReadCase os (ok os')
  no_buffer :
      (m : Ptr) (rest : List Ptr)
      → IsFirst os m rest
      → pos_part (os.messages m).length ≢ 0
      → pos_part (arg os 1) ≡ null
      → ReadCase os (fault null_dereference)
  waits :
      {os' : Os} (next : Ptr) (rest : List Ptr)
      → IsEmpty os
      → Waits (λ mq. mq.waiting_to_read) os (named os) next rest os'
      → ReadCase os (ok os')
  no_item : IsEmpty os → os.pcb_ptr_allocator.size ≡ pos 0 → ReadCase os (fault null_dereference)
  nobody_ready : IsEmpty os → os.ready_list ≡ [] → ReadCase os (fault null_dereference)

module _ (os : Os) (inv : Inv os) (q : Ptr) (found : q ≢ null) where
  suspend_reader-exhausted :
      get_block os.pcb_ptr_allocator ≡ ok (null, os.pcb_ptr_allocator)
      → suspend_reader os q ≡ fault null_dereference
  unfolding suspend_reader
  suspend_reader-exhausted e =
      rw (insert_last-new os.waiting_list os.running inv.scheduled.exists inv.scheduled.not_waiting)
        (rw (is_null-ne q _ _ found) (rw e refl))

  suspend_reader-alone :
      (block : HasBlock os.pcb_ptr_allocator)
      → q ∈ os.mq_list
      → os.ready_list ≡ []
      → suspend_reader os q ≡ fault null_dereference
  unfolding suspend_reader detach_first
  suspend_reader-alone block at e =
      let out : block.block ∉ (os.mqs q).waiting_to_read = ground (
        arith,
        free-item os inv q block at,
        has-append block.block (os.mqs q).waiting_to_read (os.mqs q).waiting_to_write,
      ) in
      rw (insert_last-new os.waiting_list os.running inv.scheduled.exists inv.scheduled.not_waiting)
        (rw (is_null-ne q _ _ found, block.gets)
          (rw (is_null-ne block.block _ _ block.exists) (
            rw (insert_last-new (os.mqs q).waiting_to_read block.block block.exists out)
              (rw e refl))))

module _ (os : Os) (inv : Inv os) where
  read_none : IsEmpty os → ReadCase os (read os)
  unfolding read_from
  read_none v =
      let at = by_id-mem os os.mq_list (arg os 0) v.found in
      let to = read-empty os inv v.found v.empty in
      elim (can_wait os inv) [
        | inl e ↦
            subst (ReadCase os) (sym (to ∙ suspend_reader-exhausted os inv (named os) v.found e))
              (no_item v (exhausted-size os.pcb_ptr_allocator inv.pcb_ptr_pool e))
        | inr (block, inl e) ↦
            subst (ReadCase os)
              (sym (to ∙ suspend_reader-alone os inv (named os) v.found block at e))
              (nobody_ready v e)
        | inr (block, inr (next, rest, e)) ↦
            go next rest (read-Waits os inv v.found block next rest e v.empty)
      ]
    where
      go :
          (next : Ptr) (rest : List Ptr) {r : Run Os}
          → Returns (Waits (λ mq. mq.waiting_to_read) os (named os) next rest) r
          → ReadCase os r
      go next rest (returns w) = waits next rest v w

  read_some : (m : Ptr) (rest : List Ptr) → IsFirst os m rest → ReadCase os (read os)
  unfolding read_from
  read_some m rest v = elim (Bool-cases (ltb_ℤ (arg os 2) (os.messages m).length)) [
    | inl short ↦
        subst (ReadCase os) (sym (read-short os inv v.found m rest v.first short))
          (refused_short m rest v short)
    | inr fits ↦ elim (readable_cases (os.messages m).length (pos_part (arg os 1))) [
      | inl e ↦ go (ground arith) (read-Takes os inv v.found m rest v.first (ground arith) e)
      | inr (e, some_byte, none) ↦
          let (b, wake, freed) = writers_wake os inv v.found m rest v.first in
          subst (ReadCase os)
            (sym (
              read-first os inv v.found m rest v.first
              ∙ rw fits (receive-unreadable os (named os) m rest b _ e wake)))
            (no_buffer m rest v some_byte none)
    ]
  ]
    where
      go :
          {r : Run Os}
          → (os.messages m).length ≤ℤ arg os 2
          → Returns (Takes os (named os)) r
          → ReadCase os r
      go fits (returns t) = taken m rest v fits t

-- Under the invariant, a read has one of seven outcomes, each in the states that are named: at a queue
-- that is not there it goes through null; at a queue whose first message is longer than the buffer it
-- is refused with -15; it takes a first message that fits, or there is a byte to copy to null, and the
-- read goes through null; at an empty queue the process waits, or no list item is free or no process
-- is ready, and the read goes through null.
pub read_cases : (os : Os) → Inv os → ReadCase os (read os)
read_cases os inv = elim (Bool-cases (is_null (named os))) [
  | inl z ↦
      let none : named os ≡ null = ground arith in
      subst (ReadCase os) (sym (read_no_queue os inv none)) (missing none)
  | inr z ↦ go (ground arith) (stored_at os (named os)) refl
]
  where
    go : named os ≢ null → (ms : List Ptr) → stored_at os (named os) ≡ ms → ReadCase os (read os)
    go found [] e = read_none os inv (record { found = found; empty = e })
    go found (m ∷ rest) e = read_some os inv m rest (record { found = found; first = e })
