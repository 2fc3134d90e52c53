-- ===== src/MessageQueue/Reads.antt =====
-- The read handler on every branch.
use disastros_msg_queues.Base.{
  ℕ, ◌+◌, ◌<◌, ◌≡◌, ◌≢◌, ◌≤◌, ◌⊎◌, refl, sym, ◌∙◌, ap, ap₂, subst, arith, true, false, List, [],
  ◌∷◌, ◌++◌, map, ◌∈◌, ◌∉◌, has-append, mem-ne, Distinct, Distinct-right, pos_part, ltb_ℤ, ◌≤ℤ◌, ok,
  fault, null_dereference, Returns, returns, Ptr, null, is_null-ne, update, update_self, update_ne,
}
use disastros_msg_queues.PoolAllocator.{PoolAllocator}
use disastros_msg_queues.Os.{ProcessStatus, Os, MessageQueue, set_mq}
use disastros_msg_queues.Process.{arg, return_value}
use disastros_msg_queues.MessageQueue.{readable}
use disastros_msg_queues.MessageQueue.Write.{woken}
use disastros_msg_queues.MessageQueue.Read.{short_buffer, read_from, read, wake_writers}
use disastros_msg_queues.MessageQueue.Bytes.{bytes_from-copy, copy-outside}
use disastros_msg_queues.MessageQueue.Invariant.{Inv, waiters}
use disastros_msg_queues.MessageQueue.Contents.{payload, contents, bytes_at}
use disastros_msg_queues.MessageQueue.Lookup.{by_id-mem}
use disastros_msg_queues.MessageQueue.Suspend.{suspend_reader-null}
use disastros_msg_queues.MessageQueue.Wake.{with_woken}
use disastros_msg_queues.MessageQueue.WakeWriters.{no_writers, with_ptrs, FreedAll, wake_writers-ok}
use disastros_msg_queues.MessageQueue.Receive.{received_mq, received, receive-ok}
use disastros_msg_queues.MessageQueue.Received.{received-Inv}
use disastros_msg_queues.MessageQueue.Woken.{woken-Wakeable, running-not-woken}
use disastros_msg_queues.MessageQueue.Writes.{named}

-- The state behind a read that takes a message.
pub record Takes (os : Os) (q : Ptr) (os' : Os) : Type 0 where
  pub valid : Inv os'
  pub taken :
      contents os q
      ≡ bytes_at os' (pos_part (arg os 1)) (pos_part (os'.pcbs os.running).syscall_retvalue)
        ∷ contents os' q
  pub others : (r : Ptr) → q ≢ r → contents os' r ≡ contents os r
  pub untouched :
      (p : Ptr)
      → (p < pos_part (arg os 1))
        ⊎ (pos_part (arg os 1) + pos_part (os'.pcbs os.running).syscall_retvalue ≤ p)
      → os'.bytes p ≡ os.bytes p
  pub no_writers_left : (os'.mqs q).waiting_to_write ≡ []
  pub ready : os'.ready_list ≡ os.ready_list ++ map os.pcb_ptrs (os.mqs q).waiting_to_write
  pub woken_up :
      (p : Ptr)
      → p ∈ map os.pcb_ptrs (os.mqs q).waiting_to_write
      → ((os'.pcbs p).status ≡ ProcessStatus.ready) × ((os'.pcbs p).syscall_retvalue ≡ woken)
  pub items_freed : FreedAll os.pcb_ptr_allocator (os.mqs q).waiting_to_write os'.pcb_ptr_allocator
  pub runs_on : os'.running ≡ os.running

module _ (os : Os) (q m : Ptr) (rest : List Ptr) (b : PoolAllocator) (buffer : Ptr) where
  size : ℕ
  size = pos_part (os.messages m).length

  retvalue-received :
      ((received os q m rest b buffer).pcbs os.running).syscall_retvalue ≡ (os.messages m).length
  retvalue-received = ground arith

  contents-received :
      (os.mqs q).messages ≡ m ∷ rest
      → contents os q
        ≡ bytes_at (received os q m rest b buffer) buffer size
          ∷ contents (received os q m rest b buffer) q
  unfolding size
  contents-received first =
      ap (map (λ x. payload (os.messages x))) first
      ∙ ap₂ (λ x xs. x ∷ xs)
          (sym (
            bytes_from-copy (pos_part (os.messages m).length) (os.messages m).message buffer
              os.bytes))
          (ap (λ (mq : MessageQueue). map (λ x. payload (os.messages x)) mq.messages)
            (sym (update_self os.mqs q (received_mq (os.mqs q) rest))))

  contents-received_ne :
      (r : Ptr) → q ≢ r → contents (received os q m rest b buffer) r ≡ contents os r
  contents-received_ne r ne =
      ap (λ (mq : MessageQueue). map (λ x. payload (os.messages x)) mq.messages)
        (update_ne os.mqs q r (received_mq (os.mqs q) rest) ne)

  bytes-received :
      (p : Ptr)
      → (p < buffer) ⊎ (buffer + size ≤ p)
      → (received os q m rest b buffer).bytes p ≡ os.bytes p
  unfolding size
  bytes-received p h =
      copy-outside (pos_part (os.messages m).length) 0 (os.messages m).message buffer os.bytes p
        (omega arith)

  writers-received : ((received os q m rest b buffer).mqs q).waiting_to_write ≡ []
  writers-received =
      ap (λ (mq : MessageQueue). mq.waiting_to_write)
        (update_self os.mqs q (received_mq (os.mqs q) rest))

  woken-received :
      (p : Ptr)
      → p ∈ map os.pcb_ptrs (os.mqs q).waiting_to_write
      → os.running ≢ p
      → (((received os q m rest b buffer).pcbs p).status ≡ ProcessStatus.ready)
        × (((received os q m rest b buffer).pcbs p).syscall_retvalue ≡ woken)
  woken-received p at ne = (ground arith, ground arith)

-- A read of a queue that is not there reads through a null pointer.
pub read_no_queue : (os : Os) → Inv os → named os ≡ null → read os ≡ fault null_dereference
unfolding read read_from
read_no_queue os inv missing =
    rw (is_null-ne os.running _ _ inv.scheduled.exists, missing)
      (suspend_reader-null os inv.scheduled.exists inv.scheduled.not_waiting)

module _ (os : Os) (inv : Inv os) (found : named os ≢ null) (m : Ptr) (rest : List Ptr)
    (first : (os.mqs (named os)).messages ≡ m ∷ rest) where
  listed : named os ∈ os.mq_list
  listed = by_id-mem os os.mq_list (arg os 0) found

  pub read-first : read os ≡ read_from os (named os) (m ∷ rest) (pos_part (arg os 1)) (arg os 2)
  unfolding read
  read-first = rw (is_null-ne os.running _ _ inv.scheduled.exists) (
      rw (is_null-ne (named os) _ _ found)
        (ap (λ ms. read_from os (named os) ms (pos_part (arg os 1)) (arg os 2)) first))

  pub read-short :
      ltb_ℤ (arg os 2) (os.messages m).length ≡ true → read os ≡ ok (return_value os short_buffer)
  unfolding read_from
  read-short short = read-first ∙ rw short refl

  in_line : Distinct (os.mqs (named os)).waiting_to_write
  in_line =
      Distinct-right (os.mqs (named os)).waiting_to_read (os.mqs (named os)).waiting_to_write
        (inv.queues (named os) listed).in_line

  writers_in_line :
      (w : Ptr) → w ∈ (os.mqs (named os)).waiting_to_write → w ∈ waiters (os.mqs (named os))
  writers_in_line w at =
      ground (
        arith,
        has-append w (os.mqs (named os)).waiting_to_read (os.mqs (named os)).waiting_to_write,
      )

  not_woken : os.running ∉ map os.pcb_ptrs (os.mqs (named os)).waiting_to_write
  not_woken =
      running-not-woken os inv (named os) listed (os.mqs (named os)).waiting_to_write in_line
        writers_in_line

  module _ (b : PoolAllocator)
      (freed : FreedAll os.pcb_ptr_allocator (os.mqs (named os)).waiting_to_write b) where
    result : Os
    result = received os (named os) m rest b (pos_part (arg os 1))

    result-Takes : Takes os (named os) result
    unfolding result size
    result-Takes =
        let q = named os in
        let buffer = pos_part (arg os 1) in
        let returned = retvalue-received os q m rest b buffer in
        record {
          valid = received-Inv os inv q m rest b buffer listed first freed;
          taken =
              contents-received os q m rest b buffer first
              ∙ ap (λ k. bytes_at result buffer (pos_part k) ∷ contents result q) (sym returned);
          others = contents-received_ne os q m rest b buffer;
          untouched = λ p h.
              bytes-received os q m rest b buffer p
                (subst (λ k. (p < buffer) ⊎ (buffer + pos_part k ≤ p)) returned h);
          no_writers_left = writers-received os q m rest b buffer;
          ready = refl;
          woken_up = λ p at. woken-received os q m rest b buffer p at (λ e.
              mem-ne p os.running (map os.pcb_ptrs (os.mqs q).waiting_to_write) at not_woken
                (sym e));
          items_freed = freed;
          runs_on = refl;
        }

    read-result :
        (os.messages m).length ≤ℤ arg os 2
        → readable (os.messages m).length (pos_part (arg os 1)) ≡ ok (pos_part (arg os 1))
        → wake_writers
            (set_mq os (named os) (record (os.mqs (named os)) { messages = rest }))
            (named os)
            (os.mqs (named os)).waiting_to_write
          ≡ ok (
              with_woken
                (with_ptrs os b)
                (no_writers
                  (named os)
                  (os.mqs (named os)).waiting_to_write
                  (update os.mqs (named os) (record (os.mqs (named os)) { messages = rest })))
                (os.mqs (named os)).waiting_to_write)
        → read os ≡ ok result
    unfolding result read_from
    read-result fits buffer wake =
        let fits' : ltb_ℤ (arg os 2) (os.messages m).length ≡ false = ground arith in
        read-first ∙ rw fits' (receive-ok os (named os) m rest b (pos_part (arg os 1)) buffer wake)

  -- What the round of waking the writers leaves.
  pub writers_wake :
      (b : PoolAllocator) × (wake_writers
          (set_mq os (named os) (record (os.mqs (named os)) { messages = rest }))
          (named os)
          (os.mqs (named os)).waiting_to_write
        ≡ ok (
            with_woken
              (with_ptrs os b)
              (no_writers
                (named os)
                (os.mqs (named os)).waiting_to_write
                (update os.mqs (named os) (record (os.mqs (named os)) { messages = rest })))
              (os.mqs (named os)).waiting_to_write))
      × FreedAll os.pcb_ptr_allocator (os.mqs (named os)).waiting_to_write b
  writers_wake =
      wake_writers-ok (os.mqs (named os)).waiting_to_write
        (set_mq os (named os) (record (os.mqs (named os)) { messages = rest })) (named os)
        (woken-Wakeable os inv (named os) listed (os.mqs (named os)).waiting_to_write in_line
          writers_in_line)
        inv.pcb_ptr_pool (λ w at. (inv.waits (named os) listed w (writers_in_line w at)).1) in_line

  -- If the first message fits the buffer, and there is a buffer if the message has a byte, no access
  -- fails, the invariant holds again, the queue's contents lose their first message, whose bytes now
  -- lie at the buffer and whose length is the result, no other byte of memory and no other queue
  -- changes, and all writers that waited at the queue are at the end of the ready list with status
  -- ready and result -20, their items released.
  pub read-Takes :
      (os.messages m).length ≤ℤ arg os 2
      → readable (os.messages m).length (pos_part (arg os 1)) ≡ ok (pos_part (arg os 1))
      → Returns (Takes os (named os)) (read os)
  read-Takes fits buffer =
      let (b, wake, freed) = writers_wake in
      rw (read-result b freed fits buffer wake) (returns (result-Takes b freed))
